-- ===== src/Mqtt/Client/Examples.antt =====
-- The theorems on the client at a concrete client, which waits for a PINGRESP packet and for the
-- acknowledgement of a SUBSCRIBE packet, in a concrete environment.
use circle_stdlib.Common.{
  ℕ, zero, suc, ◌≤◌, ◌≡◌, refl, sym, ap, ◌∙◌, subst, inl, inr, true, false, List, [], ◌∷◌, ◌++◌,
  ◌+◌, ◌-◌, ◌%◌, ◌==◌, if◌then◌else◌, Option, copy_in, none, some, length, All, Holds, arith,
}
use circle_stdlib.Common.Int.{pos}
use mathlib.Core.List.{Perm}
use circle_stdlib.Mqtt.{PacketType, publish, subscribe, ping_resp, unknown, type_of_code}
use circle_stdlib.Mqtt.SendPacket.{SendPacket}
use circle_stdlib.Mqtt.ReceivePacket.{
  ReceivePacket, ReceiveStatus, Received, failed, stored, receive, after_receive, store_received,
  parse, decode_length, basic_checks,
}
use circle_stdlib.Mqtt.ReceivePacket.Length.{IsByte}
use circle_stdlib.Mqtt.ReceivePacket.Usable.{IsUsable, IsSocket}
use circle_stdlib.Mqtt.Client.{Client, Circle, wait_for_ping_resp}
use circle_stdlib.Mqtt.Client.Invariant.{IsValid, IsQueued, IsFriendly}
use circle_stdlib.Mqtt.Client.Connection.{Unset, create, take_identifier}
use circle_stdlib.Mqtt.Client.Handlers.{handle_publish}
use circle_stdlib.Mqtt.Client.Task.{dispatch, run_round}
use circle_stdlib.Mqtt.Client.Queue.{
  insert_packet, remove_packet, insert_identifier, identifier_in_store, remove_identifier,
}
use circle_stdlib.Mqtt.Client.Queue.Order.{
  IsScheduled, Removes, insert_packet_lem, remove_packet_lem,
}
use circle_stdlib.Mqtt.Client.Queue.Identifiers.{IsDistinct, store_lem}
use circle_stdlib.Mqtt.Client.Creation.{IsUsed, connect_to-create}
use circle_stdlib.Mqtt.Client.Retained.{take_identifier_lem}
use circle_stdlib.Mqtt.Client.Receiving.{Handling, received-IsValid}
use circle_stdlib.Mqtt.Client.Publishing.{handle_publish_short}
use circle_stdlib.Mqtt.Client.{disconnected}
use circle_stdlib.Mqtt.Client.Requests.{ConnectOptions, connect_to}
use circle_stdlib.Mqtt.Client.ConnectPacket.{IsWritable}
use circle_stdlib.Mqtt.Client.Sessions.{
  Action, connect_with, disconnect_with, subscribe_with, unsubscribe_with, publish_with, task_round,
  perform_all, perform_all-IsValid,
}
use circle_stdlib.Mqtt.Client.Rounds.{dispatch-IsValid, run_round-IsValid, IsPolite, IsIdentified}

abbrev zeros : ℕ → List ℕ
zeros zero = []
zeros (suc n) = 0 ∷ zeros n

length-zeros : (n : ℕ) → length (zeros n) ≡ n
length-zeros zero = refl
length-zeros (suc n) = ap suc (length-zeros n)

-- The world is the number of PINGRESP packets that are still to arrive.
abbrev arriving : ℕ → ℕ → Received × ℕ
arriving zero n = (stored [], zero)
arriving (suc w) n = (stored (0xd0 ∷ 0 ∷ []), w)

abbrev circle : Circle
circle = record {
  World = ℕ;
  hz = 100;
  frame_size = 4;
  ticks = λ w. (2000, w);
  allocate = λ w n. (some (zeros n), w);
  has_memory = λ w. (true, w);
  resolve = λ w host. (some 1, w);
  setup_tls = λ w host. (true, w);
  open_connection = λ w ip port. (pos 0, w);
  send_bytes = λ w bytes. (pos (length bytes), w);
  receive_bytes = arriving;
  close_socket = λ w. w;
  default_identifier = λ w. (114 ∷ [], w);
  on_connect = λ present c. some c;
  on_disconnect = λ reason c. some c;
  on_message = λ topic payload n retain c. some c;
  on_loop = λ c. some c;
  ms_sleep = λ ms c. some c;
}

abbrev stored_bytes : Received → List ℕ
stored_bytes failed = []
stored_bytes (stored bytes) = bytes

arriving-IsSocket : IsSocket ℕ 4 arriving
arriving-IsSocket zero bytes e =
    subst (λ bs. All IsByte bs × (length bs ≤ 4)) (ap stored_bytes e) (tt, omega arith)
arriving-IsSocket (suc w) bytes e =
    subst (λ bs. All IsByte bs × (length bs ≤ 4)) (ap stored_bytes e)
      ((omega arith, (omega arith, tt)), omega arith)

abbrev memory_bytes : Option (List ℕ) → List ℕ
memory_bytes none = []
memory_bytes (some m) = m

circle-IsFriendly : IsFriendly circle
circle-IsFriendly = record {
  socket = arriving-IsSocket;
  memory = λ w n m e. ap length (ap memory_bytes (sym e)) ∙ length-zeros n;
  objects = λ w. refl;
  connects = λ present c v. (v, refl);
  messages = λ topic payload n retain c v. (v, refl);
  disconnects = λ reason c v. v;
  loops = λ c v. v;
  sleeps = λ ms c v. v;
}

abbrev subscription : SendPacket
subscription = record {
  packet_type = subscribe;
  max_packet_size = 128;
  error = false;
  buffer = some (zeros 5 ++ (0 ∷ 1 ∷ 0 ∷ 1 ∷ 97 ∷ 1 ∷ zeros 117));
  buf_ptr = 11;
  flags = 2;
  send_tries = 3;
  scheduled_time = 1900;
  qos = 1;
  packet_identifier = 1;
}

subscription-IsQueued : IsQueued subscription
subscription-IsQueued = record {
  sendable = record {
    flags_fit = omega arith;
    size_fits = omega arith;
    state = inr (
      0 ∷ 1 ∷ 0 ∷ 1 ∷ 97 ∷ 1 ∷ [],
      record {
        front = zeros 5;
        back = zeros 117;
        no_error = refl;
        memory = refl;
        front_size = refl;
        pointer = refl;
        size = refl;
        in_range = omega arith;
      },
    );
  };
  kind = refl;
  acknowledged = inl refl;
}

abbrev buffer : List ℕ
buffer = zeros 16

abbrev client : Client ℕ
client = record {
  max_packet_size = 128;
  max_topic_size = 16;
  topic_buffer = true;
  socket_open = true;
  status = wait_for_ping_resp;
  keep_alive_seconds = 60;
  timer_running = true;
  timer_elapses_at = 2100;
  next_packet_identifier = 2;
  receive_packet = record {
    buffer_size = 16;
    buffer = some buffer;
    in_ptr = 0;
    out_ptr = 0;
    packet_type = unknown;
    flags = 0;
    remaining_length = 0;
    bytes_consumed = 0;
  };
  queue = subscription ∷ [];
  store = [];
  world = 1;
}

zeros-bytes : (n : ℕ) → All IsByte (zeros n)
zeros-bytes zero = tt
zeros-bytes (suc n) = (omega arith, zeros-bytes n)

client-IsValid : IsValid circle client
client-IsValid = record {
  socket = refl;
  idle = inl refl;
  timer = inr (omega arith, refl);
  waiting = inr (omega arith, refl);
  size = (omega arith, omega arith);
  next_range = omega arith;
  next_nonzero = inr (omega arith);
  queued = (subscription-IsQueued, tt);
  usable = record {
    buf = buffer;
    memory = refl;
    bytes = zeros-bytes 16;
    size = refl;
    received = omega arith;
    room = omega arith;
    positive = omega arith;
    range = omega arith;
  };
}

take_identifier_lem_example :
    ((take_identifier circle client).0 ≡ 2)
    × ((take_identifier circle client).1.next_packet_identifier ≡ 2 % 65535 + 1)
take_identifier_lem_example = take_identifier_lem circle client (omega arith)

insert_packet_lem_example :
    IsScheduled 1000 0 (insert_packet subscription 2500 (subscription ∷ []))
    × Perm
        (insert_packet subscription 2500 (subscription ∷ []))
        (record subscription { scheduled_time = 2500 } ∷ subscription ∷ [])
insert_packet_lem_example =
    insert_packet_lem 1000 0 2500 subscription (subscription ∷ []) (omega arith)
      (omega arith, omega arith) (omega arith) ((omega arith, omega arith), omega arith, tt)

remove_packet_lem_example :
    Removes 1
      (subscription ∷ [])
      (remove_packet 1 (subscription ∷ [])).0
      (remove_packet 1 (subscription ∷ [])).1
remove_packet_lem_example = remove_packet_lem 1 (subscription ∷ [])

store_lem_example :
    (identifier_in_store 7 (insert_identifier 5 (3 ∷ []))
      ≡ (if 5 == 7 then true else identifier_in_store 7 (3 ∷ [])))
    × (identifier_in_store 7 (remove_identifier 5 (3 ∷ []))
        ≡ (if 5 == 7 then false else identifier_in_store 7 (3 ∷ [])))
    × IsDistinct (remove_identifier 5 (3 ∷ []))
unfolding identifier_in_store
store_lem_example = store_lem 5 7 (3 ∷ []) (refl, tt)

-- A client that has received the fixed header `first ∷ second ∷ []` and the body `body`.
abbrev client_with : PacketType → ℕ → List ℕ → List ℕ → Client ℕ
client_with t flags header body = record client {
  receive_packet = record {
    buffer_size = 16;
    buffer = some (header ++ (body ++ zeros (14 - length body)));
    in_ptr = 2 + length body;
    out_ptr = 2;
    packet_type = t;
    flags = flags;
    remaining_length = length body;
    bytes_consumed = 0;
  };
}

-- A PUBLISH packet of quality of service 2 with the topic "a", the identifier 9 and no payload.
abbrev published : Client ℕ
published = client_with publish 4 (0x34 ∷ 5 ∷ []) (0 ∷ 1 ∷ 97 ∷ 0 ∷ 9 ∷ [])

published-Handling : Handling circle published (0 ∷ 1 ∷ 97 ∷ 0 ∷ 9 ∷ [])
published-Handling = record {
  valid = received-IsValid circle client published.receive_packet client-IsValid usable;
  up = refl;
  holding = record {
    behind = zeros 9;
    unread = record { front = 0x34 ∷ 5 ∷ []; memory = refl; pointer = refl; left = refl };
    usable = usable;
    inside = omega arith;
  };
}
  where
    usable : IsUsable 4 published.receive_packet
    usable = record {
      buf = 0x34 ∷ 5 ∷ ((0 ∷ 1 ∷ 97 ∷ 0 ∷ 9 ∷ []) ++ zeros 9);
      memory = refl;
      bytes = (
        omega arith,
        (
          omega arith,
          (omega arith, (omega arith, (omega arith, (omega arith, (omega arith, zeros-bytes 9))))),
        ),
      );
      size = refl;
      received = omega arith;
      room = omega arith;
      positive = omega arith;
      range = omega arith;
    }

dispatch-IsValid_example : Holds (IsValid circle) (dispatch circle publish published)
unfolding basic_checks
dispatch-IsValid_example =
    dispatch-IsValid circle circle-IsFriendly publish published (0 ∷ 1 ∷ 97 ∷ 0 ∷ 9 ∷ [])
      published-Handling refl refl (inr (omega arith))

-- A PUBLISH packet of quality of service 1 with the topic "abc" that ends behind its topic.
abbrev truncated : Client ℕ
truncated = client_with publish 2 (0x32 ∷ 5 ∷ []) (0 ∷ 3 ∷ 97 ∷ 98 ∷ 99 ∷ [])

truncated-Handling : Handling circle truncated (0 ∷ 3 ∷ 97 ∷ 98 ∷ 99 ∷ [])
truncated-Handling = record {
  valid = received-IsValid circle client truncated.receive_packet client-IsValid usable;
  up = refl;
  holding = record {
    behind = zeros 9;
    unread = record { front = 0x32 ∷ 5 ∷ []; memory = refl; pointer = refl; left = refl };
    usable = usable;
    inside = omega arith;
  };
}
  where
    usable : IsUsable 4 truncated.receive_packet
    usable = record {
      buf = 0x32 ∷ 5 ∷ ((0 ∷ 3 ∷ 97 ∷ 98 ∷ 99 ∷ []) ++ zeros 9);
      memory = refl;
      bytes = (
        omega arith,
        (
          omega arith,
          (omega arith, (omega arith, (omega arith, (omega arith, (omega arith, zeros-bytes 9))))),
        ),
      );
      size = refl;
      received = omega arith;
      room = omega arith;
      positive = omega arith;
      range = omega arith;
    }

handle_publish_short_example : handle_publish circle truncated ≡ none
handle_publish_short_example =
    handle_publish_short circle truncated (97 ∷ 98 ∷ 99 ∷ []) [] truncated-Handling
      (omega arith, (omega arith, (omega arith, tt))) (omega arith) (omega arith)
      (λ e. absurd (omega arith)) (omega arith)

abbrev type_in : Option (ReceiveStatus × ReceivePacket × ℕ) → PacketType
type_in none = unknown
type_in (some (s, q, w)) = q.packet_type

-- The next packet is a PINGRESP packet.
client-IsPolite : IsPolite circle client
unfolding receive after_receive store_received parse decode_length basic_checks copy_in type_of_code
client-IsPolite q w e r =
    let t : ping_resp ≡ q.packet_type = ap type_in e in
    subst (λ (k : PacketType). IsIdentified k q.flags r.body) t tt

run_round-IsValid_example : Holds (IsValid circle) (run_round circle 1 4 client)
run_round-IsValid_example =
    run_round-IsValid circle circle-IsFriendly 1 4 client (client-IsPolite, (λ d e. tt))
      client-IsValid

abbrev idle_client : Client ℕ
idle_client = record client {
  status = disconnected;
  socket_open = false;
  timer_running = false;
  queue = [];
  store = [];
}

abbrev options : ConnectOptions
options = record {
  use_ssl = true;
  host = 104 ∷ [];
  port = 8883;
  client_identifier = none;
  username = some (117 ∷ []);
  password = some (112 ∷ []);
  keep_alive = 60;
  clean_session = true;
  will_topic = some (119 ∷ []);
  will_qos = 1;
  will_retain = false;
  will_payload = 120 ∷ [];
}

options-IsWritable : IsWritable options
options-IsWritable = record {
  identifier = tt;
  user = omega arith;
  password = omega arith;
  topic = omega arith;
  payload = omega arith;
  qos = omega arith;
}

idle_client-IsValid : IsValid circle idle_client
idle_client-IsValid = record {
  socket = refl;
  idle = inr (refl, refl);
  timer = inl refl;
  waiting = inl refl;
  size = client-IsValid.size;
  next_range = client-IsValid.next_range;
  next_nonzero = inl refl;
  queued = tt;
  usable = client-IsValid.usable;
}

abbrev some_actions : List Action
some_actions =
    connect_with options
    ∷ subscribe_with (97 ∷ []) 1
    ∷ publish_with (97 ∷ []) (98 ∷ []) 2 true
    ∷ task_round 0 4
    ∷ unsubscribe_with (97 ∷ [])
    ∷ disconnect_with false
    ∷ []

perform_all-IsValid_example : Holds (IsValid circle) (perform_all circle some_actions idle_client)
perform_all-IsValid_example =
    perform_all-IsValid circle some_actions idle_client circle-IsFriendly (λ w. omega arith)
      (
        (options-IsWritable, refl),
        λ c e. (
          (omega arith, omega arith),
          λ c e. (
            (omega arith, omega arith, omega arith),
            λ c e. (tt, λ c e. (omega arith, λ c e. (tt, λ c e. tt))),
          ),
        ),
      )
      idle_client-IsValid

-- The timer seems to run.
abbrev unset : Unset
unset = record {
  keep_alive_seconds = 0;
  timer_running = true;
  timer_elapses_at = 7;
  next_packet_identifier = 65535;
}

connect_to-create_example :
    Holds
      (λ c. Holds (IsUsed circle) (connect_to circle options c))
      (create circle unset 128 1 16 1)
connect_to-create_example =
    connect_to-create circle circle-IsFriendly options unset 128 1 16 1 (zeros 132) (omega arith)
      (omega arith) (omega arith) (omega arith) (omega arith) (omega arith) refl (length-zeros 132)
      (zeros-bytes 132) options-IsWritable (λ w. omega arith) (λ reason d f. inr f)
