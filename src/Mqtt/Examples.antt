-- ===== src/Mqtt/Examples.antt =====
-- The theorems on packets at concrete packets: a PUBLISH packet with the topic "a" and the payload "b".
use circle_stdlib.Common.{
  ℕ, zero, suc, ◌≡◌, refl, ap, subst, ◌≤◌, inr, false, List, [], ◌∷◌, ◌++◌, none, some, length, All,
  Holds, arith, ltb, if◌then◌else◌, copy_in,
}
use circle_stdlib.Common.Int.{ℤ, pos}
use circle_stdlib.Mqtt.{publish, type_code}
use circle_stdlib.Mqtt.SendPacket.{
  SendPacket, encode_length, prepare, send, insert_header, append_string, put,
}
use circle_stdlib.Mqtt.SendPacket.Body.{Contains, Appended, word, field_bytes, append, append_lem}
use circle_stdlib.Mqtt.SendPacket.Wire.{length_field, Prepared, encode_length_lem, prepare_lem}
use circle_stdlib.Mqtt.SendPacket.Sendable.{IsSendable, SendKeeps, send-IsSendable}
use circle_stdlib.Mqtt.ReceivePacket.{
  ReceivePacket, packet_ok, packet_invalid, Received, failed, stored, parse, receive, complete,
  basic_checks, get_string,
}
use circle_stdlib.Mqtt.ReceivePacket.Length.{IsByte}
use circle_stdlib.Mqtt.ReceivePacket.Frames.{
  at_body, Accepted, Waits, parse-frame, parse_partial, parse_Accepted,
}
use circle_stdlib.Mqtt.ReceivePacket.Completion.{Completed, complete_lem}
use circle_stdlib.Mqtt.ReceivePacket.Reads.{moved}
use circle_stdlib.Mqtt.ReceivePacket.Usable.{IsUsable, IsSocket, Holding, Answer, receive-Answer}
use circle_stdlib.Mqtt.RoundTrip.{parse-prepare, get_string-append_string}

abbrev zeros : ℕ → List ℕ
zeros zero = []
zeros (suc n) = 0 ∷ zeros n

abbrev body : List ℕ
body = 0 ∷ 1 ∷ 97 ∷ 98 ∷ []

abbrev outgoing : SendPacket
outgoing = record {
  packet_type = publish;
  max_packet_size = 12;
  error = false;
  buffer = some (0 ∷ 0 ∷ 0 ∷ 0 ∷ 0 ∷ 0 ∷ 1 ∷ 97 ∷ 98 ∷ 0 ∷ 0 ∷ 0 ∷ []);
  buf_ptr = 9;
  flags = 0;
  send_tries = 4;
  scheduled_time = 0;
  qos = 0;
  packet_identifier = 0;
}

outgoing-Contains : Contains outgoing body
outgoing-Contains = record {
  front = zeros 5;
  back = zeros 3;
  no_error = refl;
  memory = refl;
  front_size = refl;
  pointer = refl;
  size = refl;
  in_range = omega arith;
}

outgoing-IsSendable : IsSendable outgoing
outgoing-IsSendable = record {
  flags_fit = omega arith;
  size_fits = omega arith;
  state = inr (body, outgoing-Contains);
}

encode_length_lem_example :
    encode_length 4 300 ≡ (if ltb 300 268435456 then some (length_field 300) else none)
encode_length_lem_example = encode_length_lem 300

prepare_lem_example : Holds (Prepared outgoing body) (prepare outgoing)
prepare_lem_example =
    prepare_lem outgoing body outgoing-Contains (omega arith) (omega arith) (omega arith)

append_lem_example :
    Holds (Appended outgoing body (field_bytes (word 7))) (append outgoing (word 7))
append_lem_example = append_lem outgoing body (word 7) outgoing-Contains (omega arith)

abbrev accept_all : ℕ → List ℕ → ℤ × ℕ
accept_all w bytes = (pos (length bytes), w)

send-IsSendable_example : Holds (SendKeeps ℕ outgoing) (send accept_all outgoing 0)
send-IsSendable_example = send-IsSendable accept_all outgoing 0 outgoing-IsSendable

abbrev wire : List ℕ
wire = 0x30 ∷ 4 ∷ 0 ∷ 1 ∷ 97 ∷ 98 ∷ []

-- The frame has arrived, and the first byte of another one.
abbrev incoming : ReceivePacket
incoming = record {
  buffer_size = 9;
  buffer = some (wire ++ (0xd0 ∷ 0 ∷ 0 ∷ []));
  in_ptr = 7;
  out_ptr = 0;
  packet_type = publish;
  flags = 0;
  remaining_length = 0;
  bytes_consumed = 0;
}

incoming-IsUsable : IsUsable 2 incoming
incoming-IsUsable = record {
  buf = wire ++ (0xd0 ∷ 0 ∷ 0 ∷ []);
  memory = refl;
  bytes = (
    omega arith,
    (
      omega arith,
      (
        omega arith,
        (
          omega arith,
          (omega arith, (omega arith, (omega arith, (omega arith, (omega arith, tt))))),
        ),
      ),
    ),
  );
  size = refl;
  received = omega arith;
  room = omega arith;
  positive = omega arith;
  range = omega arith;
}

parse-frame_example :
    parse incoming
    ≡ some (
      if basic_checks publish 0 4 then packet_ok else packet_invalid,
      at_body incoming publish 0 body,
    )
unfolding type_code
parse-frame_example =
    parse-frame incoming publish 0 body (0xd0 ∷ 0 ∷ 0 ∷ []) refl (omega arith) (omega arith)
      (omega arith)

parse_partial_example :
    Holds (Waits (record incoming { in_ptr = 4 })) (parse (record incoming { in_ptr = 4 }))
unfolding type_code
parse_partial_example =
    parse_partial (record incoming { in_ptr = 4 }) publish 0 body (0x30 ∷ 4 ∷ 0 ∷ 1 ∷ [])
      (97 ∷ 98 ∷ []) (97 ∷ 98 ∷ 0xd0 ∷ 0 ∷ 0 ∷ []) refl refl refl (omega arith) (omega arith)

parse_Accepted_example :
    Accepted (wire ++ (0xd0 ∷ 0 ∷ 0 ∷ [])) incoming (at_body incoming publish 0 body)
unfolding basic_checks incoming-IsUsable
parse_Accepted_example =
    parse_Accepted incoming (at_body incoming publish 0 body) 0x30
      (4 ∷ 0 ∷ 1 ∷ 97 ∷ 98 ∷ 0xd0 ∷ 0 ∷ 0 ∷ []) refl incoming-IsUsable.bytes (omega arith)
      parse-frame_example

parse-prepare_example :
    parse incoming
    ≡ some (
      if basic_checks publish 0 4 then packet_ok else packet_invalid,
      at_body incoming publish 0 body,
    )
unfolding prepare encode_length insert_header type_code copy_in
parse-prepare_example =
    parse-prepare outgoing
      (record outgoing {
        buffer = some (0 ∷ 0 ∷ 0 ∷ 0x30 ∷ 4 ∷ 0 ∷ 1 ∷ 97 ∷ 98 ∷ 0 ∷ 0 ∷ 0 ∷ []);
        send_tries = 3;
      })
      body wire incoming (0xd0 ∷ 0 ∷ 0 ∷ []) outgoing-Contains (omega arith) (omega arith)
      (omega arith) refl refl (omega arith)

-- The packet whose body is to be read.
abbrev accepted : ReceivePacket
accepted = at_body incoming publish 0 body

accepted-Holding : Holding 2 accepted body
accepted-Holding = record {
  behind = 0xd0 ∷ 0 ∷ 0 ∷ [];
  unread = record { front = 0x30 ∷ 4 ∷ []; memory = refl; pointer = refl; left = refl };
  usable = record {
    buf = incoming-IsUsable.buf;
    memory = incoming-IsUsable.memory;
    bytes = incoming-IsUsable.bytes;
    size = incoming-IsUsable.size;
    received = incoming-IsUsable.received;
    room = incoming-IsUsable.room;
    positive = incoming-IsUsable.positive;
    range = incoming-IsUsable.range;
  };
  inside = omega arith;
}

-- The packet with another string of one character behind its body.
abbrev appended : SendPacket
appended = record outgoing {
  buffer = some (0 ∷ 0 ∷ 0 ∷ 0 ∷ 0 ∷ 0 ∷ 1 ∷ 97 ∷ 98 ∷ 0 ∷ 1 ∷ 97 ∷ []);
  buf_ptr = 12;
}

appended-Contains : Contains appended (body ++ (0 ∷ 1 ∷ 97 ∷ []))
appended-Contains = record {
  front = zeros 5;
  back = [];
  no_error = refl;
  memory = refl;
  front_size = refl;
  pointer = refl;
  size = refl;
  in_range = omega arith;
}

outgoing-appended : append_string outgoing (97 ∷ []) ≡ some appended
unfolding append_string put copy_in
outgoing-appended = refl

get_string-append_string_example : get_string accepted 16 ≡ some (97 ∷ [], moved accepted 3)
get_string-append_string_example =
    get_string-append_string outgoing appended body (97 ∷ []) (0 ∷ 1 ∷ 97 ∷ []) accepted 16
      (98 ∷ []) (0xd0 ∷ 0 ∷ 0 ∷ []) outgoing-Contains (omega arith) outgoing-appended
      appended-Contains
      (record { front = 0x30 ∷ 4 ∷ []; memory = refl; pointer = refl; left = refl }) (omega arith)
      (omega arith, tt) (omega arith)

complete_lem_example :
    Holds
      (Completed (record accepted { out_ptr = 6 }) (0xd0 ∷ []) 9)
      (complete (record accepted { out_ptr = 6 }))
complete_lem_example =
    complete_lem (record accepted { out_ptr = 6 }) wire (0xd0 ∷ []) (0 ∷ 0 ∷ []) refl refl refl

abbrev stored_bytes : Received → List ℕ
stored_bytes failed = []
stored_bytes (stored bytes) = bytes

-- A socket on which the second byte of the next packet arrives.
abbrev last_byte : ℕ → ℕ → Received × ℕ
last_byte w n = (stored (0 ∷ []), w)

last_byte-IsSocket : IsSocket ℕ 2 last_byte
last_byte-IsSocket w bytes e =
    subst (λ bs. All IsByte bs × (length bs ≤ 2)) (ap stored_bytes e)
      ((omega arith, tt), omega arith)

receive-Answer_example : Holds (λ r. Answer 2 r.0 r.1) (receive 2 last_byte incoming 0)
receive-Answer_example = receive-Answer 2 last_byte incoming 0 last_byte-IsSocket incoming-IsUsable
