-- ===== src/Net/Examples.antt =====
-- The network code for concrete connections: examples and tests.
use circle_stdlib.Common.{
  ℕ, suc, ◌/◌, ◌%◌, ◌≡◌, refl, true, false, List, [], ◌∷◌, some, length, take, length-take, arith,
  Holds,
}
use circle_stdlib.Common.Int.{pos, negsuc}
use circle_stdlib.Mqtt.{u32_mod}
use circle_stdlib.Mqtt.ReceivePacket.{Received, failed, stored}
use circle_stdlib.Net.{ok, NetSubSystem}
use circle_stdlib.Net.Adapter.{AdaptedSocket, Net, object, get_socket, receive_timeout}
use circle_stdlib.Net.Contexts.{Context, wanted, net_accept, net_free}
use circle_stdlib.Net.Stream.{Pending}
use circle_stdlib.Net.Reads.{Delivered, reads, reads-join}
use circle_stdlib.Net.Waiting.{Clock, Fits}
use circle_stdlib.Net.Timeouts.{Timely, receive_timeout-Timely}
use circle_stdlib.Net.Handles.{IsConsistent}
use circle_stdlib.Net.Calls.{
  Call, call_connect, call_bind, call_set_block, call_recv, call_recv_timeout, call_send, call_free,
}
use circle_stdlib.Net.Runs.{AllGiven, run_calls, run_calls-IsConsistent}
use circle_stdlib.Net.Accepting.{IsDangling, net_accept-IsDangling}

-- The frames that are still to come, and the clock.
abbrev Stub : Type 0
Stub = List (List ℕ) × ℕ

-- A frame has four bytes at most.
abbrev next_frame : Stub → Received × Stub
next_frame ([], t) = (failed, ([], t))
next_frame (f ∷ fs, t) = (stored (take 4 f), (fs, t))

abbrev pub stub : NetSubSystem
stub = record {
  World = Stub;
  Socket = ℕ;
  frame_size = 4;
  modulus = 4294967296;
  has_memory = λ w. (true, w);
  is_null = λ s. false;
  new_socket = λ w. (0, w);
  delete_socket = λ w s. w;
  socket_connect = λ w s ip port. (pos 0, w);
  socket_bind = λ w s port. (pos 0, w);
  socket_listen = λ w s. (pos 0, w);
  socket_accept = λ w s. (some (1, 42), w);
  socket_receive = λ w s n dont_wait. next_frame w;
  socket_send = λ w s bytes. (pos (length bytes), w);
  resolve = λ w host. (some 42, w);
  yield_task = λ w. (w.0, suc w.1);
  get_ticks = λ w. (w.1 / 2 % u32_mod, w);
  msec2hz = λ n. n / 10;
}

next_frame-Fits : (w : Stub) → Fits 4 (next_frame w).0
next_frame-Fits ([], t) = tt
next_frame-Fits (f ∷ fs, t) = omega (arith, length-take 4 f)

next_frame-clock : (w : Stub) → (next_frame w).1.1 ≡ w.1
next_frame-clock ([], t) = refl
next_frame-clock (f ∷ fs, t) = refl

abbrev stub_clock : Clock stub
stub_clock = record {
  cycles = λ w. w.1;
  rate = 2;
  counts = omega arith;
  shows = λ w. refl;
  kept = λ w. omega arith;
  kept_receive = λ w s n d. omega (arith, next_frame-clock w);
  runs = λ w. omega arith;
  often = λ w s n d. omega (arith, next_frame-clock w);
}

-- One socket, and two contexts, one of which has it.
abbrev pub one_object : AdaptedSocket ℕ
one_object = record { socket = 0; handle = 0; rx = []; valid = 0; used = 0; block = true }

abbrev pub one_socket : List (List ℕ) → Net stub
one_socket fs = record { table = some 0 ∷ []; objects = some one_object ∷ []; world = (fs, 0) }

one_object-Pending : Pending stub one_object []
one_object-Pending = record {
  rest = refl;
  whole = refl;
  inside = omega arith;
  small = omega arith;
  exists = refl;
}

reads-join_example :
    Holds
      (Delivered stub []
        ((7 ∷ 8 ∷ 9 ∷ []) ∷ [] ∷ (5 ∷ []) ∷ [])
        (2 ∷ 2 ∷ 2 ∷ 2 ∷ 2 ∷ 2 ∷ 2 ∷ 2 ∷ []))
      (reads stub 0
        (2 ∷ 2 ∷ 2 ∷ 2 ∷ 2 ∷ 2 ∷ 2 ∷ 2 ∷ [])
        (one_socket ((7 ∷ 8 ∷ 9 ∷ []) ∷ [] ∷ (5 ∷ []) ∷ [])))
unfolding object
reads-join_example =
    reads-join stub 0 (2 ∷ 2 ∷ 2 ∷ 2 ∷ 2 ∷ 2 ∷ 2 ∷ 2 ∷ [])
      (one_socket ((7 ∷ 8 ∷ 9 ∷ []) ∷ [] ∷ (5 ∷ []) ∷ [])) []
      ((7 ∷ 8 ∷ 9 ∷ []) ∷ [] ∷ (5 ∷ []) ∷ []) 0 true
      (
        omega arith,
        (
          omega arith,
          (
            omega arith,
            (omega arith, (omega arith, (omega arith, (omega arith, (omega arith, tt))))),
          ),
        ),
      )
      (omega arith)
      (record {
        adapted = one_object;
        held = refl;
        pending = one_object-Pending;
        the_socket = refl;
        the_mode = refl;
        gives = (refl, omega arith, (refl, (refl, omega arith, refl)));
      })

-- Three rounds without data, and two ticks to wait.
receive_timeout-Timely_example :
    Holds
      (Timely stub stub_clock 0 true (one_socket ([] ∷ [] ∷ [] ∷ [] ∷ [] ∷ [])).world 2 0 10)
      (receive_timeout stub 5 0 10 20 (one_socket ([] ∷ [] ∷ [] ∷ [] ∷ [] ∷ [])))
unfolding object
receive_timeout-Timely_example =
    receive_timeout-Timely stub stub_clock 5 0 10 20 (one_socket ([] ∷ [] ∷ [] ∷ [] ∷ [] ∷ []))
      one_object refl one_object-Pending (λ w d. next_frame-Fits w) (omega arith) (omega arith)
      (omega arith)

-- No socket at all.
abbrev no_sockets : Net stub
no_sockets = record { table = []; objects = []; world = ((7 ∷ 8 ∷ 9 ∷ []) ∷ [] ∷ [], 0) }

no_sockets-IsConsistent : IsConsistent stub no_sockets
unfolding object
no_sockets-IsConsistent = record {
  in_table = λ p a e. cc;
  points = λ h p e. cc;
  sound = λ p a e. cc;
}

abbrev closed_context : Context
closed_context = record { fd = negsuc 0 }

-- `https` as a port is refused, `443` is not.
abbrev some_calls : List (ℕ × Call)
some_calls =
    (0, call_recv 2)
    ∷ (0, call_connect true (104 ∷ []) (52 ∷ 52 ∷ 51 ∷ []))
    ∷ (1, call_bind true false (104 ∷ []))
    ∷ (0, call_recv 2)
    ∷ (1, call_set_block false)
    ∷ (1, call_free)
    ∷ (0, call_recv 2)
    ∷ (0, call_send (1 ∷ []))
    ∷ (0, call_recv_timeout 4 20)
    ∷ (0, call_free)
    ∷ (0, call_free)
    ∷ []

run_calls-IsConsistent_example :
    Holds
      (λ r. IsConsistent stub r.1 × AllGiven stub r.0 r.1)
      (run_calls stub 5 some_calls (closed_context ∷ closed_context ∷ []) no_sockets)
run_calls-IsConsistent_example =
    run_calls-IsConsistent stub 5 some_calls (closed_context ∷ closed_context ∷ []) no_sockets
      (λ w s d. next_frame-Fits w) (λ w. refl) (omega arith)
      (
        omega arith,
        (
          omega arith,
          (
            omega arith,
            (
              omega arith,
              (
                omega arith,
                (
                  omega arith,
                  (omega arith, (omega arith, (omega arith, (omega arith, (omega arith, tt))))),
                ),
              ),
            ),
          ),
        ),
      )
      no_sockets-IsConsistent (tt, (tt, tt))

net_accept-IsDangling_example :
    Holds
      (λ r.
        (r.0 ≡ ok (wanted (some 4) 42))
        × Holds (λ q. IsDangling stub r.1.fd q.1) (net_free stub r.1 r.2))
      (net_accept stub (record { fd = pos 0 }) closed_context (some 4) (one_socket []))
unfolding object get_socket
net_accept-IsDangling_example =
    net_accept-IsDangling stub (record { fd = pos 0 }) closed_context (some 4) (one_socket []) 0
      one_object 1 42 ([], 0) ([], 0) refl refl refl refl refl refl
