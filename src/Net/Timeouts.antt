-- ===== src/Net/Timeouts.antt =====
-- CAdaptedSocket::ReceiveTimeout: what it returns, and when.
use circle_stdlib.Common.{
  ℕ, ◌+◌, ◌*◌, ◌%◌, ◌≤◌, ◌<◌, ◌≡◌, refl, sym, subst, Bool, false, not, List, [], Option, none, some,
  length, take, drop, le→leb, ◌==◌, arith, Holds, Holds->>=, Holds-result,
}
use native.Mathlib.Nat.{add-mul, div-mul-le_self}
use circle_stdlib.Mqtt.{u32_mod}
use circle_stdlib.Net.{timed_out, Result, ok, err, NetSubSystem}
use circle_stdlib.Net.Adapter.{
  AdaptedSocket, Net, object, set_object, take_bytes, refill, hand_over, Waited, arrived, closed,
  late, waiting, wait_bytes, end_wait, receive_timeout,
}
use circle_stdlib.Net.Stream.{Pending, Taken, available_lem, take_bytes_lem}
use circle_stdlib.Net.Store.{set_object_lem}
use circle_stdlib.Mqtt.ReceivePacket.{Received, failed, stored}
use circle_stdlib.Net.Idling.{Idle, received, Came, wait_bytes-Came}
use circle_stdlib.Net.Waiting.{Clock, Fits, ticks, WaitedFor, wait_bytes-WaitedFor}

module _ (C : NetSubSystem) (clock : Clock C) where
  open C use {World, Socket, frame_size, socket_receive, get_ticks, msec2hz}

  -- What a call of `Receive` has given, as the result of `ReceiveTimeout`: the first `n` bytes, and the
  -- others are kept for the next call; nothing at the end of the connection.
  abbrev pub Passed : ℕ → ℕ → Received → World → List ℕ → Net C → Type 0
  Passed p n failed w bytes s = (bytes ≡ []) × (s.world ≡ w)
  Passed p n (stored frame) w bytes s =
      (0 < length frame)
      × (bytes ≡ take n frame)
      × (s.world ≡ w)
      × ((a : AdaptedSocket Socket) × (object C p s ≡ some a) × Pending C a (drop n frame))

  -- After calls of `Receive` that find no data, the result of the next one, or an error at `limit` ticks
  -- or later.
  abbrev pub Timely : Socket → Bool → World → ℕ → ℕ → ℕ → Option (Result (List ℕ)) × Net C → Type 0
  Timely socket dont_wait w limit p n (none, s) = ⊥
  Timely socket dont_wait w limit p n (some (ok bytes), s) =
      (v : World) × Idle C socket dont_wait w v
      × Passed p n (received C socket dont_wait v).0 (received C socket dont_wait v).1 bytes s
  Timely socket dont_wait w limit p n (some (err e), s) =
      (e ≡ timed_out) × (limit ≤ ticks C clock s.world) × Idle C socket dont_wait w s.world

  -- The object's bytes are handed over.
  handed-Passed :
      (p n : ℕ) (s : Net C) (a a' : AdaptedSocket Socket) (frame : List ℕ)
      → 0 < length frame
      → object C p s ≡ some a
      → Pending C a' frame
      → Holds
          (λ r. (bytes : List ℕ) × (r.0 ≡ ok bytes) × Passed p n (stored frame) s.world bytes r.1)
          (hand_over C p n a' s)
  unfolding hand_over
  handed-Passed p n s a a' frame l e h =
      let (r, known, t) =
        Holds-result (Taken C a' (take n frame) (drop n frame)) (take_bytes C n a')
          (take_bytes_lem C n a' frame h) in
      let (s', set, q) =
        Holds-result (λ x. (object C p x ≡ some r.1) × (x.world ≡ s.world))
          (set_object C p (some r.1) s) (set_object_lem C p s a r.1 e) in
      rw (known, set) (r.0, refl, (l, t.0, q.1, (r.1, q.0, t.1)))

  end_wait-Timely :
      (socket : Socket) (dont_wait : Bool) (start : World) (limit p n : ℕ) (s : Net C)
      (a : AdaptedSocket Socket) (r : Waited C)
      → C.is_null a.socket ≡ false
      → object C p s ≡ some a
      → frame_size < u32_mod
      → WaitedFor C clock limit r
      → Came C socket dont_wait start r
      → Holds (Timely socket dont_wait start limit p n) (end_wait C p n a s r)
  unfolding end_wait refill object
  end_wait-Timely socket dont_wait start limit p n s a (closed w) alive e small h (v, i, r) =
      (v, i, rw r (refl, refl))
  end_wait-Timely socket dont_wait start limit p n s a (late w) alive e small h i = (refl, h, i)
  end_wait-Timely socket dont_wait start limit p n s a (waiting w) alive e small h i = h
  end_wait-Timely socket dont_wait start limit p n s a (arrived bytes w) alive e small h
        (v, i, r, l) =
      rw (le→leb (length bytes) frame_size h) (
        Holds->>= _ (Timely socket dont_wait start limit p n)
          (hand_over C p n (record a { rx = bytes; valid = length bytes; used = 0 })
            (record s { world = w }))
          _
          (handed-Passed p n (record s { world = w }) a
            (record a { rx = bytes; valid = length bytes; used = 0 }) bytes l e
            (record {
              exists = alive;
              rest = refl;
              whole = refl;
              inside = omega arith;
              small = omega (arith, h, small);
            }))
          (λ q (given, known, passed). rw known (v, i, rw r passed)))

  -- `ReceiveTimeout` of an object that has a CSocket and no bytes left, for less than 2 ^ 31 ticks and
  -- frames that fit into the buffer: it ends, after as many rounds as the timeout has cycles and one more
  -- at most, and without a fault. It calls `Receive` until a call gives data or fails. Of the data it
  -- hands over the first bytes, as many as fit into the buffer, and keeps the others for the next call;
  -- if the call fails, it hands over nothing. Or it reports that the time is over, and then it is, and no
  -- call of `Receive` has found any data.
  pub receive_timeout-Timely :
      (fuel p n timeout : ℕ) (s : Net C) (a : AdaptedSocket Socket)
      → object C p s ≡ some a
      → Pending C a []
      → ((w : World) (dont_wait : Bool)
          → Fits frame_size (socket_receive w a.socket frame_size dont_wait).0)
      → frame_size < u32_mod
      → msec2hz timeout < 2147483648
      → msec2hz timeout * clock.rate < fuel
      → Holds
          (Timely a.socket
            (not (timeout == 0))
            (get_ticks s.world).1
            (ticks C clock s.world + msec2hz timeout)
            p
            n)
          (receive_timeout C fuel p n timeout s)
  unfolding receive_timeout
  receive_timeout-Timely fuel p n timeout s a e h fit small short enough =
      rw (e, available_lem C a [] h, h.exists)
        (end_wait-Timely a.socket (not (timeout == 0)) (get_ticks s.world).1 limit p n s a
          (wait_bytes C fuel a.socket (not (timeout == 0)) (get_ticks s.world).0 (msec2hz timeout)
            (get_ticks s.world).1)
          h.exists e small
          (subst
            (λ x. WaitedFor C clock limit (
              wait_bytes C fuel a.socket (not (timeout == 0)) x (msec2hz timeout)
                (get_ticks s.world).1))
            (sym (clock.shows s.world)) waited)
          (wait_bytes-Came C a.socket (not (timeout == 0)) fuel (get_ticks s.world).0
            (msec2hz timeout) (get_ticks s.world).1))
    where
      limit : ℕ
      limit = ticks C clock s.world + msec2hz timeout

      waited : WaitedFor C clock limit (
          wait_bytes C fuel a.socket
            (not (timeout == 0))
            (ticks C clock s.world % u32_mod)
            (msec2hz timeout)
            (get_ticks s.world).1)
      waited =
          wait_bytes-WaitedFor C clock fuel a.socket (not (timeout == 0)) (ticks C clock s.world)
            (msec2hz timeout) s.world (λ w. fit w (not (timeout == 0))) short (omega arith)
            (omega arith)
            (omega (
              arith,
              enough,
              div-mul-le_self (clock.cycles s.world) clock.rate,
              add-mul (ticks C clock s.world) (msec2hz timeout) clock.rate,
            ))
            (omega (arith, enough))
