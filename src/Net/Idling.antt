-- ===== src/Net/Idling.antt =====
-- The rounds of the loop of CAdaptedSocket::ReceiveTimeout that find no data.
use circle_stdlib.Common.{
  ℕ, zero, suc, ◌-◌, ◌+◌, ◌%◌, ◌<◌, ◌≡◌, refl, ap, Bool, true, false, [], ◌∷◌, length, leb, arith,
  if◌then◌else◌,
}
use circle_stdlib.Mqtt.{u32_mod}
use circle_stdlib.Mqtt.ReceivePacket.{Received, failed, stored}
use circle_stdlib.Net.{NetSubSystem}
use circle_stdlib.Net.Adapter.{Waited, arrived, closed, late, waiting, wait_bytes}

module _ (C : NetSubSystem) (socket : C.Socket) (dont_wait : Bool) where
  open C use {World, Socket, frame_size, socket_receive, yield_task, get_ticks}

  abbrev pub received : World → Received × World
  received w = socket_receive w socket frame_size dont_wait

  -- Rounds that find no data, and after which the task yields, lead from one world to the other.
  pub data Idle : World → World → Type 0 where
    no_round : (w : World) → Idle w w
    idle_round :
        (w w' : World)
        → (received w).0 ≡ stored []
        → Idle (get_ticks (yield_task (received w).1)).1 w'
        → Idle w w'

  -- Behind such rounds, what the loop ends with is what the next call of `Receive` has given.
  abbrev pub Came : World → Waited C → Type 0
  Came w (arrived bytes w') =
      (v : World) × Idle w v × (received v ≡ (stored bytes, w')) × (0 < length bytes)
  Came w (closed w') = (v : World) × Idle w v × (received v ≡ (failed, w'))
  Came w (late w') = Idle w w'
  Came w (waiting w') = Unit

  earlier :
      (w : World) (x : Waited C)
      → (received w).0 ≡ stored []
      → Came (get_ticks (yield_task (received w).1)).1 x
      → Came w x
  earlier w (arrived bytes w') e (v, i, r, l) = (v, idle_round w v e i, r, l)
  earlier w (closed w') e (v, i, r) = (v, idle_round w v e i, r)
  earlier w (late w') e i = idle_round w w' e i
  earlier w (waiting w') e u = tt

  either-Came :
      (b : Bool) (w : World) (x y : Waited C) → Came w x → Came w y → Came w (if b then x else y)
  either-Came true w x y p q = p
  either-Came false w x y p q = q

  round-Came :
      (fuel start timeout : ℕ) (w : World) (r : Received)
      → (received w).0 ≡ r
      → Came (get_ticks (yield_task (received w).1)).1 (
          wait_bytes C fuel socket dont_wait start timeout
            (get_ticks (yield_task (received w).1)).1)
      → Came w (wait_bytes C (suc fuel) socket dont_wait start timeout w)
  unfolding wait_bytes
  round-Came fuel start timeout w failed e rest =
      rw (wait_bytes, e) (w, no_round w, ap (λ x. (x, (received w).1)) e)
  round-Came fuel start timeout w (stored (b ∷ bs)) e rest =
      rw (wait_bytes, e) (w, no_round w, ap (λ x. (x, (received w).1)) e, omega arith)
  round-Came fuel start timeout w (stored []) e rest =
      let w₂ = get_ticks (yield_task (received w).1) in
      rw (wait_bytes, e)
        (either-Came (leb timeout ((w₂.0 + u32_mod - start) % u32_mod)) w (late w₂.1)
          (wait_bytes C fuel socket dont_wait start timeout w₂.1)
          (idle_round w w₂.1 e (no_round w₂.1))
          (earlier w (wait_bytes C fuel socket dont_wait start timeout w₂.1) e rest))

  pub wait_bytes-Came :
      (fuel start timeout : ℕ) (w : World)
      → Came w (wait_bytes C fuel socket dont_wait start timeout w)
  unfolding wait_bytes
  wait_bytes-Came zero start timeout w = tt
  wait_bytes-Came (suc fuel) start timeout w =
      round-Came fuel start timeout w (received w).0 refl
        (wait_bytes-Came fuel start timeout (get_ticks (yield_task (received w).1)).1)
