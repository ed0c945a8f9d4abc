-- ===== src/Net/Waiting.antt =====
-- The loop of CAdaptedSocket::ReceiveTimeout against a clock.
use circle_stdlib.Common.{
  ℕ, zero, suc, ◌+◌, ◌-◌, ◌*◌, ◌/◌, ◌%◌, ◌≤◌, ◌<◌, ◌≡◌, refl, sym, ap, ◌∙◌, Bool, [], ◌∷◌, length,
  le→leb, gt→leb, dec_le, arith,
}
use native.Mathlib.Nat.{div-lt_iff_lt-mul, le-div_iff_mul-le, div-mul-le_self}
use circle_stdlib.Mqtt.{u32_mod}
use circle_stdlib.Mqtt.ReceivePacket.{Received, failed, stored}
use circle_stdlib.Net.{NetSubSystem}
use circle_stdlib.Net.Adapter.{Waited, arrived, closed, late, waiting, wait_bytes}

-- The time since the boot in cycles, `rate` of which are a tick: every round of the loop takes some time,
-- but not more than 2^31 ticks, and no call turns the clock back. `GetTicks` gives the ticks modulo 2^32.
pub record Clock (C : NetSubSystem) : Type 0 where
  pub cycles : C.World → ℕ
  pub rate : ℕ
  pub counts : 0 < rate
  pub shows : (w : C.World) → (C.get_ticks w).0 ≡ cycles w / rate % u32_mod
  pub kept : (w : C.World) → cycles w ≤ cycles (C.get_ticks w).1
  pub kept_receive :
      (w : C.World) (s : C.Socket) (n : ℕ) (dont_wait : Bool)
      → cycles w ≤ cycles (C.socket_receive w s n dont_wait).1
  pub runs : (w : C.World) → cycles w < cycles (C.yield_task w)
  pub often :
      (w : C.World) (s : C.Socket) (n : ℕ) (dont_wait : Bool)
      → cycles (C.yield_task (C.socket_receive (C.get_ticks w).1 s n dont_wait).1) / rate
        ≤ cycles w / rate + 2147483648

-- Not more bytes than the buffer has.
abbrev pub Fits : ℕ → Received → Type 0
Fits n failed = Unit
Fits n (stored bs) = length bs ≤ n

div_mono : (a b k : ℕ) → 0 < k → a ≤ b → a / k ≤ b / k
div_mono a b k pos h = (le-div_iff_mul-le pos).1 (omega (arith, h, div-mul-le_self a k))

-- The difference of two readings of the clock.
elapsed :
    (now start : ℕ)
    → start ≤ now
    → now < start + 4294967296
    → (now % 4294967296 + 4294967296 - start % 4294967296) % 4294967296 ≡ now - start
elapsed now start h l = omega arith

module _ (C : NetSubSystem) (clock : Clock C) where
  open C use {World, Socket, frame_size, socket_receive, yield_task, get_ticks, msec2hz}

  abbrev pub ticks : World → ℕ
  ticks w = clock.cycles w / clock.rate

  -- What the loop ends with: not with its fuel, and not too early.
  abbrev pub WaitedFor : ℕ → Waited C → Type 0
  WaitedFor limit (arrived bytes w) = length bytes ≤ frame_size
  WaitedFor limit (closed w) = Unit
  WaitedFor limit (late w) = limit ≤ ticks w
  WaitedFor limit (waiting w) = ⊥

  -- One round of the loop, from a reading of the clock in `w` on, with what the rounds behind it end with.
  round-WaitedFor :
      (fuel : ℕ) (socket : Socket) (dont_wait : Bool) (start timeout : ℕ) (w w₀ w₁ w₂ : World)
      (r : Received)
      → w₀ ≡ (get_ticks w).1
      → socket_receive w₀ socket frame_size dont_wait ≡ (r, w₁)
      → w₂ ≡ yield_task w₁
      → Fits frame_size r
      → timeout < 2147483648
      → start ≤ ticks w
      → ticks w ≤ start + timeout
      → (ticks w₂ < start + timeout
          → WaitedFor
              (start + timeout)
              (wait_bytes C fuel socket dont_wait (start % u32_mod) timeout (get_ticks w₂).1))
      → WaitedFor
          (start + timeout)
          (wait_bytes C (suc fuel) socket dont_wait (start % u32_mod) timeout w₀)
  unfolding wait_bytes
  round-WaitedFor fuel socket dont_wait start timeout w w₀ w₁ w₂ failed e₀ e₁ e₂ fit small from till
        rest =
      rw (wait_bytes, e₁) tt
  round-WaitedFor fuel socket dont_wait start timeout w w₀ w₁ w₂ (stored (b ∷ bs)) e₀ e₁ e₂ fit
        small from till rest =
      rw (wait_bytes, e₁) fit
  round-WaitedFor fuel socket dont_wait start timeout w w₀ w₁ w₂ (stored []) e₀ e₁ e₂ fit small from
        till rest =
      rw
        (
          wait_bytes,
          ap (λ x. x.0) e₁,
          ap (λ x. yield_task x.1) e₁ ∙ sym e₂,
          clock.shows w₂,
          elapsed (ticks w₂) start forward near,
        )
        (elim (dec_le timeout (ticks w₂ - start)) [
          | yes l ↦
              rw (le→leb timeout (ticks w₂ - start) l)
                (omega (arith, l, forward, div_mono _ _ clock.rate clock.counts (clock.kept w₂)))
          | no l ↦
              rw (gt→leb timeout (ticks w₂ - start) (omega (arith, l)))
                (rest (omega (arith, l, forward)))
        ])
    where
      same : clock.cycles w₁ ≡ clock.cycles (socket_receive w₀ socket frame_size dont_wait).1
      same = ap (λ x. clock.cycles x.1) (sym e₁)

      forward : start ≤ ticks w₂
      forward = rw e₂ (
          omega (
            arith,
            from,
            div_mono (clock.cycles w) (clock.cycles (yield_task w₁)) clock.rate clock.counts (
                omega (
                  arith,
                  clock.kept w,
                  ap clock.cycles e₀,
                  clock.kept_receive w₀ socket frame_size dont_wait,
                  same,
                  clock.runs w₁,
                )),
          ))

      near : ticks w₂ < start + 4294967296
      near =
          rw (e₂, ← ap (λ x. x.1) e₁, e₀)
            (omega (arith, till, small, clock.often w socket frame_size dont_wait))

  -- From a reading of the clock in `w` on.
  pub wait_bytes-WaitedFor :
      (fuel : ℕ) (socket : Socket) (dont_wait : Bool) (start timeout : ℕ) (w : World)
      → ((w' : World) → Fits frame_size (socket_receive w' socket frame_size dont_wait).0)
      → timeout < 2147483648
      → start ≤ ticks w
      → ticks w ≤ start + timeout
      → (start + timeout) * clock.rate < fuel + clock.cycles w
      → 1 ≤ fuel
      → WaitedFor
          (start + timeout)
          (wait_bytes C fuel socket dont_wait (start % u32_mod) timeout (get_ticks w).1)
  wait_bytes-WaitedFor zero socket dont_wait start timeout w fit small from till enough pos =
      absurd (omega arith)
  wait_bytes-WaitedFor (suc fuel) socket dont_wait start timeout w fit small from till enough pos =
      round-WaitedFor fuel socket dont_wait start timeout w w₀ w₁ w₂
        (socket_receive w₀ socket frame_size dont_wait).0 refl refl refl (fit w₀) small from till
        (λ early.
          let before : clock.cycles w₂ < (start + timeout) * clock.rate =
            (div-lt_iff_lt-mul clock.counts).0 early in
          wait_bytes-WaitedFor fuel socket dont_wait start timeout w₂ fit small
            (omega (
              arith,
              from,
              div_mono (clock.cycles w) (clock.cycles w₂) clock.rate clock.counts
                  (omega (arith, later)),
            ))
            (omega (arith, early)) (omega (arith, enough, later))
            (omega (arith, enough, later, before)))
    where
      w₀ : World
      w₀ = (get_ticks w).1

      w₁ : World
      w₁ = (socket_receive w₀ socket frame_size dont_wait).1

      w₂ : World
      w₂ = yield_task w₁

      later : clock.cycles w < clock.cycles w₂
      later =
          omega
            (arith, clock.kept w, clock.kept_receive w₀ socket frame_size dont_wait, clock.runs w₁)
