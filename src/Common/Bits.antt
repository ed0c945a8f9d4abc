-- ===== src/Common/Bits.antt =====
-- Bit operations on bytes as arithmetic, from tables that are checked by evaluation.
use Prim.Native.Nat.{ℕ, zero, suc, ◌+◌, ◌*◌, ◌/◌, ◌%◌, ◌<◌, bit_and, bit_or}
use mathlib.Core.Path.{◌≡◌, refl}
use mathlib.Core.Bool.{Bool, true, false}
use native.Mathlib.Omega.{arith}
use circle_stdlib.Common.Tests.{◌==◌, if◌then◌else◌}

module _ (f g : ℕ → ℕ) where
  agree_below : ℕ → Bool
  agree_below zero = true
  agree_below (suc n) = let rest = agree_below n in if f n == g n then rest else false

  agree_below_sound : (n : ℕ) → agree_below n ≡ true → (i : ℕ) → i < n → f i ≡ g i
  unfolding agree_below
  agree_below_sound zero e i h = absurd (omega arith)
  agree_below_sound (suc n) e i h = ground (arith, agree_below_sound n (ground arith) i)

-- `b & 0x7F` and `b & 0x80`
pub low_bits : (b : ℕ) → b < 256 → bit_and b 0x7f ≡ b % 128
unfolding agree_below
low_bits = agree_below_sound _ _ 256 refl

pub top_bit : (b : ℕ) → b < 256 → bit_and b 0x80 ≡ b / 128 * 128
unfolding agree_below
top_bit = agree_below_sound _ _ 256 refl

-- `b | 0x80` on seven bits
pub set_top_bit : (b : ℕ) → b < 128 → bit_or b 0x80 ≡ b + 128
unfolding agree_below
set_top_bit = agree_below_sound _ _ 128 refl

-- `b & 0x0F`
pub low_nibble : (b : ℕ) → b < 256 → bit_and b 0x0f ≡ b % 16
unfolding agree_below
low_nibble = agree_below_sound _ _ 256 refl

nibble_pair : (b : ℕ) → b < 256 → bit_or (b / 16 * 16) (b % 16) ≡ b
unfolding agree_below
nibble_pair = agree_below_sound _ _ 256 refl

-- `(hi << 4) | lo`
pub join_nibbles : (hi lo : ℕ) → hi < 16 → lo < 16 → bit_or (hi * 16) lo ≡ hi * 16 + lo
join_nibbles hi lo p q =
    let high : (hi * 16 + lo) / 16 * 16 ≡ hi * 16 = omega arith in
    let low : (hi * 16 + lo) % 16 ≡ lo = omega arith in
    rw (high, low) at (nibble_pair (hi * 16 + lo) (omega arith))

-- `f | 0x08` stays in four bits.
pub set_dup-lt : (f : ℕ) → f < 16 → bit_or f 8 < 16
unfolding agree_below
set_dup-lt f h = omega (arith, agree_below_sound (λ b. bit_or b 8 / 16) (λ b. 0) 16 refl f h)
