-- ===== src/Mqtt/ReceivePacket/Length.antt =====
-- The loop of CMQTTReceivePacket::Receive that decodes the remaining length.
use circle_stdlib.Common.{
  ℕ, zero, suc, ◌+◌, ◌*◌, ◌%◌, ◌^◌, ◌≤◌, ◌<◌, ◌≡◌, refl, ap, ◌∙◌, List, [], ◌∷◌, ◌++◌, Option, none,
  some, length, length-append, append_assoc, arith, All, dec_lt, dec_le, ◌⊎◌, inl, inr, get_elem?,
  get_elem?-append,
}
use native.Mathlib.Numerals.{towards_suc}
use circle_stdlib.Common.Bits.{low_bits, top_bit}
use circle_stdlib.Mqtt.ReceivePacket.{Decoded, incomplete, malformed, length_is, decode_length}

abbrev pub IsByte : ℕ → Type 0
IsByte b = b < 256

-- One round of the decoding loop, on each kind of byte.
module _ (fuel : ℕ) (buf : List ℕ) (in_ptr out shift n b : ℕ) where
  inner_round :
      get_elem? buf out ≡ some b
      → shift < 22
      → out < in_ptr
      → 128 ≤ b
      → IsByte b
      → decode_length (suc fuel) buf in_ptr out shift n
        ≡ decode_length fuel buf in_ptr (out + 1) (shift + 7) (n + b % 128 * 2 ^ shift)
  unfolding decode_length
  inner_round e hs ho lo hi = ground (arith, low_bits b, top_bit b)

  last_round :
      get_elem? buf out ≡ some b
      → shift < 22
      → out < in_ptr
      → b < 128
      → (0 < b) ⊎ (out ≤ 1)
      → decode_length (suc fuel) buf in_ptr out shift n
        ≡ some (length_is (n + b * 2 ^ shift), out + 1)
  unfolding decode_length
  last_round e hs ho lt z = ground (arith, low_bits b, top_bit b)

  zero_round :
      get_elem? buf out ≡ some 0
      → shift < 22
      → 1 < out
      → out < in_ptr
      → decode_length (suc fuel) buf in_ptr out shift n ≡ some (malformed, out)
  unfolding decode_length
  zero_round e hs ho h = ground arith

  over_round : 22 ≤ shift → decode_length (suc fuel) buf in_ptr out shift n ≡ some (malformed, out)
  unfolding decode_length
  over_round h = ground arith

  pub end_round :
      shift < 22
      → in_ptr ≤ out
      → decode_length (suc fuel) buf in_ptr out shift n ≡ some (incomplete, out)
  unfolding decode_length
  end_round hs h = ground arith

-- The number that the seven-bit groups stand for.
unfoldable pub value : List ℕ → ℕ
value [] = 0
value (b ∷ bs) = b % 128 + 128 * value bs

-- A field as the standard has it: the top bit is set on all bytes but the last, and the last is not
-- below `low`; behind another byte it is not zero.
abbrev pub IsField : ℕ → List ℕ → Type 0
IsField low [] = ⊥
IsField low (b ∷ []) = (low ≤ b) × (b < 128)
IsField low (b ∷ c ∷ bs) = (128 ≤ b) × (b < 256) × IsField 1 (c ∷ bs)

shift_seven : (s : ℕ) → 2 ^ (s + 7) ≡ 128 * 2 ^ s
shift_seven s = simp towards_suc (omega arith)

-- The group `g` at `s`, and the number `v` behind it.
join_groups : (g v s : ℕ) → (g + 128 * v) * 2 ^ s ≡ g * 2 ^ s + v * 2 ^ (s + 7)
join_groups g v s = rw (shift_seven s) (omega arith)

found :
    {a a' o o' : ℕ}
    → a ≡ a'
    → o ≡ o'
    → ◌≡◌ {A = Option (Decoded × ℕ)} (some (length_is a, o)) (some (length_is a', o'))
found e f = cc

-- The loop reads a field that stands at the pointer.
pub decode_field :
    (f : List ℕ) (fuel low in_ptr out shift n : ℕ) (front rest : List ℕ)
    → IsField low f
    → (0 < low) ⊎ (out ≤ 1)
    → shift + 7 * length f ≤ 28
    → length f ≤ fuel
    → out ≡ length front
    → out + length f ≤ in_ptr
    → decode_length fuel (front ++ (f ++ rest)) in_ptr out shift n
      ≡ some (length_is (n + value f * 2 ^ shift), out + length f)
unfolding value
decode_field [] fuel low in_ptr out shift n front rest i z s u o h = absurd i
decode_field (b ∷ bs) zero low in_ptr out shift n front rest i z s u o h = absurd (omega arith)
decode_field (b ∷ []) (suc fuel) low in_ptr out shift n front rest i z s u o h =
    rw
      (last_round fuel (front ++ (b ∷ rest)) in_ptr out shift n b
        (get_elem?-append out front b rest o) (omega arith) (omega arith) i.1 (ground arith))
      (found (ap (λ (g : ℕ). n + g * 2 ^ shift) (omega arith)) refl)
decode_field (b ∷ c ∷ bs) (suc fuel) low in_ptr out shift n front rest i z s u o h =
    rw
      (
        inner_round fuel (front ++ (b ∷ ((c ∷ bs) ++ rest))) in_ptr out shift n b
            (get_elem?-append out front b ((c ∷ bs) ++ rest) o) (omega arith) (omega arith) i.0 i.1,
        ← append_assoc front (b ∷ []) ((c ∷ bs) ++ rest),
      )
      (decode_field (c ∷ bs) fuel 1 in_ptr (out + 1) (shift + 7) (n + b % 128 * 2 ^ shift)
          (front ++ (b ∷ [])) rest i.2 (inl (omega arith)) (omega arith) (omega arith)
          (omega (arith, length-append front (b ∷ []))) (omega arith)
        ∙ found (omega (arith, join_groups (b % 128) (value (c ∷ bs)) shift)) (omega arith))

-- The bytes of a field before its last one.
abbrev pub IsInner : ℕ → Type 0
IsInner b = (128 ≤ b) × (b < 256)

-- Where the received bytes end within a field, the loop stops at their end, whatever stands behind.
pub decode_prefix :
    (f : List ℕ) (fuel in_ptr out shift n : ℕ) (front junk : List ℕ)
    → All IsInner f
    → shift + 7 * length f ≤ 21
    → length f < fuel
    → out ≡ length front
    → out + length f ≡ in_ptr
    → decode_length fuel (front ++ (f ++ junk)) in_ptr out shift n ≡ some (incomplete, in_ptr)
decode_prefix f zero in_ptr out shift n front junk a s u o h = absurd (omega arith)
decode_prefix [] (suc fuel) in_ptr out shift n front junk a s u o h =
    let e : out ≡ in_ptr = omega arith in
    end_round fuel (front ++ junk) in_ptr out shift n 0 (omega arith) (omega arith)
    ∙ ap (λ (k : ℕ). some (incomplete, k)) e
decode_prefix (b ∷ bs) (suc fuel) in_ptr out shift n front junk a s u o h =
    rw
      (
        inner_round fuel (front ++ (b ∷ (bs ++ junk))) in_ptr out shift n b
            (get_elem?-append out front b (bs ++ junk) o) (omega arith) (omega arith) a.0.0 a.0.1,
        ← append_assoc front (b ∷ []) (bs ++ junk),
      )
      (decode_prefix bs fuel in_ptr (out + 1) (shift + 7) (n + b % 128 * 2 ^ shift)
        (front ++ (b ∷ [])) junk a.1 (omega arith) (omega arith)
        (omega (arith, length-append front (b ∷ []))) (omega arith))

first_or_positive :
    (low out b : ℕ)
    → low ≤ b
    → ((low ≡ 0) × (out ≡ 1)) ⊎ ((low ≡ 1) × (1 < out))
    → (0 < b) ⊎ (out ≤ 1)
first_or_positive low out b h (inl z) = inr (omega arith)
first_or_positive low out b h (inr z) = inl (omega arith)

-- What the loop has read, where it does not stop for another reason: a field that stands at the
-- pointer, before the end of the received bytes. The loop never leaves the buffer.
abbrev pub Read : ℕ → ℕ → ℕ → ℕ → ℕ → List ℕ → Option (Decoded × ℕ) → Type 0
Read low in_ptr out shift n bs none = ⊥
Read low in_ptr out shift n bs (some (incomplete, o)) = Unit {0}
Read low in_ptr out shift n bs (some (malformed, o)) = Unit {0}
Read low in_ptr out shift n bs (some (length_is m, o)) =
    (f : List ℕ) × (rest : List ℕ) × (bs ≡ f ++ rest)
    × IsField low f
    × (m ≡ n + value f * 2 ^ shift)
    × (o ≡ out + length f)
    × (o ≤ in_ptr)
    × (shift + 7 * length f ≤ 28)

Read-inner :
    (low in_ptr out shift n b : ℕ) (bs : List ℕ) (r : Option (Decoded × ℕ))
    → IsInner b
    → Read 1 in_ptr (out + 1) (shift + 7) (n + b % 128 * 2 ^ shift) bs r
    → Read low in_ptr out shift n (b ∷ bs) r
unfolding value
Read-inner low in_ptr out shift n b bs none h r = r
Read-inner low in_ptr out shift n b bs (some (incomplete, o)) h r = tt
Read-inner low in_ptr out shift n b bs (some (malformed, o)) h r = tt
Read-inner low in_ptr out shift n b bs (some (length_is m, o)) h ([], rest, e, i, x, y, z, w) =
    absurd i
Read-inner low in_ptr out shift n b bs (some (length_is m, o)) h (c ∷ f, rest, e, i, x, y, z, w) = (
  b ∷ c ∷ f,
  rest,
  ap (◌∷◌ b) e,
  (h.0, h.1, i),
  omega (arith, x, join_groups (b % 128) (value (c ∷ f)) shift),
  omega arith,
  z,
  omega arith,
)

Read-last :
    (low in_ptr out shift n b : ℕ) (bs : List ℕ)
    → low ≤ b
    → b < 128
    → out < in_ptr
    → shift < 22
    → Read low in_ptr out shift n (b ∷ bs) (some (length_is (n + b * 2 ^ shift), out + 1))
unfolding value
Read-last low in_ptr out shift n b bs l h o s = (
  b ∷ [],
  bs,
  refl,
  (l, h),
  ap (λ (g : ℕ). n + g * 2 ^ shift) (omega arith),
  refl,
  omega arith,
  omega arith,
)

pub decode_sound :
    (fuel low in_ptr out shift n : ℕ) (front bs : List ℕ)
    → All IsByte bs
    → 28 < shift + 7 * fuel
    → shift ≤ 28
    → ((low ≡ 0) × (out ≡ 1)) ⊎ ((low ≡ 1) × (1 < out))
    → out ≡ length front
    → in_ptr ≤ length front + length bs
    → Read low in_ptr out shift n bs (decode_length fuel (front ++ bs) in_ptr out shift n)
decode_sound zero low in_ptr out shift n front bs a s t z o h = absurd (omega arith)
decode_sound (suc fuel) low in_ptr out shift n front [] a s t z o h = elim (dec_lt shift 22) [
  | yes room ↦ rw (end_round fuel (front ++ []) in_ptr out shift n 0 room (omega arith)) tt
  | no over ↦ rw (over_round fuel (front ++ []) in_ptr out shift n 0 (omega arith)) tt
]
decode_sound (suc fuel) low in_ptr out shift n front (b ∷ bs) (ab, abs) s t z o h =
    elim (dec_lt shift 22) [
      | no over ↦ rw (over_round fuel (front ++ (b ∷ bs)) in_ptr out shift n b (omega arith)) tt
      | yes room ↦ elim (dec_lt out in_ptr) [
        | no ended ↦
            rw (end_round fuel (front ++ (b ∷ bs)) in_ptr out shift n b room (omega arith)) tt
        | yes more ↦ elim (dec_lt b 128) [
          | yes last ↦ elim (dec_le low b) [
            | yes positive ↦
                rw
                  (last_round fuel (front ++ (b ∷ bs)) in_ptr out shift n b here room more last
                    (first_or_positive low out b positive z))
                  (Read-last low in_ptr out shift n b bs positive last more room)
            | no zero_byte ↦
                rw
                  (zero_round fuel (front ++ (b ∷ bs)) in_ptr out shift n b
                    (here ∙ ap some (omega arith)) room (omega arith) more)
                  tt
          ]
          | no inner ↦
              rw
                (
                  inner_round fuel (front ++ (b ∷ bs)) in_ptr out shift n b here room more
                      (omega arith) ab,
                  ← append_assoc front (b ∷ []) bs,
                )
                (Read-inner low in_ptr out shift n b bs _ (omega arith, ab)
                  (decode_sound fuel 1 in_ptr (out + 1) (shift + 7) (n + b % 128 * 2 ^ shift)
                    (front ++ (b ∷ [])) bs abs (omega arith) (omega arith) (inr (refl, omega arith))
                    (omega (arith, length-append front (b ∷ [])))
                    (omega (arith, length-append front (b ∷ [])))))
        ]
      ]
    ]
  where
    here : get_elem? (front ++ (b ∷ bs)) out ≡ some b
    here = get_elem?-append out front b bs o
