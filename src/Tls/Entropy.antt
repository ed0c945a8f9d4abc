-- ===== src/Tls/Entropy.antt =====
-- CEntropyModule::EntropyPoll: src/circle-mbedtls/entropymodule.cpp, with the hardware's random numbers.
-- A failed assertion, a write behind the end of the buffer and a loop that has used up its fuel are a
-- missing result.
use circle_stdlib.Common.{
  ℕ, zero, suc, ◌+◌, ◌-◌, ◌*◌, ◌/◌, ◌%◌, ◌≤◌, ◌<◌, ◌≡◌, refl, sym, ap, ◌∙◌, subst, List, [], ◌∷◌,
  ◌++◌, append_assoc, Option, none, some, length, length-append, length-take, length-drop, take,
  drop, drop_more, drop-append, leb, le→leb, gt→leb, dec_le, arith, if◌then◌else◌, ◌>>=◌, ◌>>◌,
  assert, copy_in, Holds, Holds->>=, Holds-mono,
}

-- The bytes of a `u32`, the lowest first.
abbrev pub u32_bytes : ℕ → List ℕ
u32_bytes n = n % 256 ∷ n / 256 % 256 ∷ n / 65536 % 256 ∷ n / 16777216 % 256 ∷ []

module _ (World : Type 0) (get_number : World → ℕ × World) where
  -- The loop, from an offset on and for so many bytes more: the offset behind it.
  unfoldable pub poll_loop : ℕ → ℕ → ℕ → List ℕ → World → Option (ℕ × List ℕ × World)
  poll_loop zero n offset buf w = none
  poll_loop (suc fuel) n offset buf w =
      let (number, w') = get_number w in
      let round = copy_in buf offset (u32_bytes number) >>= λ buf'.
      poll_loop fuel (n - 4) (offset + 4) buf' w' in
      if leb 4 n then round else some (offset, buf, w)

  -- `EntropyPoll`: the number of bytes that have been stored.
  unfoldable pub entropy_poll : ℕ → List ℕ → World → Option (ℕ × List ℕ × World)
  entropy_poll n buf w = assert (leb 4 n) >> poll_loop (suc n) n 0 buf w

  -- So many bytes are stored from the offset on, and nothing else is.
  abbrev pub Filled : ℕ → List ℕ → ℕ × List ℕ × World → Type 0
  Filled end buf r = (r.0 ≡ end) × (length r.1 ≡ length buf) × (drop end r.1 ≡ drop end buf)

  copied :
      (buf : List ℕ) (offset end number : ℕ)
      → offset + 4 ≤ length buf
      → offset + 4 ≤ end
      → Holds
          (λ buf'. (length buf' ≡ length buf) × (drop end buf' ≡ drop end buf))
          (copy_in buf offset (u32_bytes number))
  unfolding copy_in
  copied buf offset end number h l = rw (le→leb (offset + 4) (length buf) h) (
    omega (
      arith,
      length-append (take offset buf) (u32_bytes number ++ drop (offset + 4) buf),
      length-take offset buf,
      length-drop (offset + 4) buf,
    ),
    ap (λ k. drop k buf') split
        ∙ drop_more (offset + 4) (end - (offset + 4)) buf'
        ∙ ap (drop (end - (offset + 4))) behind
        ∙ sym (drop_more (offset + 4) (end - (offset + 4)) buf)
        ∙ ap (λ k. drop k buf) (sym split),
  )
    where
      buf' : List ℕ
      buf' = take offset buf ++ (u32_bytes number ++ drop (offset + 4) buf)

      split : end ≡ (offset + 4) + (end - (offset + 4))
      split = omega (arith, l)

      behind : drop (offset + 4) buf' ≡ drop (offset + 4) buf
      behind =
          ap (drop (offset + 4))
            (sym (append_assoc (take offset buf) (u32_bytes number) (drop (offset + 4) buf)))
          ∙ drop-append (offset + 4) (take offset buf ++ u32_bytes number) (drop (offset + 4) buf) (
              omega (
                arith,
                h,
                length-append (take offset buf) (u32_bytes number),
                length-take offset buf,
              ))

  poll_loop-Filled :
      (fuel n offset : ℕ) (buf : List ℕ) (w : World)
      → n < fuel
      → offset + n ≤ length buf
      → Holds (Filled (offset + n / 4 * 4) buf) (poll_loop fuel n offset buf w)
  unfolding poll_loop
  poll_loop-Filled zero n offset buf w f h = absurd (omega arith)
  poll_loop-Filled (suc fuel) n offset buf w f h = elim (dec_le 4 n) [
    | no l ↦ rw (gt→leb 4 n (omega (arith, l))) (omega (arith, l), refl, refl)
    | yes l ↦ rw (le→leb 4 n l) (
        Holds->>= _ (Filled (offset + n / 4 * 4) buf)
          (copy_in buf offset (u32_bytes (get_number w).0)) _
          (copied buf offset (offset + n / 4 * 4) (get_number w).0 (omega (arith, l, h))
            (omega (arith, l)))
          (λ buf' (same, rest).
            Holds-mono (Filled ((offset + 4) + (n - 4) / 4 * 4) buf')
              (Filled (offset + n / 4 * 4) buf) _
              (λ r (end, size, behind). (
                omega (arith, end, l),
                omega (arith, size, same),
                ap (λ k. drop k r.1) (one_more l)
                    ∙ behind
                    ∙ ap (λ k. drop k buf') (sym (one_more l))
                    ∙ rest,
              ))
              (poll_loop-Filled fuel (n - 4) (offset + 4) buf' (get_number w).1
                (omega (arith, f, l)) (omega (arith, h, l, same)))))
  ]
    where
      one_more : 4 ≤ n → offset + n / 4 * 4 ≡ (offset + 4) + (n - 4) / 4 * 4
      one_more l = omega (arith, l)

  -- `EntropyPoll` for at least four bytes of a buffer that has them: the loop ends, no write leaves the
  -- buffer, the number of bytes that are reported is the largest multiple of 4 that fits, and the bytes
  -- behind them are left as they were.
  pub entropy_poll-Filled :
      (n : ℕ) (buf : List ℕ) (w : World)
      → 4 ≤ n
      → n ≤ length buf
      → Holds (Filled (n / 4 * 4) buf) (entropy_poll n buf w)
  unfolding entropy_poll
  entropy_poll-Filled n buf w l h = rw (le→leb 4 n l) (
      subst (λ k. Holds (Filled k buf) (poll_loop (suc n) n 0 buf w)) from_zero
        (poll_loop-Filled (suc n) n 0 buf w (omega arith) (omega (arith, h))))
    where
      from_zero : 0 + n / 4 * 4 ≡ n / 4 * 4
      from_zero = omega arith
