-- ===== src/Common/Chars/Scan.antt =====
-- `strtok_r` on an array, in the cases that it distinguishes.
use circle_stdlib.Common.{
  ℕ, suc, ◌+◌, ◌≡◌, ◌≢◌, refl, sym, ◌∙◌, Bool, true, false, List, [], ◌∷◌, ◌++◌, append_assoc, none,
  some, length, length-append, get_elem?, get_elem?-append, drop, drop-append, All, arith, copy_in,
  copy_in_middle, ne→==,
}
use circle_stdlib.Common.Chars.{is_one_of, in_token, strtok_r}
use circle_stdlib.Common.Chars.Tokens.{Has, span_lem}

module _ (ds : List ℕ) (zero_free : is_one_of ds 0 ≡ false) where
  abbrev one : ℕ → Bool
  one = is_one_of ds

  pub no_token :
      (before skip after mem : List ℕ) (n : ℕ)
      → n ≡ length before
      → mem ≡ before ++ (skip ++ (0 ∷ after))
      → All (Has one) skip
      → strtok_r mem n ds ≡ some (none, n + length skip, mem)
  unfolding strtok_r
  no_token before skip after mem n en e a =
      let cut : drop n mem ≡ skip ++ (0 ∷ after) =
        rw e (drop-append n before (skip ++ (0 ∷ after)) en) in
      let stop : get_elem? mem (n + length skip) ≡ some 0 =
        rw (e, ← append_assoc before skip (0 ∷ after))
          (get_elem?-append (n + length skip) (before ++ skip) 0 after
            (omega (arith, length-append before skip))) in
      simp (cut, span_lem one skip 0 after a zero_free, stop)

  pub found_end :
      (before skip tok after mem : List ℕ) (c n : ℕ)
      → n ≡ length before
      → mem ≡ before ++ (skip ++ ((c ∷ tok) ++ (0 ∷ after)))
      → All (Has one) skip
      → All (Has (in_token ds)) (c ∷ tok)
      → one c ≡ false
      → c ≢ 0
      → strtok_r mem n ds ≡ some (some (n + length skip), n + length skip + suc (length tok), mem)
  unfolding strtok_r
  found_end before skip tok after mem c n en e a b f z =
      let front : mem ≡ (before ++ skip) ++ ((c ∷ tok) ++ (0 ∷ after)) =
        e ∙ sym (append_assoc before skip ((c ∷ tok) ++ (0 ∷ after))) in
      let cut : drop n mem ≡ skip ++ (c ∷ (tok ++ (0 ∷ after))) =
        rw e (drop-append n before (skip ++ (c ∷ (tok ++ (0 ∷ after)))) en) in
      let at : get_elem? mem (n + length skip) ≡ some c = rw front (
        get_elem?-append (n + length skip) (before ++ skip) c (tok ++ (0 ∷ after))
          (omega (arith, length-append before skip))) in
      let cut' : drop (n + length skip) mem ≡ (c ∷ tok) ++ (0 ∷ after) = rw front (
        drop-append (n + length skip) (before ++ skip) ((c ∷ tok) ++ (0 ∷ after))
          (omega (arith, length-append before skip))) in
      let stop : get_elem? mem (n + length skip + suc (length tok)) ≡ some 0 =
        rw (front, ← append_assoc (before ++ skip) (c ∷ tok) (0 ∷ after))
          (get_elem?-append (n + length skip + suc (length tok)) ((before ++ skip) ++ (c ∷ tok)) 0
            after
            (omega (arith, length-append before skip, length-append (before ++ skip) (c ∷ tok)))) in
      simp (
        cut,
        span_lem one skip c (tok ++ (0 ∷ after)) a f,
        at,
        ne→== c 0 z,
        cut',
        span_lem (in_token ds) (c ∷ tok) 0 after b refl,
        stop,
      )

  pub found_cut :
      (before skip tok after mem : List ℕ) (c d n : ℕ)
      → n ≡ length before
      → mem ≡ before ++ (skip ++ ((c ∷ tok) ++ (d ∷ after)))
      → All (Has one) skip
      → All (Has (in_token ds)) (c ∷ tok)
      → one c ≡ false
      → c ≢ 0
      → one d ≡ true
      → d ≢ 0
      → strtok_r mem n ds
        ≡ some (
          some (n + length skip),
          n + length skip + suc (length tok) + 1,
          ((before ++ skip) ++ (c ∷ tok)) ++ (0 ∷ after),
        )
  unfolding strtok_r
  found_cut before skip tok after mem c d n en e a b f z g y =
      let front : mem ≡ (before ++ skip) ++ ((c ∷ tok) ++ (d ∷ after)) =
        e ∙ sym (append_assoc before skip ((c ∷ tok) ++ (d ∷ after))) in
      let front' : mem ≡ ((before ++ skip) ++ (c ∷ tok)) ++ (d ∷ after) =
        front ∙ sym (append_assoc (before ++ skip) (c ∷ tok) (d ∷ after)) in
      let k : n + length skip + suc (length tok) ≡ length ((before ++ skip) ++ (c ∷ tok)) =
        omega (arith, length-append before skip, length-append (before ++ skip) (c ∷ tok)) in
      let cut : drop n mem ≡ skip ++ (c ∷ (tok ++ (d ∷ after))) =
        rw e (drop-append n before (skip ++ (c ∷ (tok ++ (d ∷ after)))) en) in
      let at : get_elem? mem (n + length skip) ≡ some c = rw front (
        get_elem?-append (n + length skip) (before ++ skip) c (tok ++ (d ∷ after))
          (omega (arith, length-append before skip))) in
      let cut' : drop (n + length skip) mem ≡ (c ∷ tok) ++ (d ∷ after) = rw front (
        drop-append (n + length skip) (before ++ skip) ((c ∷ tok) ++ (d ∷ after))
          (omega (arith, length-append before skip))) in
      let stop : get_elem? mem (n + length skip + suc (length tok)) ≡ some d = rw front' (
        get_elem?-append (n + length skip + suc (length tok)) ((before ++ skip) ++ (c ∷ tok)) d
          after k) in
      let out : in_token ds d ≡ false = rw (ne→== d 0 y, g) refl in
      let write : copy_in mem (n + length skip + suc (length tok)) (0 ∷ [])
          ≡ some (((before ++ skip) ++ (c ∷ tok)) ++ (0 ∷ after)) =
        rw front' (
          copy_in_middle (n + length skip + suc (length tok)) ((before ++ skip) ++ (c ∷ tok))
            (d ∷ []) (0 ∷ []) after k refl) in
      simp (
        cut,
        span_lem one skip c (tok ++ (d ∷ after)) a f,
        at,
        ne→== c 0 z,
        cut',
        span_lem (in_token ds) (c ∷ tok) d after b out,
        stop,
        ne→== d 0 y,
        write,
      )
