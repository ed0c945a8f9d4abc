-- ===== src/Common/Chars/Strtok.antt =====
-- `strtok_r` on an array, against a function on texts.
use circle_stdlib.Common.{
  ℕ, ◌+◌, ◌≡◌, ◌≢◌, refl, sym, ap, ◌∙◌, subst, Bool, true, false, not, List, [], ◌∷◌, ◌++◌,
  append_assoc, append-nil, Option, none, some, length, length-append, get_elem?, get_elem?-append,
  drop, drop-append, All, All-front, All-back, arith, ne→==, Holds,
}
use circle_stdlib.Common.Chars.{is_one_of, in_token, c_string, strtok_r}
use circle_stdlib.Common.Chars.Tokens.{
  IsNonzero, take_while, drop_while, take-drop_while, Has, take_while-All, Stops, drop_while-Stops,
  c_string_lem,
}
use circle_stdlib.Common.Chars.Scan.{no_token, found_end, found_cut}

-- The first token of a text, and what follows the delimiter behind it.
abbrev pub cut_token : List ℕ → List ℕ → List ℕ × List ℕ
cut_token ds t =
    let u = drop_while (is_one_of ds) t in
    (take_while (λ c. not (is_one_of ds c)) u, drop 1 (drop_while (λ c. not (is_one_of ds c)) u))

abbrev pub TokenIs : Option ℕ → List ℕ → List ℕ → List ℕ → Type 0
TokenIs none mem tok rest = (tok ≡ []) × (rest ≡ [])
TokenIs (some a) mem tok rest = (tok ≢ []) × (behind : List ℕ) × (drop a mem ≡ tok ++ (0 ∷ behind))

-- What a call of `strtok_r` leaves in the array that finds the token `tok` and leaves the text `rest`: the
-- saved pointer is at that text.
pub record Token (tok rest after mem : List ℕ) (r : Option ℕ × ℕ × List ℕ) : Type 0 where
  pub before : List ℕ
  pub memory : r.2 ≡ before ++ (rest ++ (0 ∷ after))
  pub saved : r.1 ≡ length before
  pub size : length r.2 ≡ length mem
  pub token : TokenIs r.0 r.2 tok rest
  pub nonzero : All IsNonzero tok
  pub rest_nonzero : All IsNonzero rest

not-true : (b : Bool) → not b ≡ false → b ≡ true
not-true true e = refl
not-true false e = cc

module _ (ds : List ℕ) (zero_free : is_one_of ds 0 ≡ false) where
  abbrev one : ℕ → Bool
  one = is_one_of ds

  in_token-All :
      (t : List ℕ) → All (Has (λ c. not (one c))) t → All IsNonzero t → All (Has (in_token ds)) t
  in_token-All [] a b = tt
  in_token-All (c ∷ t) a b = (rw (ne→== c 0 b.0, a.0) refl, in_token-All t a.1 b.1)

  -- The cases of a token: none, one up to the end of the text, one up to a delimiter.
  none-Token :
      (before skip after mem : List ℕ) (n : ℕ)
      → n ≡ length before
      → mem ≡ before ++ (skip ++ (0 ∷ after))
      → All (Has one) skip
      → Holds (Token [] [] after mem) (strtok_r mem n ds)
  none-Token before skip after mem n en e a =
      rw (no_token ds zero_free before skip after mem n en e a) (record {
        before = before ++ skip;
        memory = e ∙ sym (append_assoc before skip (0 ∷ after));
        saved = omega (arith, length-append before skip);
        size = refl;
        token = (refl, refl);
        nonzero = tt;
        rest_nonzero = tt;
      })

  found-Token :
      (before skip tok v after mem : List ℕ) (c n : ℕ)
      → n ≡ length before
      → mem ≡ before ++ (skip ++ (((c ∷ tok) ++ v) ++ (0 ∷ after)))
      → All (Has one) skip
      → one c ≡ false
      → All (Has (in_token ds)) (c ∷ tok)
      → All IsNonzero (c ∷ tok)
      → All IsNonzero v
      → Stops (λ x. not (one x)) v
      → Holds (Token (c ∷ tok) (drop 1 v) after mem) (strtok_r mem n ds)
  found-Token before skip tok [] after mem c n en e a f b z y s =
      let e' : mem ≡ before ++ (skip ++ ((c ∷ tok) ++ (0 ∷ after))) =
        e ∙ ap (λ x. before ++ (skip ++ (x ++ (0 ∷ after)))) (append-nil (c ∷ tok)) in
      let front : mem ≡ (before ++ skip) ++ ((c ∷ tok) ++ (0 ∷ after)) =
        e' ∙ sym (append_assoc before skip ((c ∷ tok) ++ (0 ∷ after))) in
      rw (found_end ds zero_free before skip tok after mem c n en e' a b f z.0) (record {
        before = (before ++ skip) ++ (c ∷ tok);
        memory = front ∙ sym (append_assoc (before ++ skip) (c ∷ tok) (0 ∷ after));
        saved = omega (arith, length-append before skip, length-append (before ++ skip) (c ∷ tok));
        size = refl;
        token = (
          λ q. cc,
          after,
          rw front (
              drop-append (n + length skip) (before ++ skip) ((c ∷ tok) ++ (0 ∷ after))
                (omega (arith, length-append before skip))),
        );
        nonzero = z;
        rest_nonzero = tt;
      })
  found-Token before skip tok (d ∷ v) after mem c n en e a f b z y s =
      let front : (before ++ skip) ++ ((c ∷ tok) ++ ((d ∷ v) ++ (0 ∷ after))) ≡ mem = sym (
        e
        ∙ sym (append_assoc before skip (((c ∷ tok) ++ (d ∷ v)) ++ (0 ∷ after)))
        ∙ ap (λ x. (before ++ skip) ++ x) (append_assoc (c ∷ tok) (d ∷ v) (0 ∷ after))) in
      let e' : mem ≡ before ++ (skip ++ ((c ∷ tok) ++ (d ∷ (v ++ (0 ∷ after))))) =
        sym front ∙ append_assoc before skip ((c ∷ tok) ++ (d ∷ (v ++ (0 ∷ after)))) in
      rw
        (found_cut ds zero_free before skip tok (v ++ (0 ∷ after)) mem c d n en e' a b f z.0
          (not-true (one d) s) y.0)
        (record {
          before = ((before ++ skip) ++ (c ∷ tok)) ++ (0 ∷ []);
          memory = sym (append_assoc ((before ++ skip) ++ (c ∷ tok)) (0 ∷ []) (v ++ (0 ∷ after)));
          saved = omega (
            arith,
            length-append before skip,
            length-append (before ++ skip) (c ∷ tok),
            length-append ((before ++ skip) ++ (c ∷ tok)) (0 ∷ []),
          );
          size = omega (
            arith,
            length-append (before ++ skip) (c ∷ tok),
            length-append ((before ++ skip) ++ (c ∷ tok)) (0 ∷ (v ++ (0 ∷ after))),
            length-append (before ++ skip) ((c ∷ tok) ++ ((d ∷ v) ++ (0 ∷ after))),
            length-append (c ∷ tok) (d ∷ (v ++ (0 ∷ after))),
            ap length front,
          );
          token = (
            λ q. cc,
            v ++ (0 ∷ after),
            rw (append_assoc (before ++ skip) (c ∷ tok) (0 ∷ (v ++ (0 ∷ after)))) (
                drop-append (n + length skip) (before ++ skip)
                  ((c ∷ tok) ++ (0 ∷ (v ++ (0 ∷ after))))
                  (omega (arith, length-append before skip))),
          );
          nonzero = z;
          rest_nonzero = y.1;
        })

  -- The token in front of a text that starts with no delimiter.
  front-Token :
      (before skip u after mem : List ℕ) (n : ℕ)
      → n ≡ length before
      → mem ≡ before ++ (skip ++ (u ++ (0 ∷ after)))
      → All (Has one) skip
      → Stops one u
      → All IsNonzero u
      → Holds
          (Token
            (take_while (λ x. not (one x)) u)
            (drop 1 (drop_while (λ x. not (one x)) u))
            after
            mem)
          (strtok_r mem n ds)
  front-Token before skip [] after mem n en e a s z = none-Token before skip after mem n en e a
  front-Token before skip (c ∷ u) after mem n en e a s z =
      let f : ℕ → Bool = λ x. not (one x) in
      let tok : List ℕ = take_while f u in
      let v : List ℕ = drop_while f u in
      let cut : u ≡ tok ++ v = sym (take-drop_while f u) in
      let parts : All IsNonzero (tok ++ v) = subst (All IsNonzero) cut z.1 in
      let here : f c ≡ true = rw s refl in
      rw (s) (
        found-Token before skip tok v after mem c n en
          (e ∙ ap (λ x. before ++ (skip ++ ((c ∷ x) ++ (0 ∷ after)))) cut) a s
          (in_token-All (c ∷ tok) (here, take_while-All f u) (z.0, All-front IsNonzero tok v parts))
          (z.0, All-front IsNonzero tok v parts) (All-back IsNonzero tok v parts)
          (drop_while-Stops f u))

  pub strtok_r_lem :
      (before t after mem : List ℕ) (n : ℕ)
      → n ≡ length before
      → mem ≡ before ++ (t ++ (0 ∷ after))
      → All IsNonzero t
      → Holds (Token (cut_token ds t).0 (cut_token ds t).1 after mem) (strtok_r mem n ds)
  strtok_r_lem before t after mem n en e z =
      let skip : List ℕ = take_while one t in
      let u : List ℕ = drop_while one t in
      let cut : t ≡ skip ++ u = sym (take-drop_while one t) in
      front-Token before skip u after mem n en
        (e
          ∙ ap (λ x. before ++ (x ++ (0 ∷ after))) cut
          ∙ ap (λ x. before ++ x) (append_assoc skip u (0 ∷ after)))
        (take_while-All one t) (drop_while-Stops one t)
        (All-back IsNonzero skip u (subst (All IsNonzero) cut z))

-- Whether there is a C string in the array.
abbrev pub HasZero : List ℕ → Type 0
HasZero l = (i : ℕ) × (get_elem? l i ≡ some 0)

pub text-HasZero : (t after l : List ℕ) → l ≡ t ++ (0 ∷ after) → HasZero l
text-HasZero t after l e = (length t, rw e (get_elem?-append (length t) t 0 after refl))

rest-HasZero : (before rest after l : List ℕ) → l ≡ before ++ (rest ++ (0 ∷ after)) → HasZero l
rest-HasZero before rest after l e =
    text-HasZero (before ++ rest) after l (e ∙ sym (append_assoc before rest (0 ∷ after)))

-- What a call gives: no token, or the token as a C string.
pub data Found (tok rest after mem : List ℕ) (m : Option (Option ℕ × ℕ × List ℕ)) : Type 0 where
  nothing :
      (s : ℕ) (l : List ℕ)
      → m ≡ some (none, s, l)
      → tok ≡ []
      → rest ≡ []
      → length l ≡ length mem
      → HasZero l
      → Found tok rest after mem m
  something :
      (a s : ℕ) (l before : List ℕ)
      → m ≡ some (some a, s, l)
      → tok ≢ []
      → c_string (drop a l) ≡ some tok
      → length l ≡ length mem
      → s ≡ length before
      → l ≡ before ++ (rest ++ (0 ∷ after))
      → All IsNonzero rest
      → HasZero l
      → Found tok rest after mem m

pub strtok-Found :
    (tok rest after mem : List ℕ) (m : Option (Option ℕ × ℕ × List ℕ))
    → Holds (Token tok rest after mem) m
    → Found tok rest after mem m
strtok-Found tok rest after mem none h = absurd h
strtok-Found tok rest after mem (some (none, s, l)) h =
    nothing s l refl h.token.0 h.token.1 h.size (rest-HasZero h.before rest after l h.memory)
strtok-Found tok rest after mem (some (some a, s, l)) h =
    let (n, behind, e) = h.token in
    something a s l h.before refl n (rw e (c_string_lem tok behind h.nonzero)) h.size h.saved
      h.memory h.rest_nonzero (rest-HasZero h.before rest after l h.memory)
