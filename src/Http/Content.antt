-- ===== src/Http/Content.antt =====
-- CHTTPClient::Request: the content of the response, as a whole or in chunks.
use circle_stdlib.Common.{
  ℕ, ◌+◌, ◌≤◌, ◌≡◌, refl, sym, ap, subst, Bool, List, [], ◌∷◌, ◌++◌, append_assoc, append-nil, some,
  length, length-append, arith, gt→leb, le→leb, Holds, copy_in, copy_in_middle,
}
use circle_stdlib.Http.{http_content_buffer_too_small}
use circle_stdlib.Http.Response.{State, content, Parser, Outcome, stopped, copy_char, step_in, feed}
use circle_stdlib.Http.Flow.{At, Holds-going, step-Goes, step-stops}

module _ (n : ℕ) (b : Bool) (text : List ℕ) where
  -- A character of the content.
  pub copy_char-At :
      (s : State) (k : ℕ) (copied rest : List ℕ) (x c : ℕ) (p : Parser)
      → At s n b k text copied (x ∷ rest) p
      → Holds (At s n b k text (copied ++ (c ∷ [])) rest) (copy_char p c)
  unfolding copy_char
  copy_char-At s k copied rest x c p a =
      let e : copy_in p.buffer p.n_length (c ∷ []) ≡ some (copied ++ (c ∷ rest)) =
        rw a.is_buffer
          (copy_in_middle p.n_length copied (x ∷ []) (c ∷ []) rest a.is_n_length refl) in
      rw e (record {
        is_state = a.is_state;
        is_n_line = a.is_n_line;
        is_chunked = a.is_chunked;
        is_bytes = a.is_bytes;
        size = a.size;
        is_n_char = a.is_n_char;
        written = a.written;
        is_n_length = omega (arith, a.is_n_length, length-append copied (c ∷ []));
        is_buffer = sym (append_assoc copied (c ∷ []) rest);
      })

  module _ (modulus capacity : ℕ) (Q : Outcome → Type 0) where
    pub content-At :
        (k : ℕ) (t old back copied cs : List ℕ) (p : Parser)
        → At content n b k text copied (old ++ back) p
        → length old ≡ length t
        → length copied + length t ≤ capacity
        → ((q : Parser)
            → At content n b k text (copied ++ t) back q
            → Holds Q (feed modulus capacity q cs))
        → Holds Q (feed modulus capacity p (t ++ cs))
    unfolding step_in
    content-At k [] [] back copied cs p a e h f =
        f p (subst (λ x. At content n b k text x back p) (sym (append-nil copied)) a)
    content-At k [] (x ∷ old) back copied cs p a e h f = absurd (omega arith)
    content-At k (c ∷ t) [] back copied cs p a e h f = absurd (omega arith)
    content-At k (c ∷ t) (x ∷ old) back copied cs p a e h f =
        step-Goes modulus capacity (At content n b k text (copied ++ (c ∷ [])) (old ++ back)) Q
          content p c (t ++ cs) a.is_state
          (rw (gt→leb capacity p.n_length (omega (arith, h, a.is_n_length))) (
            Holds-going (At content n b k text (copied ++ (c ∷ [])) (old ++ back)) (copy_char p c)
              (copy_char-At content k copied (old ++ back) x c p a)))
          (λ q a'.
            content-At k t old back (copied ++ (c ∷ [])) cs q a' (omega (arith, e))
              (omega (arith, h, length-append copied (c ∷ [])))
              (λ q' a''. f q' (
                subst (λ x. At content n b k text x back q') (append_assoc copied (c ∷ []) t) a'')))

    -- The buffer is full, and there is more content.
    pub full-At :
        (k c : ℕ) (copied cs back : List ℕ) (p : Parser)
        → At content n b k text copied back p
        → length copied ≡ capacity
        → Q (stopped http_content_buffer_too_small (copied ++ back))
        → Holds Q (feed modulus capacity p (c ∷ cs))
    unfolding step_in
    full-At k c copied cs back p a e h =
        step-stops modulus capacity Q content p c cs http_content_buffer_too_small (copied ++ back)
          a.is_state
          (rw (le→leb capacity p.n_length (omega (arith, e, a.is_n_length)))
            (ap (λ x. some (stopped http_content_buffer_too_small x)) a.is_buffer))
          h
