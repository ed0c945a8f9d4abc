-- ===== src/Http/ChunkData.antt =====
-- CHTTPClient::Request: the data of a chunk, and the line end behind it.
use circle_stdlib.Common.{
  ℕ, suc, ◌+◌, ◌-◌, ◌%◌, ◌≤◌, ◌<◌, ◌≡◌, refl, ap, ◌∙◌, subst, Bool, List, [], ◌∷◌, ◌++◌,
  append_assoc, length, length-append, arith, gt→leb, ◌==◌, if◌then◌else◌, ne→==, Holds,
  Holds-result,
}
use native.Mathlib.Nat.{mod-eq_of_lt, add-mod_right}
use circle_stdlib.Http.Response.{
  State, chunk_header, chunk_data, chunk_trailer, Parser, Outcome, copy_char, step_in, feed,
}
use circle_stdlib.Http.Flow.{At, Goes, step-Goes}
use circle_stdlib.Http.Header.{crlf}
use circle_stdlib.Http.Content.{copy_char-At}
use circle_stdlib.Http.ChunkHeader.{return-At}

module _ (n : ℕ) (b : Bool) (modulus capacity : ℕ) (Q : Outcome → Type 0) where
  -- The number of bytes that are left after one of them.
  one_less : (m : ℕ) → m < modulus → (suc m + modulus - 1) % modulus ≡ m
  one_less m h =
      let e : suc m + modulus - 1 ≡ m + modulus = omega arith in
      ap (λ x. x % modulus) e ∙ add-mod_right m modulus ∙ mod-eq_of_lt h

  abbrev data_state : ℕ → State
  data_state left = if left == 0 then chunk_trailer else chunk_data

  data_char-At :
      (m x c : ℕ) (text copied rest : List ℕ) (p : Parser)
      → At chunk_data n b (suc m) text copied (x ∷ rest) p
      → m < modulus
      → length copied < capacity
      → Holds
          (Goes (At (data_state m) n b m text (copied ++ (c ∷ [])) rest))
          (step_in modulus capacity chunk_data p c)
  unfolding step_in
  data_char-At m x c text copied rest p a h l =
      let left : (p.bytes + modulus - 1) % modulus ≡ m =
        ap (λ k. (k + modulus - 1) % modulus) a.is_bytes ∙ one_less m h in
      let (q, e, a') =
        Holds-result (At chunk_data n b (suc m) text (copied ++ (c ∷ [])) rest) (copy_char p c)
          (copy_char-At n b text chunk_data (suc m) copied rest x c p a) in
      rw (gt→leb capacity p.n_length (omega (arith, l, a.is_n_length)), e, left)
        (record {
          is_state = refl;
          is_n_line = a'.is_n_line;
          is_chunked = a'.is_chunked;
          is_bytes = refl;
          size = a'.size;
          is_n_char = a'.is_n_char;
          written = a'.written;
          is_n_length = a'.is_n_length;
          is_buffer = a'.is_buffer;
        })

  data_state-suc : (m : ℕ) → data_state (suc m) ≡ chunk_data
  data_state-suc m = rw (ne→== (suc m) 0 (λ e. omega arith)) refl

  -- The data of a chunk.
  pub data-At :
      (x c : ℕ) (t old back text copied cs : List ℕ) (p : Parser)
      → At chunk_data n b (suc (length t)) text copied ((x ∷ old) ++ back) p
      → length old ≡ length t
      → length t < modulus
      → length copied + suc (length t) ≤ capacity
      → ((q : Parser)
          → At chunk_trailer n b 0 text (copied ++ (c ∷ t)) back q
          → Holds Q (feed modulus capacity q cs))
      → Holds Q (feed modulus capacity p ((c ∷ t) ++ cs))
  data-At x c [] [] back text copied cs p a e m h f =
      step-Goes modulus capacity (At chunk_trailer n b 0 text (copied ++ (c ∷ [])) back) Q
        chunk_data p c cs a.is_state (data_char-At 0 x c text copied back p a m (omega (arith, h)))
        f
  data-At x c [] (y ∷ old) back text copied cs p a e m h f = absurd (omega arith)
  data-At x c (d ∷ t) [] back text copied cs p a e m h f = absurd (omega arith)
  data-At x c (d ∷ t) (y ∷ old) back text copied cs p a e m h f =
      step-Goes modulus capacity
        (At chunk_data n b (suc (length t)) text (copied ++ (c ∷ [])) ((y ∷ old) ++ back)) Q
        chunk_data p c ((d ∷ t) ++ cs) a.is_state
        (subst
          (λ s.
            Holds (Goes (At s n b (suc (length t)) text (copied ++ (c ∷ [])) ((y ∷ old) ++ back)))
              (step_in modulus capacity chunk_data p c))
          (data_state-suc (length t))
          (data_char-At (suc (length t)) x c text copied ((y ∷ old) ++ back) p a m
            (omega (arith, h))))
        (λ q a'.
          data-At y d t old back text (copied ++ (c ∷ [])) cs q a' (omega (arith, e))
            (omega (arith, m)) (omega (arith, h, length-append copied (c ∷ [])))
            (λ q' a''. f q' (
              subst (λ z. At chunk_trailer n b 0 text z back q')
                (append_assoc copied (c ∷ []) (d ∷ t)) a'')))

  pub trailer-At :
      (text copied rest cs : List ℕ) (p : Parser)
      → At chunk_trailer n b 0 text copied rest p
      → ((q : Parser)
          → At chunk_header n b 0 [] copied rest q
          → Holds Q (feed modulus capacity q cs))
      → Holds Q (feed modulus capacity p (crlf cs))
  unfolding step_in
  trailer-At text copied rest cs p a f =
      return-At n b modulus capacity Q chunk_trailer p (b'\n' ∷ cs) a.is_state refl (
        step-Goes modulus capacity (At chunk_header n b 0 [] copied rest) Q chunk_trailer p b'\n' cs
          a.is_state
          (record {
            is_state = refl;
            is_n_line = a.is_n_line;
            is_chunked = a.is_chunked;
            is_bytes = a.is_bytes;
            size = a.size;
            is_n_char = refl;
            written = tt;
            is_n_length = a.is_n_length;
            is_buffer = a.is_buffer;
          })
          f)
