-- ===== src/Http/Chunks.antt =====
-- CHTTPClient::Request: content that is sent in chunks.
use circle_stdlib.Common.{
  ℕ, suc, ◌+◌, ◌≤◌, ◌<◌, ◌≡◌, ◌≢◌, refl, sym, ap, ◌∙◌, subst, Bool, List, [], ◌∷◌, ◌++◌,
  append_assoc, append-nil, length, length-append, arith, split_at, Holds,
}
use circle_stdlib.Http.Response.{chunk_header, finished, Parser, Outcome, feed}
use circle_stdlib.Http.Flow.{At}
use circle_stdlib.Http.Header.{crlf}
use circle_stdlib.Http.ChunkHeader.{IsSize, chunk_header-At, next_state-suc}
use circle_stdlib.Http.ChunkData.{data-At, trailer-At}

-- A chunk: its size line, and its data.
pub record IsChunk (modulus : ℕ) (h d : List ℕ) : Type 0 where
  pub nonempty : d ≢ []
  pub below : length d < modulus
  pub is_size : IsSize modulus h (length d)

-- The chunks as they are sent, before the rest of the response.
abbrev pub chunks : List (List ℕ × List ℕ) → List ℕ → List ℕ
chunks [] cs = cs
chunks ((h, d) ∷ ds) cs = h ++ crlf (d ++ crlf (chunks ds cs))

abbrev pub AreChunks : ℕ → List (List ℕ × List ℕ) → Type 0
AreChunks modulus [] = Unit {0}
AreChunks modulus ((h, d) ∷ ds) = IsChunk modulus h d × AreChunks modulus ds

abbrev pub chunks_data : List (List ℕ × List ℕ) → List ℕ
chunks_data [] = []
chunks_data ((h, d) ∷ ds) = d ++ chunks_data ds

module _ (n : ℕ) (b : Bool) (modulus capacity : ℕ) (Q : Outcome → Type 0) where
  chunk-At :
      (h d old back copied cs : List ℕ) (p : Parser)
      → At chunk_header n b 0 [] copied (old ++ back) p
      → IsChunk modulus h d
      → length old ≡ length d
      → length copied + length d ≤ capacity
      → ((q : Parser)
          → At chunk_header n b 0 [] (copied ++ d) back q
          → Holds Q (feed modulus capacity q cs))
      → Holds Q (feed modulus capacity p (h ++ crlf (d ++ crlf cs)))
  chunk-At h [] old back copied cs p a i e m f = absurd (i.nonempty refl)
  chunk-At [] (y ∷ d) old back copied cs p a i e m f = absurd (i.is_size.0.0 refl)
  chunk-At (c ∷ h) (y ∷ d) [] back copied cs p a i e m f = absurd (omega arith)
  chunk-At (c ∷ h) (y ∷ d) (x ∷ old) back copied cs p a i e m f =
      chunk_header-At n b modulus capacity Q 0 (suc (length d)) c h copied ((x ∷ old) ++ back)
        (y ∷ d ++ crlf cs) p a i.is_size
        (λ q a'.
          data-At n b modulus capacity Q x y d old back (c ∷ h) copied (crlf cs) q
            (subst (λ s. At s n b (suc (length d)) (c ∷ h) copied ((x ∷ old) ++ back) q)
              (next_state-suc n b modulus capacity Q (length d)) a')
            (omega (arith, e)) (omega (arith, i.below)) m
            (λ q' a''.
              trailer-At n b modulus capacity Q (c ∷ h) (copied ++ (y ∷ d)) back cs q' a'' f))

  pub chunks-At :
      (ds : List (List ℕ × List ℕ)) (old back copied cs : List ℕ) (p : Parser)
      → At chunk_header n b 0 [] copied (old ++ back) p
      → AreChunks modulus ds
      → length old ≡ length (chunks_data ds)
      → length copied + length (chunks_data ds) ≤ capacity
      → ((q : Parser)
          → At chunk_header n b 0 [] (copied ++ chunks_data ds) back q
          → Holds Q (feed modulus capacity q cs))
      → Holds Q (feed modulus capacity p (chunks ds cs))
  chunks-At [] [] back copied cs p a i e m f =
      f p (subst (λ x. At chunk_header n b 0 [] x back p) (sym (append-nil copied)) a)
  chunks-At [] (x ∷ old) back copied cs p a i e m f = absurd (omega arith)
  chunks-At ((h, d) ∷ ds) old back copied cs p a i e m f =
      let (front, behind, cut, size) =
        split_at (length d) old (omega (arith, e, length-append d (chunks_data ds))) in
      chunk-At h d front (behind ++ back) copied (chunks ds cs) p
        (subst (λ x. At chunk_header n b 0 [] copied x p)
          (ap (λ x. x ++ back) cut ∙ append_assoc front behind back) a)
        i.0 size (omega (arith, m, length-append d (chunks_data ds)))
        (λ q a'.
          chunks-At ds behind back (copied ++ d) cs q a' i.1
            (omega (
              arith,
              e,
              size,
              ap length cut,
              length-append d (chunks_data ds),
              length-append front behind,
            ))
            (omega (arith, m, length-append d (chunks_data ds), length-append copied d))
            (λ q' a''. f q' (
              subst (λ x. At chunk_header n b 0 [] x back q')
                (append_assoc copied d (chunks_data ds)) a'')))

  -- The last chunk has no data.
  pub last-At :
      (h copied rest cs : List ℕ) (p : Parser)
      → At chunk_header n b 0 [] copied rest p
      → IsSize modulus h 0
      → ((q : Parser) → At finished n b 0 h copied rest q → Holds Q (feed modulus capacity q cs))
      → Holds Q (feed modulus capacity p (h ++ crlf cs))
  last-At [] copied rest cs p a i f = absurd (i.0.0 refl)
  last-At (c ∷ h) copied rest cs p a i f =
      chunk_header-At n b modulus capacity Q 0 0 c h copied rest cs p a i f
