-- ===== src/Http/ChunkHeader.antt =====
-- CHTTPClient::Request: the header of a chunk.
use circle_stdlib.Common.{
  ℕ, suc, ◌≡◌, refl, sym, subst, Bool, List, [], ◌∷◌, ◌++◌, some, length, arith, ge→ltb, ◌==◌,
  if◌then◌else◌, ne→==, Holds,
}
use circle_stdlib.Common.Chars.{c_string, strtoul}
use circle_stdlib.Common.Chars.Tokens.{c_string_lem}
use circle_stdlib.Http.Response.{
  State, chunk_header, chunk_data, finished, Parser, Outcome, going, step_in, feed,
  end_chunk_header,
}
use circle_stdlib.Http.Flow.{At, Goes, step-Goes, line-At}
use circle_stdlib.Http.Header.{crlf, IsLine, plain-IsNonzero}

-- The text `h` is the hexadecimal number `size`, with nothing behind it.
abbrev pub IsSize : ℕ → List ℕ → ℕ → Type 0
IsSize modulus h size = IsLine h × (strtoul modulus 16 h ≡ (size, length h))

module _ (n : ℕ) (b : Bool) (modulus capacity : ℕ) (Q : Outcome → Type 0) where
  -- What follows a carriage return, which changes nothing.
  pub return-At :
      (s : State) (p : Parser) (cs : List ℕ)
      → p.state ≡ s
      → step_in modulus capacity s p b'\r' ≡ some (going p)
      → Holds Q (feed modulus capacity p cs)
      → Holds Q (feed modulus capacity p (b'\r' ∷ cs))
  return-At s p cs e h f =
      step-Goes modulus capacity (λ q. q ≡ p) Q s p b'\r' cs e (rw h refl)
        (λ q i. subst (λ x. Holds Q (feed modulus capacity x cs)) (sym i) f)

  abbrev pub next_state : ℕ → State
  next_state size = if size == 0 then finished else chunk_data

  pub next_state-suc : (m : ℕ) → next_state (suc m) ≡ chunk_data
  next_state-suc m = rw (ne→== (suc m) 0 (λ e. omega arith)) refl

  end_chunk_header-At :
      (k size c : ℕ) (h copied rest : List ℕ) (q : Parser)
      → At chunk_header n b k (c ∷ h) copied rest q
      → IsSize modulus (c ∷ h) size
      → Holds
          (Goes (At (next_state size) n b size (c ∷ h) copied rest))
          (end_chunk_header modulus capacity q)
  unfolding end_chunk_header
  end_chunk_header-At k size c h copied rest q a i =
      let text : c_string q.line ≡ some (c ∷ h) =
        rw (a.written.1) (c_string_lem (c ∷ h) a.written.0 (plain-IsNonzero (c ∷ h) i.0.1)) in
      rw text (
        rw (i.1, ge→ltb (length (c ∷ h)) (length (c ∷ h)) (omega arith))
          (record {
            is_state = refl;
            is_n_line = a.is_n_line;
            is_chunked = a.is_chunked;
            is_bytes = refl;
            size = a.size;
            is_n_char = a.is_n_char;
            written = a.written;
            is_n_length = a.is_n_length;
            is_buffer = a.is_buffer;
          }))

  pub chunk_header-At :
      (k size c : ℕ) (h copied rest cs : List ℕ) (p : Parser)
      → At chunk_header n b k [] copied rest p
      → IsSize modulus (c ∷ h) size
      → ((q : Parser)
          → At (next_state size) n b size (c ∷ h) copied rest q
          → Holds Q (feed modulus capacity q cs))
      → Holds Q (feed modulus capacity p ((c ∷ h) ++ crlf cs))
  unfolding step_in
  chunk_header-At k size c h copied rest cs p a i f =
      line-At modulus capacity chunk_header n b k copied rest Q (c ∷ h) [] (crlf cs) p tt a i.0.1
        (omega (arith, i.0.2))
        (λ q a'. return-At chunk_header q (b'\n' ∷ cs) a'.is_state refl (
          step-Goes modulus capacity (At (next_state size) n b size (c ∷ h) copied rest) Q
            chunk_header q b'\n' cs a'.is_state (end_chunk_header-At k size c h copied rest q a' i)
            f))
