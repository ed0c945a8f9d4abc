-- ===== src/Http/Header.antt =====
-- CHTTPClient::Request: the header of the response.
use circle_stdlib.Common.{
  ℕ, suc, ◌+◌, ◌<◌, ◌≡◌, ◌≢◌, refl, sym, ap, ◌∙◌, subst, Bool, true, false, ◌||◌, List, [], ◌∷◌,
  ◌++◌, length, All, arith, if◌then◌else◌, ne→==, eq→==, Holds, Holds-mono,
}
use circle_stdlib.Common.Chars.Tokens.{IsNonzero}
use circle_stdlib.Mqtt.{u32_mod}
use circle_stdlib.Http.{max_request_line}
use circle_stdlib.Http.Response.{
  header, chunk_header, content, Parser, Outcome, step_in, feed, end_line,
}
use circle_stdlib.Http.Lines.{names_chunked, is_accepted}
use circle_stdlib.Http.Ends.{Continues, end_line-accepted, end_line-option}
use circle_stdlib.Http.Flow.{At, Goes, step-Goes, IsPlain, line-At}

abbrev pub crlf : List ℕ → List ℕ
crlf cs = b'\r' ∷ b'\n' ∷ cs

-- A line that fits in `Line`.
abbrev pub IsLine : List ℕ → Type 0
IsLine t = (t ≢ []) × All IsPlain t × (length t < max_request_line)

pub plain-IsNonzero : (t : List ℕ) → All IsPlain t → All IsNonzero t
plain-IsNonzero [] a = tt
plain-IsNonzero (c ∷ t) a = (a.0.0, plain-IsNonzero t a.1)

-- The lines of the options, each with its end.
abbrev pub lines : List (List ℕ) → List ℕ → List ℕ
lines [] cs = cs
lines (t ∷ ts) cs = t ++ crlf (lines ts cs)

-- Whether one of the options names the chunked coding.
abbrev pub any_chunked : List (List ℕ) → Bool
any_chunked [] = false
any_chunked (t ∷ ts) = names_chunked t || any_chunked ts

or_false : (b : Bool) → b ≡ (b || false)
or_false true = refl
or_false false = refl

or_assoc : (a b c : Bool) → ((a || b) || c) ≡ (a || (b || c))
or_assoc true b c = refl
or_assoc false b c = refl

module _ (modulus capacity k : ℕ) (copied rest : List ℕ) where
  abbrev pub In : ℕ → Bool → List ℕ → Parser → Type 0
  In n b text = At header n b k text copied rest

  Continues-Goes :
      (p : Parser) (n n' : ℕ) (b b' : Bool) (text : List ℕ) (o : Outcome)
      → In n b text p
      → Continues p n' b' o
      → Goes (In n' b' []) o
  Continues-Goes p n n' b b' text o a (l, e, size, z) = subst (Goes (In n' b' [])) (sym e) (record {
    is_state = a.is_state;
    is_n_line = refl;
    is_chunked = refl;
    is_bytes = a.is_bytes;
    size = size ∙ a.size;
    is_n_char = refl;
    written = tt;
    is_n_length = a.is_n_length;
    is_buffer = a.is_buffer;
  })

  continued :
      (p : Parser) (n n' : ℕ) (b b' : Bool) (text : List ℕ)
      → In n b text p
      → Holds (Continues p n' b') (end_line modulus capacity p)
      → Holds (Goes (In n' b' [])) (end_line modulus capacity p)
  continued p n n' b b' text a =
      Holds-mono (Continues p n' b') (Goes (In n' b' [])) _
        (λ o. Continues-Goes p n n' b b' text o a)

  -- The end of a line that is not empty.
  pub ended_line :
      (P : Parser → Type 0) (Q : Outcome → Type 0) (n : ℕ) (b : Bool) (c : ℕ) (text cs : List ℕ)
      (p : Parser)
      → In n b (c ∷ text) p
      → Holds (Goes P) (end_line modulus capacity p)
      → ((q : Parser) → P q → Holds Q (feed modulus capacity q cs))
      → Holds Q (feed modulus capacity p (crlf cs))
  unfolding step_in
  ended_line P Q n b c text cs p a h f =
      step-Goes modulus capacity (λ q. q ≡ p) Q header p b'\r' (b'\n' ∷ cs) a.is_state refl
        (λ q e.
          subst (λ x. Holds Q (feed modulus capacity x (b'\n' ∷ cs))) (sym e)
            (step-Goes modulus capacity P Q header p b'\n' cs a.is_state
              (rw (ne→== p.n_char 0 (λ z. omega (arith, z, a.is_n_char))) h) f))

  -- The text of a line is followed by a zero when the line ends.
  pub status_line-At :
      (Q : Outcome → Type 0) (b : Bool) (t cs : List ℕ) (p : Parser)
      → In 0 b [] p
      → IsLine t
      → is_accepted t ≡ true
      → ((q : Parser) → In 1 b [] q → Holds Q (feed modulus capacity q cs))
      → Holds Q (feed modulus capacity p (t ++ crlf cs))
  status_line-At Q b [] cs p a l e f = absurd (l.0 refl)
  status_line-At Q b (c ∷ t) cs p a l e f =
      line-At modulus capacity header 0 b k copied rest Q (c ∷ t) [] (crlf cs) p tt a l.1
        (omega (arith, l.2))
        (λ q a'.
          ended_line (In 1 b []) Q 0 b c t cs q a'
            (continued q 0 1 b b (c ∷ t) a' (
              subst (λ x. Holds (Continues q 1 x) (end_line modulus capacity q)) a'.is_chunked
                (end_line-accepted modulus capacity q (c ∷ t) a'.written.0 a'.written.1
                  (plain-IsNonzero (c ∷ t) l.1) a'.is_n_line e)))
            f)

  option-At :
      (Q : Outcome → Type 0) (n : ℕ) (b : Bool) (t cs : List ℕ) (p : Parser)
      → In (suc n) b [] p
      → suc (suc n) < u32_mod
      → IsLine t
      → ((q : Parser)
          → In (suc (suc n)) (b || names_chunked t) [] q
          → Holds Q (feed modulus capacity q cs))
      → Holds Q (feed modulus capacity p (t ++ crlf cs))
  option-At Q n b [] cs p a h l f = absurd (l.0 refl)
  option-At Q n b (c ∷ t) cs p a h l f =
      line-At modulus capacity header (suc n) b k copied rest Q (c ∷ t) [] (crlf cs) p tt a l.1
        (omega (arith, l.2))
        (λ q a'.
          ended_line (In (suc (suc n)) (b || names_chunked (c ∷ t)) []) Q (suc n) b c t cs q a'
            (continued q (suc n) (suc (suc n)) b (b || names_chunked (c ∷ t)) (c ∷ t) a' (
              subst
                (λ x.
                  Holds (Continues q (suc (suc n)) (x || names_chunked (c ∷ t)))
                    (end_line modulus capacity q))
                a'.is_chunked
                (subst
                  (λ x.
                    Holds (Continues q x (q.chunked || names_chunked (c ∷ t)))
                      (end_line modulus capacity q))
                  (omega (arith, h, a'.is_n_line))
                  (end_line-option modulus capacity q (c ∷ t) a'.written.0 a'.written.1
                    (plain-IsNonzero (c ∷ t) l.1) (λ z. omega (arith, z, a'.is_n_line))))))
            f)

  pub options-At :
      (Q : Outcome → Type 0) (ts : List (List ℕ)) (n : ℕ) (b : Bool) (cs : List ℕ) (p : Parser)
      → In (suc n) b [] p
      → suc n + length ts < u32_mod
      → All IsLine ts
      → ((q : Parser) (m : ℕ)
          → In m (b || any_chunked ts) [] q
          → Holds Q (feed modulus capacity q cs))
      → Holds Q (feed modulus capacity p (lines ts cs))
  options-At Q [] n b cs p a h l f = f p (suc n) (subst (λ x. In (suc n) x [] p) (or_false b) a)
  options-At Q (t ∷ ts) n b cs p a h l f =
      option-At Q n b t (lines ts cs) p a (omega (arith, h)) l.0 (λ q a'.
        options-At Q ts (suc n) (b || names_chunked t) cs q a' (omega (arith, h)) l.1 (λ q' m a''.
          f q' m (subst (λ x. In m x [] q') (or_assoc b (names_chunked t) (any_chunked ts)) a'')))

  -- The empty line behind the header.
  pub blank-At :
      (Q : Outcome → Type 0) (n : ℕ) (b : Bool) (cs : List ℕ) (p : Parser)
      → In n b [] p
      → ((q : Parser)
          → At (if b then chunk_header else content) n b k [] copied rest q
          → Holds Q (feed modulus capacity q cs))
      → Holds Q (feed modulus capacity p (crlf cs))
  unfolding step_in
  blank-At Q n b cs p a f =
      step-Goes modulus capacity (λ q. q ≡ p) Q header p b'\r' (b'\n' ∷ cs) a.is_state refl
        (λ q e.
          subst (λ x. Holds Q (feed modulus capacity x (b'\n' ∷ cs))) (sym e)
            (step-Goes modulus capacity
              (At (if b then chunk_header else content) n b k [] copied rest) Q header p b'\n' cs
              a.is_state
              (rw (eq→== p.n_char 0 a.is_n_char) (record {
                is_state = ap (λ x. if x then chunk_header else content) a.is_chunked;
                is_n_line = a.is_n_line;
                is_chunked = a.is_chunked;
                is_bytes = a.is_bytes;
                size = a.size;
                is_n_char = refl;
                written = tt;
                is_n_length = a.is_n_length;
                is_buffer = a.is_buffer;
              }))
              f))
