-- ===== src/Http/Flow.antt =====
-- CHTTPClient::Request: the state of the parser in a part of the response, and steps in sequence.
use circle_stdlib.Common.{
  ℕ, ◌+◌, ◌-◌, ◌<◌, ◌≡◌, ◌≢◌, refl, sym, ap, ◌∙◌, subst, Bool, List, [], ◌∷◌, ◌++◌, append_assoc,
  append-nil, Option, none, some, length, length-append, All, ◌>>=◌, arith, ne→==, lt→ltb, Holds,
  copy_in, copy_in_middle,
}
use circle_stdlib.Http.{max_request_line}
use circle_stdlib.Http.Response.{
  State, header, chunk_header, content, chunk_data, chunk_trailer, finished, Parser, Outcome, going,
  stopped, accumulate, step_in, feed,
}
use circle_stdlib.Http.Segments.{feed-append, continue}

-- The text stands in `Line`, with a zero behind it unless nothing was written.
abbrev pub Written : List ℕ → List ℕ → Type 0
Written [] line = Unit {0}
Written (c ∷ t) line = (after : List ℕ) × (line ≡ (c ∷ t) ++ (0 ∷ after))

-- The state: `nState`, `nLine`, `bChunked` and `nBytes`, the line read so far, the content copied to the
-- caller's buffer and what is behind it.
pub record At (s : State) (n : ℕ) (b : Bool) (k : ℕ) (text copied rest : List ℕ) (p : Parser)
    : Type 0 where
  pub is_state : p.state ≡ s
  pub is_n_line : p.n_line ≡ n
  pub is_chunked : p.chunked ≡ b
  pub is_bytes : p.bytes ≡ k
  pub size : length p.line ≡ max_request_line
  pub is_n_char : p.n_char ≡ length text
  pub written : Written text p.line
  pub is_n_length : p.n_length ≡ length copied
  pub is_buffer : p.buffer ≡ copied ++ rest

-- The parser goes on, in a state with the property.
abbrev pub Goes : (Parser → Type 0) → Outcome → Type 0
Goes P (going q) = P q
Goes P (stopped s b) = ⊥

module _ (modulus capacity : ℕ) (P : Parser → Type 0) (Q : Outcome → Type 0) where
  pub feed-Goes :
      (p : Parser) (xs ys : List ℕ)
      → Holds (Goes P) (feed modulus capacity p xs)
      → ((q : Parser) → P q → Holds Q (feed modulus capacity q ys))
      → Holds Q (feed modulus capacity p (xs ++ ys))
  feed-Goes p xs ys h k =
      subst (Holds Q) (sym (feed-append modulus capacity p xs ys))
        (follow (feed modulus capacity p xs) h)
    where
      follow :
          (m : Option Outcome) → Holds (Goes P) m → Holds Q (m >>= continue modulus capacity ys)
      follow none g = absurd g
      follow (some (going q)) g = k q g
      follow (some (stopped s b)) g = absurd g

  pub step-Goes :
      (s : State) (p : Parser) (c : ℕ) (cs : List ℕ)
      → p.state ≡ s
      → Holds (Goes P) (step_in modulus capacity s p c)
      → ((q : Parser) → P q → Holds Q (feed modulus capacity q cs))
      → Holds Q (feed modulus capacity p (c ∷ cs))
  unfolding feed
  step-Goes s p c cs e h k =
      subst (λ x. Holds Q (step_in modulus capacity x p c >>= continue modulus capacity cs)) (sym e)
        (follow (step_in modulus capacity s p c) h)
    where
      follow :
          (m : Option Outcome) → Holds (Goes P) m → Holds Q (m >>= continue modulus capacity cs)
      follow none g = absurd g
      follow (some (going q)) g = k q g
      follow (some (stopped x b)) g = absurd g

pub step-stops :
    (modulus capacity : ℕ) (Q : Outcome → Type 0) (s : State) (p : Parser) (c : ℕ) (cs : List ℕ)
    (status : ℕ) (buffer : List ℕ)
    → p.state ≡ s
    → step_in modulus capacity s p c ≡ some (stopped status buffer)
    → Q (stopped status buffer)
    → Holds Q (feed modulus capacity p (c ∷ cs))
unfolding feed
step-stops modulus capacity Q s p c cs status buffer e h q =
    subst (λ x. Holds Q (step_in modulus capacity x p c >>= continue modulus capacity cs)) (sym e)
      (rw h q)

pub Holds-going :
    (P : Parser → Type 0) (m : Option Parser)
    → Holds P m
    → Holds (Goes P) (m >>= λ q. some (going q))
Holds-going P none h = absurd h
Holds-going P (some q) h = h

-- A character of a line.
abbrev pub IsPlain : ℕ → Type 0
IsPlain c = (c ≢ 0) × (c ≢ b'\r') × (c ≢ b'\n')

-- `Line` after a character is written behind a text.
write_char :
    (text line : List ℕ) (c n : ℕ)
    → Written text line
    → n ≡ length text
    → length text + 1 < length line
    → (line' : List ℕ) × (copy_in line n (c ∷ 0 ∷ []) ≡ some line')
      × (length line' ≡ length line)
      × Written (text ++ (c ∷ [])) line'
write_char [] [] c n w e h = absurd (omega arith)
write_char [] (x ∷ []) c n w e h = absurd (omega arith)
write_char [] (x ∷ y ∷ back) c n w e h =
    (c ∷ 0 ∷ back, copy_in_middle n [] (x ∷ y ∷ []) (c ∷ 0 ∷ []) back e refl, refl, (back, refl))
write_char (a ∷ t) line c n ([], q) e h =
    absurd (omega (arith, ap length q, length-append (a ∷ t) (0 ∷ [])))
write_char (a ∷ t) line c n (y ∷ back, q) e h = (
  (a ∷ t) ++ (c ∷ 0 ∷ back),
  rw q (copy_in_middle n (a ∷ t) (0 ∷ y ∷ []) (c ∷ 0 ∷ []) back e refl),
  omega (
    arith,
    ap length q,
    length-append (a ∷ t) (0 ∷ y ∷ back),
    length-append (a ∷ t) (c ∷ 0 ∷ back),
  ),
  (back, sym (append_assoc (a ∷ t) (c ∷ []) (0 ∷ back))),
)

abbrev pub IsLineState : State → Type 0
IsLineState header = Unit {0}
IsLineState chunk_header = Unit {0}
IsLineState _ = ⊥

module _ (modulus capacity : ℕ) where
  plain-step :
      (s : State) (p : Parser) (c : ℕ)
      → IsLineState s
      → IsPlain c
      → step_in modulus capacity s p c ≡ (accumulate p c >>= λ q. some (going q))
  unfolding step_in
  plain-step header p c l a = simp (ne→== c b'\r' a.1, ne→== c b'\n' a.2)
  plain-step chunk_header p c l a = simp (ne→== c b'\r' a.1, ne→== c b'\n' a.2)
  plain-step content p c l a = absurd l
  plain-step chunk_data p c l a = absurd l
  plain-step chunk_trailer p c l a = absurd l
  plain-step finished p c l a = absurd l

  module _ (s : State) (n : ℕ) (b : Bool) (k : ℕ) (copied rest : List ℕ) where
    accumulate-At :
        (text : List ℕ) (p : Parser) (c : ℕ)
        → At s n b k text copied rest p
        → length text + 1 < max_request_line
        → Holds
            (Goes (At s n b k (text ++ (c ∷ [])) copied rest))
            (accumulate p c >>= λ q. some (going q))
    unfolding accumulate
    accumulate-At text p c a h =
        let (line, e, size, w) =
          write_char text p.line c p.n_char a.written a.is_n_char (omega (arith, h, a.size)) in
        rw (lt→ltb p.n_char (max_request_line - 1) (omega (arith, h, a.is_n_char)), e)
          (record {
            is_state = a.is_state;
            is_n_line = a.is_n_line;
            is_chunked = a.is_chunked;
            is_bytes = a.is_bytes;
            size = size ∙ a.size;
            is_n_char = omega (arith, a.is_n_char, length-append text (c ∷ []));
            written = w;
            is_n_length = a.is_n_length;
            is_buffer = a.is_buffer;
          })

    -- The characters of a line.
    pub line-At :
        (Q : Outcome → Type 0) (t text cs : List ℕ) (p : Parser)
        → IsLineState s
        → At s n b k text copied rest p
        → All IsPlain t
        → length text + length t < max_request_line
        → ((q : Parser)
            → At s n b k (text ++ t) copied rest q
            → Holds Q (feed modulus capacity q cs))
        → Holds Q (feed modulus capacity p (t ++ cs))
    line-At Q [] text cs p l a z h f =
        f p (subst (λ x. At s n b k x copied rest p) (sym (append-nil text)) a)
    line-At Q (c ∷ t) text cs p l a z h f =
        step-Goes modulus capacity (At s n b k (text ++ (c ∷ [])) copied rest) Q s p c (t ++ cs)
          a.is_state
          (subst (Holds (Goes (At s n b k (text ++ (c ∷ [])) copied rest)))
            (sym (plain-step s p c l z.0)) (accumulate-At text p c a (omega (arith, h))))
          (λ q a'.
            line-At Q t (text ++ (c ∷ [])) cs q l a' z.1
              (omega (arith, h, length-append text (c ∷ [])))
              (λ q' a''.
                f q' (subst (λ x. At s n b k x copied rest q') (append_assoc text (c ∷ []) t) a'')))
