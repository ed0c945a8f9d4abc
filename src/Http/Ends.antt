-- ===== src/Http/Ends.antt =====
-- CHTTPClient::Request: the ends of the lines of the response.
use circle_stdlib.Common.{
  ℕ, ◌+◌, ◌%◌, ◌≡◌, ◌≢◌, refl, sym, ap, ◌∙◌, Bool, true, false, ◌||◌, List, [], ◌∷◌, ◌++◌, Option,
  none, some, length, All, ltb, ◌==◌, if◌then◌else◌, ne→==, eq→==, Holds, Holds-result,
}
use circle_stdlib.Common.Chars.{strtoul}
use circle_stdlib.Common.Chars.Tokens.{IsNonzero}
use circle_stdlib.Common.Chars.Strtok.{HasZero}
use circle_stdlib.Mqtt.{u32_mod}
use circle_stdlib.Http.{http_invalid_response_code}
use circle_stdlib.Http.Response.{
  Parser, Outcome, going, stopped, StatusLine, accepted, rejected, status_line, option_line,
  rejected_status, end_line,
}
use circle_stdlib.Http.Lines.{
  names_chunked, option_line_lem, status_word, is_accepted, Judged, status_line_lem,
}

-- The status for the word of a status line.
abbrev pub word_status : ℕ → List ℕ → ℕ
word_status modulus word =
    let (status, used) = strtoul modulus 10 word in
    if ltb used (length word) then http_invalid_response_code else status % u32_mod

-- What a rejected status line leads to. There is no word when the line has too few tokens: `strtoul` is
-- called with a null pointer.
abbrev pub rejection : ℕ → List ℕ → List ℕ → Option Outcome
rejection modulus buffer [] = none
rejection modulus buffer (c ∷ word) = some (stopped (word_status modulus (c ∷ word)) buffer)

-- The parser goes on behind the line.
abbrev pub Continues : Parser → ℕ → Bool → Outcome → Type 0
Continues p n chunked o =
    (line : List ℕ) × (o
      ≡ going (record p { line = line; chunked = chunked; n_line = n; n_char = 0 }))
    × (length line ≡ length p.line)
    × HasZero line

false_not_true : false ≡ true → ⊥
false_not_true e = cc

module _ (modulus capacity : ℕ) (p : Parser) (t after : List ℕ) (e : p.line ≡ t ++ (0 ∷ after))
    (z : All IsNonzero t) where
  nonempty-rejection :
      (word buffer : List ℕ)
      → word ≢ []
      → some (stopped (word_status modulus word) buffer) ≡ rejection modulus buffer word
  nonempty-rejection [] buffer n = absurd (n refl)
  nonempty-rejection (c ∷ word) buffer n = refl

  empty-rejection : (word buffer : List ℕ) → word ≡ [] → none ≡ rejection modulus buffer word
  empty-rejection word buffer n = rw n refl

  -- What the tests of the status line give.
  end_line-Judged :
      (s : StatusLine)
      → is_accepted t ≡ false
      → status_line p.line ≡ some s
      → Judged (is_accepted t) (status_word t) (length p.line) s
      → (p.n_line == 0) ≡ true
      → end_line modulus capacity p ≡ rejection modulus p.buffer (status_word t)
  unfolding end_line rejected_status
  end_line-Judged (accepted l) f r j n = absurd (false_not_true (sym f ∙ j.0))
  end_line-Judged (rejected none l) f r j n =
      rw n (rw r (empty-rejection (status_word t) p.buffer j.1))
  end_line-Judged (rejected (some a) l) f r j n =
      rw n (rw (r, j.2) (nonempty-rejection (status_word t) p.buffer j.1))

  -- A line that is not accepted as the status line, with the text `t`: `Request` returns. The status is the
  -- value that `strtoul` gives for the deciding word of the line, which is the largest `unsigned long` for
  -- a greater number, cut to the 32 bits of the enumeration, or 551 if there is something behind the
  -- digits. The call faults if and only if there is no such word: the line names HTTP and has less than
  -- three tokens, or it has no token.
  pub end_line-rejected :
      p.n_line ≡ 0
      → is_accepted t ≡ false
      → end_line modulus capacity p ≡ rejection modulus p.buffer (status_word t)
  end_line-rejected n f =
      let (s, r, j) =
        Holds-result (Judged (is_accepted t) (status_word t) (length p.line)) (status_line p.line)
          (status_line_lem t after p.line e z) in
      end_line-Judged s f r j (eq→== p.n_line 0 n)

  end_line-Continues :
      (s : StatusLine)
      → is_accepted t ≡ true
      → status_line p.line ≡ some s
      → Judged (is_accepted t) (status_word t) (length p.line) s
      → (p.n_line == 0) ≡ true
      → Holds (Continues p 1 p.chunked) (end_line modulus capacity p)
  unfolding end_line
  end_line-Continues (accepted l) f r j n = rw n (rw r (l, refl, j.1, j.2))
  end_line-Continues (rejected none l) f r j n = absurd (false_not_true (sym j.0 ∙ f))
  end_line-Continues (rejected (some a) l) f r j n = absurd (false_not_true (sym j.0 ∙ f))

  -- An accepted status line.
  pub end_line-accepted :
      p.n_line ≡ 0
      → is_accepted t ≡ true
      → Holds (Continues p 1 p.chunked) (end_line modulus capacity p)
  end_line-accepted n f =
      let (s, r, j) =
        Holds-result (Judged (is_accepted t) (status_word t) (length p.line)) (status_line p.line)
          (status_line_lem t after p.line e z) in
      end_line-Continues s f r j (eq→== p.n_line 0 n)

  -- A line with an option.
  pub end_line-option :
      p.n_line ≢ 0
      → Holds
          (Continues p ((p.n_line + 1) % u32_mod) (p.chunked || names_chunked t))
          (end_line modulus capacity p)
  unfolding end_line
  end_line-option n =
      let (r, m, h) =
        Holds-result (λ r. (r.0 ≡ names_chunked t) × (length r.1 ≡ length p.line) × HasZero r.1)
          (option_line p.line) (option_line_lem t after p.line e z) in
      rw (ne→== p.n_line 0 n) (
        rw m (
          r.1,
          ap
              (λ b. going (record p {
                line = r.1;
                chunked = p.chunked || b;
                n_line = (p.n_line + 1) % u32_mod;
                n_char = 0;
              }))
              h.0,
          h.1,
          h.2,
        ))
