-- ===== src/Http/Safety.antt =====
-- CHTTPClient::Request: any bytes behind the status line.
use circle_stdlib.Common.{
  ℕ, zero, suc, ◌+◌, ◌-◌, ◌%◌, ◌≤◌, ◌<◌, ◌≡◌, sym, ap, ◌∙◌, subst, inl, inr, ◌||◌, List, [], ◌∷◌,
  ◌++◌, append_assoc, Option, some, length, length-append, length-take, length-drop, take, drop,
  get_elem?, get_elem?-append, All, ◌>>=◌, arith, le→leb, gt→leb, ltb, lt→ltb, ge→ltb, ◌==◌,
  if◌then◌else◌, dec_lt, dec_le, ℕ_discrete, Bool-cases, Holds, Holds->>=, Holds-known, Holds-mono,
  Holds-then, Holds-else, copy_in, copy_in-All,
}
use native.Mathlib.Nat.{mod-eq_of_lt}
use circle_stdlib.Common.Chars.{c_string, strtoul}
use circle_stdlib.Common.Chars.Tokens.{IsNonzero, c_string_lem}
use circle_stdlib.Common.Chars.Strtok.{HasZero}
use circle_stdlib.Mqtt.{u32_mod}
use circle_stdlib.Http.{max_request_line}
use circle_stdlib.Http.Response.{
  State, header, content, chunk_header, chunk_data, chunk_trailer, finished, Parser, Outcome, going,
  stopped, accumulate, copy_char, end_line, end_chunk_header, step_in,
}
use circle_stdlib.Http.Lines.{names_chunked}
use circle_stdlib.Http.Ends.{Continues, end_line-option}

-- The text in front of the first zero.
first_zero :
    (l : List ℕ) → HasZero l → (t after : List ℕ) × (l ≡ t ++ (0 ∷ after)) × All IsNonzero t
first_zero [] (i, e) = cc
first_zero (c ∷ l) (i, e) = elim (ℕ_discrete c 0) [
  | yes z ↦ ([], l, ap (λ x. x ∷ l) z, tt)
  | no z ↦
      elim i
          as (λ i.
            get_elem? (c ∷ l) i ≡ some 0
            → (t after : List ℕ) × (c ∷ l ≡ t ++ (0 ∷ after)) × All IsNonzero t) [
              | zero ↦ λ e. let q : c ≡ 0 = cc in absurd (z q)
              | suc j ↦ λ e.
                  let (t, after, q, a) = first_zero l (j, e) in (c ∷ t, after, ap (◌∷◌ c) q, (z, a))
            ]
        e
]

-- A parser behind the status line, before at most `k` more lines.
pub record Safe (capacity buffer_size k : ℕ) (p : Parser) : Type 0 where
  pub size : length p.line ≡ max_request_line
  pub char_fits : p.n_char < max_request_line
  pub length_fits : p.n_length ≤ capacity
  pub room : length p.buffer ≡ buffer_size
  pub counted : 1 ≤ p.n_line
  pub lines_left : p.n_line + k < u32_mod
  pub zero_in_line : HasZero p.line

abbrev pub SafeEnd : ℕ → ℕ → ℕ → Outcome → Type 0
SafeEnd capacity buffer_size k (going q) = Safe capacity buffer_size k q
SafeEnd capacity buffer_size k (stopped s b) = length b ≡ buffer_size

-- A write of a character and a zero.
write_two :
    (l : List ℕ) (n c : ℕ)
    → n + 2 ≤ length l
    → Holds (λ l'. (length l' ≡ length l) × HasZero l') (copy_in l n (c ∷ 0 ∷ []))
unfolding copy_in
write_two l n c h = rw (le→leb (n + 2) (length l) h) (
  omega (
    arith,
    h,
    length-append (take n l) (c ∷ 0 ∷ drop (n + 2) l),
    length-take n l,
    length-drop (n + 2) l,
  ),
  (
    n + 1,
    rw (← append_assoc (take n l) (c ∷ []) (0 ∷ drop (n + 2) l)) (
        get_elem?-append (n + 1) (take n l ++ (c ∷ [])) 0 (drop (n + 2) l)
          (omega (arith, h, length-append (take n l) (c ∷ []), length-take n l))),
  ),
)

module _ (modulus capacity buffer_size k : ℕ) (wide : capacity ≤ buffer_size) where
  abbrev Ok : Parser → Type 0
  Ok = Safe capacity buffer_size k

  abbrev OkEnd : Outcome → Type 0
  OkEnd = SafeEnd capacity buffer_size k

  accumulate-Safe : (p : Parser) (c : ℕ) → Ok p → Holds Ok (accumulate p c)
  unfolding accumulate
  accumulate-Safe p c a = elim (dec_lt p.n_char (max_request_line - 1)) [
    | no f ↦ Holds-else Ok _ _ _ (ge→ltb p.n_char (max_request_line - 1) (omega (arith, f))) a
    | yes f ↦ Holds-then Ok _ _ _ (lt→ltb p.n_char (max_request_line - 1) f) (
        Holds->>= (λ l. (length l ≡ length p.line) × HasZero l) Ok
          (copy_in p.line p.n_char (c ∷ 0 ∷ [])) _
          (write_two p.line p.n_char c (omega (arith, f, a.size)))
          (λ l h. record {
            size = h.0 ∙ a.size;
            char_fits = omega (arith, f);
            length_fits = a.length_fits;
            room = a.room;
            counted = a.counted;
            lines_left = a.lines_left;
            zero_in_line = h.1;
          }))
  ]

  copy_char-Safe : (p : Parser) (c : ℕ) → Ok p → p.n_length < capacity → Holds Ok (copy_char p c)
  unfolding copy_char
  copy_char-Safe p c a f =
      Holds->>= (λ l. Unit {0} × (length l ≡ length p.buffer)) Ok
        (copy_in p.buffer p.n_length (c ∷ [])) _
        (Holds-mono _ (λ l. Unit {0} × (length l ≡ length p.buffer)) _ (λ l h. (tt, h.1))
          (copy_in-All (λ _. Unit {0}) p.buffer (c ∷ []) p.n_length (all_unit p.buffer) (tt, tt)
            (omega (arith, f, wide, a.room))))
        (λ l h. record {
          size = a.size;
          char_fits = a.char_fits;
          length_fits = omega (arith, f);
          room = h.1 ∙ a.room;
          counted = a.counted;
          lines_left = a.lines_left;
          zero_in_line = a.zero_in_line;
        })
    where
      all_unit : (l : List ℕ) → All (λ _. Unit {0}) l
      all_unit [] = tt
      all_unit (x ∷ l) = (tt, all_unit l)

  weaken : (p : Parser) → Safe capacity buffer_size (suc k) p → Ok p
  weaken p a = record {
    size = a.size;
    char_fits = a.char_fits;
    length_fits = a.length_fits;
    room = a.room;
    counted = a.counted;
    lines_left = omega (arith, a.lines_left);
    zero_in_line = a.zero_in_line;
  }

  -- Another state and another number of bytes, at the start of a line or in one.
  moved :
      (p : Parser) (s : State) (n m : ℕ)
      → Ok p
      → n < max_request_line
      → Ok (record p { state = s; n_char = n; bytes = m })
  moved p s n m a h = record {
    size = a.size;
    char_fits = h;
    length_fits = a.length_fits;
    room = a.room;
    counted = a.counted;
    lines_left = a.lines_left;
    zero_in_line = a.zero_in_line;
  }

  end_line-Safe :
      (p : Parser) → Safe capacity buffer_size (suc k) p → Holds OkEnd (end_line modulus capacity p)
  end_line-Safe p a =
      let (t, after, e, z) = first_zero p.line a.zero_in_line in
      Holds-mono (Continues p ((p.n_line + 1) % u32_mod) (p.chunked || names_chunked t)) OkEnd _
        (λ o h. subst OkEnd (sym h.1) (record {
          size = h.2 ∙ a.size;
          char_fits = omega arith;
          length_fits = a.length_fits;
          room = a.room;
          counted = omega (arith, mod-eq_of_lt (the_bound p a));
          lines_left = omega (arith, a.lines_left, mod-eq_of_lt (the_bound p a));
          zero_in_line = h.3;
        }))
        (end_line-option modulus capacity p t after e z (λ q. omega (arith, q, a.counted)))
    where
      the_bound : (p : Parser) → Safe capacity buffer_size (suc k) p → p.n_line + 1 < u32_mod
      the_bound p a = omega (arith, a.lines_left)

  end_chunk_header-Safe : (p : Parser) → Ok p → Holds OkEnd (end_chunk_header modulus capacity p)
  unfolding end_chunk_header
  end_chunk_header-Safe p a =
      let (t, after, e, z) = first_zero p.line a.zero_in_line in
      let text : c_string p.line ≡ some t = ap c_string e ∙ c_string_lem t after z in
      Holds-known OkEnd (c_string p.line) t _ text
        (elim (Bool-cases (ltb (strtoul modulus 16 t).1 (length t))) [
          | inl f ↦ rw f (a.room)
          | inr f ↦ rw f (moved p _ p.n_char _ a a.char_fits)
        ])

  -- The test for the line ends.
  by_character :
      (c : ℕ) (m₁ m₂ m₃ : Option Outcome)
      → Holds OkEnd m₁
      → Holds OkEnd m₂
      → Holds OkEnd m₃
      → Holds OkEnd (if c == b'\r' then m₁ else if c == b'\n' then m₂ else m₃)
  by_character c m₁ m₂ m₃ h₁ h₂ h₃ = elim (Bool-cases (c == b'\r')) [
    | inl e ↦ Holds-then OkEnd _ _ _ e h₁
    | inr e ↦ Holds-else OkEnd _ _ _ e (elim (Bool-cases (c == b'\n')) [
      | inl f ↦ Holds-then OkEnd _ _ _ f h₂
      | inr f ↦ Holds-else OkEnd _ _ _ f h₃
    ])
  ]

  accumulated : (p : Parser) (c : ℕ) → Ok p → Holds OkEnd (accumulate p c >>= λ q. some (going q))
  accumulated p c a = Holds->>= Ok OkEnd (accumulate p c) _ (accumulate-Safe p c a) (λ q h. h)

  pub step_in-Safe :
      (s : State) (p : Parser) (c : ℕ)
      → Safe capacity buffer_size (suc k) p
      → Holds OkEnd (step_in modulus capacity s p c)
  unfolding step_in
  step_in-Safe header p c a =
      by_character c _ _ _ (weaken p a)
        (elim (Bool-cases (p.n_char == 0)) [
          | inl g ↦ Holds-then OkEnd _ _ _ g (moved p _ 0 p.bytes (weaken p a) (omega arith))
          | inr g ↦ Holds-else OkEnd _ _ _ g (end_line-Safe p a)
        ])
        (accumulated p c (weaken p a))
  step_in-Safe content p c a = elim (dec_le capacity p.n_length) [
    | yes f ↦ Holds-then OkEnd _ _ _ (le→leb capacity p.n_length f) (a.room)
    | no f ↦ Holds-else OkEnd _ _ _ (gt→leb capacity p.n_length (omega (arith, f))) (
        Holds->>= Ok OkEnd (copy_char p c) _ (copy_char-Safe p c (weaken p a) (omega (arith, f)))
          (λ q h. h))
  ]
  step_in-Safe chunk_header p c a =
      by_character c _ _ _ (weaken p a) (end_chunk_header-Safe p (weaken p a))
        (accumulated p c (weaken p a))
  step_in-Safe chunk_data p c a = elim (dec_le capacity p.n_length) [
    | yes f ↦ Holds-then OkEnd _ _ _ (le→leb capacity p.n_length f) (a.room)
    | no f ↦ Holds-else OkEnd _ _ _ (gt→leb capacity p.n_length (omega (arith, f))) (
        Holds->>= Ok OkEnd (copy_char p c) _ (copy_char-Safe p c (weaken p a) (omega (arith, f)))
          (λ q h. moved q _ q.n_char _ h h.char_fits))
  ]
  step_in-Safe chunk_trailer p c a =
      by_character c _ _ _ (weaken p a) (moved p chunk_header 0 p.bytes (weaken p a) (omega arith))
        (a.room)
  step_in-Safe finished p c a = weaken p a
