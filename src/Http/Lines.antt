-- ===== src/Http/Lines.antt =====
-- CHTTPClient::Request: what a line of the header says, against functions on its text.
use circle_stdlib.Common.{
  ℕ, ◌≡◌, ◌≢◌, refl, sym, ap, ◌∙◌, subst, inl, inr, Bool, true, false, ◌&&◌, List, [], ◌∷◌, ◌++◌,
  Option, none, some, length, drop, All, if◌then◌else◌, Bool-cases, Holds, Holds-then, Holds-else,
}
use circle_stdlib.Common.Chars.{codes, c_string, equal, equal_nocase}
use circle_stdlib.Common.Chars.Tokens.{IsNonzero}
use circle_stdlib.Common.Chars.Strtok.{
  cut_token, strtok_r_lem, nothing, something, strtok-Found, HasZero,
}
use circle_stdlib.Http.Response.{
  StatusLine, accepted, rejected, status_code, status_version, status_line, option_value,
  option_line,
}

-- Whether a line of the header says that the content is sent in chunks.
abbrev pub names_chunked : List ℕ → Bool
names_chunked t =
    let (name, value) = cut_token (codes ": ") t in
    equal_nocase name (codes "Transfer-Encoding")
    && equal_nocase (cut_token (codes " ") value).0 (codes "chunked")

empty-equal_nocase :
    (name : List ℕ) (c : ℕ) (cs : List ℕ) → name ≡ [] → equal_nocase name (c ∷ cs) ≡ false
unfolding equal equal_nocase
empty-equal_nocase name c cs e = rw e refl

-- The values of a conjunction.
and-false : (a b : Bool) → a ≡ false → false ≡ (a && b)
and-false a b e = rw e refl

and-true : (a b c : Bool) → a ≡ true → c ≡ b → c ≡ (a && b)
and-true a b c e f = rw e f

-- The value of the option, once its name is read.
value-Holds :
    (value b after l mem : List ℕ) (s : ℕ) (named : Bool)
    → named ≡ true
    → s ≡ length b
    → l ≡ b ++ (value ++ (0 ∷ after))
    → All IsNonzero value
    → length l ≡ length mem
    → Holds
        (λ r.
          (r.0 ≡ (named && equal_nocase (cut_token (codes " ") value).0 (codes "chunked")))
          × (length r.1 ≡ length mem)
          × HasZero r.1)
        (option_value l s)
unfolding option_value
value-Holds value b after l mem s named v e f z k =
    elim (strtok-Found _ _ after l _ (strtok_r_lem (codes " ") refl b value after l s e f z)) [
      | nothing s' l' r n o k' zl ↦
          rw r (and-true named _ false v (sym (empty-equal_nocase _ _ _ n)), k' ∙ k, zl)
      | something a s' l' b' r n c k' sb lb y zl ↦ rw (r, c) (and-true named _ _ v refl, k' ∙ k, zl)
    ]

pub option_line_lem :
    (t after mem : List ℕ)
    → mem ≡ t ++ (0 ∷ after)
    → All IsNonzero t
    → Holds
        (λ r. (r.0 ≡ names_chunked t) × (length r.1 ≡ length mem) × HasZero r.1)
        (option_line mem)
unfolding option_line
option_line_lem t after mem e z =
    let name : List ℕ = (cut_token (codes ": ") t).0 in
    let value : List ℕ = (cut_token (codes ": ") t).1 in
    let P : Bool × List ℕ → Type 0 =
      λ r. (r.0 ≡ names_chunked t) × (length r.1 ≡ length mem) × HasZero r.1 in
    let named : Bool = equal_nocase name (codes "Transfer-Encoding") in
    elim (strtok-Found name value after mem _
      (strtok_r_lem (codes ": ") refl [] t after mem 0 refl e z)) [
        | nothing s l r n o k zl ↦ rw r (and-false named _ (empty-equal_nocase name _ _ n), k, zl)
        | something a s l b r n c k sb lb y zl ↦
            rw (r, c)
              (elim (Bool-cases named) [
                | inl v ↦
                    Holds-then P named _ _ v (value-Holds value b after l mem s named v sb lb y k)
                | inr v ↦ Holds-else P named _ _ v (and-false named _ v, k, zl)
              ])
      ]

-- The word that decides about a status line: the third token of the line or, if the line names another
-- protocol, the first.
abbrev pub status_word : List ℕ → List ℕ
status_word t =
    let (protocol, rest) = cut_token (codes "/") t in
    let (version, rest') = cut_token (codes " ") rest in
    if equal protocol (codes "HTTP") then (cut_token (codes " ") rest').0 else protocol

abbrev pub is_accepted : List ℕ → Bool
is_accepted t =
    equal (cut_token (codes "/") t).0 (codes "HTTP") && equal (status_word t) (codes "200")

-- What the tests of the status line give for a word that decides.
abbrev pub Judged : Bool → List ℕ → ℕ → StatusLine → Type 0
Judged b word n (accepted l) = (b ≡ true) × (length l ≡ n) × HasZero l
Judged b word n (rejected none l) = (b ≡ false) × (word ≡ [])
Judged b word n (rejected (some a) l) =
    (b ≡ false) × (word ≢ []) × (c_string (drop a l) ≡ some word)

empty-equal : (word : List ℕ) (c : ℕ) (cs : List ℕ) → word ≡ [] → equal word (c ∷ cs) ≡ false
unfolding equal
empty-equal word c cs e = rw e refl

-- The third token.
code-Judged :
    (value b after l : List ℕ) (s n : ℕ)
    → s ≡ length b
    → l ≡ b ++ (value ++ (0 ∷ after))
    → All IsNonzero value
    → length l ≡ n
    → Holds
        (Judged
          (equal (cut_token (codes " ") value).0 (codes "200"))
          (cut_token (codes " ") value).0
          n)
        (status_code l s)
unfolding status_code
code-Judged value b after l s n e f z k =
    elim (strtok-Found _ _ after l _ (strtok_r_lem (codes " ") refl b value after l s e f z)) [
      | nothing s' l' r w o k' zl ↦ rw r (empty-equal _ _ _ w, w)
      | something a s' l' b' r w c k' sb lb y zl ↦
          rw (r, c)
            (elim (Bool-cases (equal (cut_token (codes " ") value).0 (codes "200"))) [
              | inl v ↦ rw v (refl, k' ∙ k, zl)
              | inr v ↦ rw v (refl, w, c)
            ])
    ]

no_code : (rest : List ℕ) → rest ≡ [] → (cut_token (codes " ") rest).0 ≡ []
no_code rest e = rw e refl

version-Judged :
    (value b after l : List ℕ) (s n : ℕ)
    → s ≡ length b
    → l ≡ b ++ (value ++ (0 ∷ after))
    → All IsNonzero value
    → length l ≡ n
    → Holds
        (Judged
          (equal (cut_token (codes " ") (cut_token (codes " ") value).1).0 (codes "200"))
          (cut_token (codes " ") (cut_token (codes " ") value).1).0
          n)
        (status_version l s)
unfolding status_version
version-Judged value b after l s n e f z k =
    let rest : List ℕ = (cut_token (codes " ") value).1 in
    elim (strtok-Found _ rest after l _ (strtok_r_lem (codes " ") refl b value after l s e f z)) [
      | nothing s' l' r w o k' zl ↦ rw r (empty-equal _ _ _ (no_code rest o), no_code rest o)
      | something a s' l' b' r w c k' sb lb y zl ↦
          rw r (code-Judged rest b' after l' s' n sb lb y (k' ∙ k))
    ]

Judged-cong :
    (b b' : Bool) (word word' : List ℕ) (n : ℕ) (m : Option StatusLine)
    → b ≡ b'
    → word ≡ word'
    → Holds (Judged b word n) m
    → Holds (Judged b' word' n) m
Judged-cong b b' word word' n m e f h =
    subst (λ x. Holds (Judged x word' n) m) e (subst (λ x. Holds (Judged b x n) m) f h)

chosen-then : (b : Bool) (x y : List ℕ) → b ≡ true → (if b then x else y) ≡ x
chosen-then b x y e = rw e refl

chosen-else : (b : Bool) (x y : List ℕ) → b ≡ false → (if b then x else y) ≡ y
chosen-else b x y e = rw e refl

pub status_line_lem :
    (t after mem : List ℕ)
    → mem ≡ t ++ (0 ∷ after)
    → All IsNonzero t
    → Holds (Judged (is_accepted t) (status_word t) (length mem)) (status_line mem)
unfolding status_line
status_line_lem t after mem e z =
    let name : List ℕ = (cut_token (codes "/") t).0 in
    let value : List ℕ = (cut_token (codes "/") t).1 in
    let code : List ℕ = (cut_token (codes " ") (cut_token (codes " ") value).1).0 in
    let P : StatusLine → Type 0 = Judged (is_accepted t) (status_word t) (length mem) in
    let named : Bool = equal name (codes "HTTP") in
    elim (strtok-Found name value after mem _
      (strtok_r_lem (codes "/") refl [] t after mem 0 refl e z)) [
        | nothing s l r w o k zl ↦ rw r (
          sym (and-false named _ (empty-equal name _ _ w)),
          chosen-else named code name (empty-equal name _ _ w) ∙ w,
        )
        | something a s l b r w c k sb lb y zl ↦
            rw (r, c)
              (elim (Bool-cases named) [
                | inl v ↦ Holds-then P named _ _ v (
                    let q : code ≡ status_word t = sym (chosen-then named code name v) in
                    Judged-cong _ _ code (status_word t) (length mem) _
                      (and-true named _ _ v (ap (λ x. equal x (codes "200")) q)) q
                      (version-Judged value b after l s (length mem) sb lb y k))
                | inr v ↦ Holds-else P named _ _ v (
                    let q : status_word t ≡ name = chosen-else named code name v in
                    (sym (and-false named _ v), λ x. w (sym q ∙ x), c ∙ ap some (sym q)))
              ])
      ]
