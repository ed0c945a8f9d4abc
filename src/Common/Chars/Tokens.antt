-- ===== src/Common/Chars/Tokens.antt =====
-- The C strings in an array, and the elements in front of a text with a property.
use circle_stdlib.Common.{
  ℕ, ◌≡◌, ◌≢◌, refl, ap, inl, inr, Bool, true, false, List, [], ◌∷◌, ◌++◌, some, if◌then◌else◌,
  length, All, Bool-cases, ne→==,
}
use circle_stdlib.Common.Chars.{span, c_string}

abbrev pub IsNonzero : ℕ → Type 0
IsNonzero c = c ≢ 0

-- The elements in front with a property, and those behind.
abbrev pub take_while : (ℕ → Bool) → List ℕ → List ℕ
take_while f [] = []
take_while f (c ∷ cs) = let rest = take_while f cs in if f c then c ∷ rest else []

abbrev pub drop_while : (ℕ → Bool) → List ℕ → List ℕ
drop_while f [] = []
drop_while f (c ∷ cs) = let rest = drop_while f cs in if f c then rest else c ∷ cs

module _ (f : ℕ → Bool) where
  pub take-drop_while : (t : List ℕ) → take_while f t ++ drop_while f t ≡ t
  take-drop_while [] = refl
  take-drop_while (c ∷ cs) = elim (Bool-cases (f c)) [
    | inl e ↦ rw e (ap (◌∷◌ c) (take-drop_while cs))
    | inr e ↦ rw e refl
  ]

  abbrev pub Has : ℕ → Type 0
  Has c = f c ≡ true

  pub take_while-All : (t : List ℕ) → All Has (take_while f t)
  take_while-All [] = tt
  take_while-All (c ∷ cs) = elim (Bool-cases (f c)) [
    | inl e ↦ rw e (e, take_while-All cs)
    | inr e ↦ rw e tt
  ]

  -- What is behind is empty or begins with an element without the property.
  abbrev pub Stops : List ℕ → Type 0
  Stops [] = Unit {0}
  Stops (c ∷ cs) = f c ≡ false

  pub drop_while-Stops : (t : List ℕ) → Stops (drop_while f t)
  drop_while-Stops [] = tt
  drop_while-Stops (c ∷ cs) = elim (Bool-cases (f c)) [
    | inl e ↦ rw e (drop_while-Stops cs)
    | inr e ↦ rw e e
  ]

  pub span_lem :
      (front : List ℕ) (c : ℕ) (cs : List ℕ)
      → All Has front
      → f c ≡ false
      → span f (front ++ (c ∷ cs)) ≡ some (length front)
  unfolding span
  span_lem [] c cs a e = rw e refl
  span_lem (x ∷ front) c cs a e = rw (a.0, span_lem front c cs a.1 e) refl

pub c_string_lem : (t after : List ℕ) → All IsNonzero t → c_string (t ++ (0 ∷ after)) ≡ some t
unfolding c_string
c_string_lem [] after a = refl
c_string_lem (c ∷ t) after a = rw (ne→== c 0 a.0, c_string_lem t after a.1) refl
