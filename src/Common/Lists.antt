-- ===== src/Common/Lists.antt =====
-- Lists measured, indexed and cut by native numbers, under the library's names.
use Prim.Native.Nat.{ℕ, zero, suc, ◌+◌, ◌-◌, ◌≤◌, ◌<◌, min}
use mathlib.Core.Path.{◌≡◌, refl, sym, ap, ◌∙◌, subst}
use mathlib.Core.List.{List, [], ◌∷◌, ◌++◌}
use mathlib.Core.Option.{Option, none, some}
use native.Mathlib.Omega.{arith}

module _ {ℓ} {A : Type ℓ} where
  abbrev pub length : List A → ℕ
  length [] = 0
  length (x ∷ xs) = suc (length xs)

  abbrev pub get_elem? : List A → ℕ → Option A
  get_elem? [] i = none
  get_elem? (x ∷ xs) zero = some x
  get_elem? (x ∷ xs) (suc i) = get_elem? xs i

  abbrev pub take : ℕ → List A → List A
  take zero xs = []
  take (suc n) [] = []
  take (suc n) (x ∷ xs) = x ∷ take n xs

  abbrev pub drop : ℕ → List A → List A
  drop zero xs = xs
  drop (suc n) [] = []
  drop (suc n) (x ∷ xs) = drop n xs

  abbrev pub All {κ} : (A → Type κ) → List A → Type κ
  All P [] = Unit
  All P (x ∷ xs) = P x × All P xs

  pub length-append : (xs ys : List A) → length (xs ++ ys) ≡ length xs + length ys
  length-append [] ys = omega arith
  length-append (x ∷ xs) ys = omega (arith, length-append xs ys)

module _ {ℓ} {A : Type ℓ} where
  pub take-append-drop : (n : ℕ) (xs : List A) → take n xs ++ drop n xs ≡ xs
  take-append-drop zero xs = refl
  take-append-drop (suc n) [] = refl
  take-append-drop (suc n) (x ∷ xs) = rw (take-append-drop n xs)

  pub length-take : (n : ℕ) (xs : List A) → length (take n xs) ≡ min n (length xs)
  length-take zero xs = omega arith
  length-take (suc n) [] = omega arith
  length-take (suc n) (x ∷ xs) = omega (arith, length-take n xs)

  pub length-drop : (n : ℕ) (xs : List A) → length (drop n xs) ≡ length xs - n
  length-drop zero xs = omega arith
  length-drop (suc n) [] = omega arith
  length-drop (suc n) (x ∷ xs) = omega (arith, length-drop n xs)

  -- Cuts of an append, at the end of its first part.
  pub take-append : (n : ℕ) (xs ys : List A) → n ≡ length xs → take n (xs ++ ys) ≡ xs
  take-append zero [] ys h = refl
  take-append zero (x ∷ xs) ys h = absurd (omega arith)
  take-append (suc n) [] ys h = absurd (omega arith)
  take-append (suc n) (x ∷ xs) ys h = ap (◌∷◌ x) (take-append n xs ys (omega arith))

  pub drop-append : (n : ℕ) (xs ys : List A) → n ≡ length xs → drop n (xs ++ ys) ≡ ys
  drop-append zero [] ys h = refl
  drop-append zero (x ∷ xs) ys h = absurd (omega arith)
  drop-append (suc n) [] ys h = absurd (omega arith)
  drop-append (suc n) (x ∷ xs) ys h = drop-append n xs ys (omega arith)

  pub take-length : (n : ℕ) (xs : List A) → length xs ≤ n → take n xs ≡ xs
  take-length zero [] h = refl
  take-length zero (x ∷ xs) h = absurd (omega arith)
  take-length (suc n) [] h = refl
  take-length (suc n) (x ∷ xs) h = ap (◌∷◌ x) (take-length n xs (omega arith))

  pub get_elem?-append :
      (n : ℕ) (xs : List A) (y : A) (ys : List A)
      → n ≡ length xs
      → get_elem? (xs ++ (y ∷ ys)) n ≡ some y
  get_elem?-append zero [] y ys h = refl
  get_elem?-append zero (x ∷ xs) y ys h = absurd (omega arith)
  get_elem?-append (suc n) [] y ys h = absurd (omega arith)
  get_elem?-append (suc n) (x ∷ xs) y ys h = get_elem?-append n xs y ys (omega arith)

  pub get_elem?_lem : (xs : List A) (i : ℕ) → i < length xs → (x : A) × (get_elem? xs i ≡ some x)
  get_elem?_lem [] i h = absurd (omega arith)
  get_elem?_lem (x ∷ xs) zero h = (x, refl)
  get_elem?_lem (x ∷ xs) (suc i) h = get_elem?_lem xs i (omega arith)

  -- A list of at least `n` elements has a first part of `n` elements.
  pub split_at :
      (n : ℕ) (xs : List A)
      → n ≤ length xs
      → (front : List A) × (back : List A) × (xs ≡ front ++ back) × (length front ≡ n)
  split_at n xs h =
      (take n xs, drop n xs, sym (take-append-drop n xs), omega (arith, length-take n xs))

  -- Two ways to cut a list: the longer first part begins with the shorter.
  pub append_overlap :
      (xs ys us vs : List A)
      → xs ++ ys ≡ us ++ vs
      → length xs ≤ length us
      → (w : List A) × (us ≡ xs ++ w) × (ys ≡ w ++ vs)
  append_overlap [] ys us vs e h = (us, refl, e)
  append_overlap (x ∷ xs) ys [] vs e h = absurd (omega arith)
  append_overlap (x ∷ xs) ys (u ∷ us) vs e h =
      let (w, p, q) = append_overlap xs ys us vs (ap (drop 1) e) (omega arith) in
      (w, ground (arith, p, e), q)

-- A predicate on all elements of a list.
module _ {ℓ κ} {A : Type ℓ} (P : A → Type κ) where
  pub All-append : (xs ys : List A) → All P xs → All P ys → All P (xs ++ ys)
  All-append [] ys a b = b
  All-append (x ∷ xs) ys a b = (a.0, All-append xs ys a.1 b)

  pub All-take : (n : ℕ) (xs : List A) → All P xs → All P (take n xs)
  All-take zero xs a = tt
  All-take (suc n) [] a = tt
  All-take (suc n) (x ∷ xs) a = (a.0, All-take n xs a.1)

  pub All-drop : (n : ℕ) (xs : List A) → All P xs → All P (drop n xs)
  All-drop zero xs a = a
  All-drop (suc n) [] a = a
  All-drop (suc n) (x ∷ xs) a = All-drop n xs a.1

  pub All-get_elem? : (xs : List A) (i : ℕ) (x : A) → All P xs → get_elem? xs i ≡ some x → P x
  All-get_elem? [] i x a e = cc
  All-get_elem? (y ∷ xs) zero x a e = let q : y ≡ x = cc in subst P q a.0
  All-get_elem? (y ∷ xs) (suc i) x a e = All-get_elem? xs i x a.1 e

  -- The parts of an append.
  pub All-back : (xs ys : List A) → All P (xs ++ ys) → All P ys
  All-back [] ys a = a
  All-back (x ∷ xs) ys a = All-back xs ys a.1

  pub All-front : (xs ys : List A) → All P (xs ++ ys) → All P xs
  All-front [] ys a = tt
  All-front (x ∷ xs) ys a = (a.0, All-front xs ys a.1)

module _ {ℓ} {A : Type ℓ} where
  pub drop_nil : (n : ℕ) → drop {A = A} n [] ≡ []
  drop_nil zero = refl
  drop_nil (suc n) = refl

  pub drop_more : (m n : ℕ) (xs : List A) → drop (m + n) xs ≡ drop n (drop m xs)
  drop_more zero n xs = ap (λ k. drop k xs) zero_plus
    where
      zero_plus : 0 + n ≡ n
      zero_plus = omega arith
  drop_more (suc m) n [] = drop_nil (suc m + n) ∙ sym (drop_nil n)
  drop_more (suc m) n (x ∷ xs) = ap (λ k. drop k (x ∷ xs)) suc_plus ∙ drop_more m n xs
    where
      suc_plus : suc m + n ≡ suc (m + n)
      suc_plus = omega arith

  pub drop-length : (n : ℕ) (xs : List A) → length xs ≤ n → drop n xs ≡ []
  drop-length n [] h = drop_nil n
  drop-length zero (x ∷ xs) h = absurd (omega arith)
  drop-length (suc n) (x ∷ xs) h = drop-length n xs (omega arith)
