-- ===== src/Net/Store.antt =====
-- Objects of CAdaptedSocket, read and written.
use circle_stdlib.Common.{
  ℕ, zero, suc, ◌≡◌, refl, ap, List, [], ◌∷◌, ◌++◌, Option, none, some, length, get_elem?,
  get_elem?-append, arith, ◌>>=◌, copy_in, copy_in_middle, Holds,
}
use circle_stdlib.Net.{NetSubSystem}
use circle_stdlib.Net.Adapter.{AdaptedSocket, Net, flatten, object, set_object}

module _ {A : Type 0} where
  -- An element with what is in front of it and behind.
  pub get_elem?_split :
      (xs : List A) (i : ℕ) (x : A)
      → get_elem? xs i ≡ some x
      → (front : List A) × (back : List A) × (xs ≡ front ++ (x ∷ back)) × (i ≡ length front)
  get_elem?_split [] i x e = cc
  get_elem?_split (y ∷ xs) zero x e = ([], xs, ap (λ z. z ∷ xs) (the_head y x e), refl)
    where
      the_head : (y x : A) → some y ≡ some x → y ≡ x
      the_head y x e = cc
  get_elem?_split (y ∷ xs) (suc i) x e =
      let (front, back, q, l) = get_elem?_split xs i x e in
      (y ∷ front, back, ap (◌∷◌ y) q, omega (arith, l))

  pub flatten-some : (m : Option (Option A)) (a : A) → (m >>= λ x. x) ≡ some a → m ≡ some (some a)
  flatten-some none a e = cc
  flatten-some (some none) a e = cc
  flatten-some (some (some b)) a e = ap some e

module _ (C : NetSubSystem) where
  open C use {World, Socket}

  pub set_object_lem :
      (p : ℕ) (s : Net C) (a a' : AdaptedSocket Socket)
      → object C p s ≡ some a
      → Holds (λ s'. (object C p s' ≡ some a') × (s'.world ≡ s.world)) (set_object C p (some a') s)
  unfolding object set_object
  set_object_lem p s a a' e =
      let (front, back, q, l) =
        get_elem?_split s.objects p (some a) (flatten-some (get_elem? s.objects p) a e) in
      let write : copy_in s.objects p (some a' ∷ []) ≡ some (front ++ (some a' ∷ back)) =
        rw q (copy_in_middle p front (some a ∷ []) (some a' ∷ []) back l refl) in
      rw write (ap (flatten C) (get_elem?-append p front (some a') back l), refl)
