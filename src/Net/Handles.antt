-- ===== src/Net/Handles.antt =====
-- The objects of CAdaptedSocket and their handles: the constructors and the destructor.
use circle_stdlib.Common.{
  ℕ, zero, suc, ◌≡◌, ◌≢◌, refl, sym, ap, ◌∙◌, subst, List, [], ◌∷◌, ◌++◌, Option, some, length,
  get_elem?, drop, arith, copy_in, Holds, Holds->>=, Holds-mono, ℕ_discrete, ◌⊎◌, inl, inr,
}
use circle_stdlib.Net.{NetSubSystem}
use circle_stdlib.Net.Adapter.{AdaptedSocket, Net, flatten, object, set_object}
use circle_stdlib.Net.Store.{flatten-some}
use circle_stdlib.Net.Stream.{Pending}
use circle_stdlib.Net.Table.{overwrite}

module _ {A : Type 0} where
  pub get_elem?_more :
      (xs ys : List A) (p : ℕ) (z : A) → get_elem? xs p ≡ some z → get_elem? (xs ++ ys) p ≡ some z
  get_elem?_more [] ys p z e = cc
  get_elem?_more (x ∷ xs) ys zero z e = e
  get_elem?_more (x ∷ xs) ys (suc p) z e = get_elem?_more xs ys p z e

  pub get_elem?_last :
      (xs : List A) (y z : A) (p : ℕ)
      → get_elem? (xs ++ (y ∷ [])) p ≡ some z
      → (get_elem? xs p ≡ some z) ⊎ ((p ≡ length xs) × (y ≡ z))
  get_elem?_last [] y z zero e = inr (refl, cc)
  get_elem?_last [] y z (suc p) e = cc
  get_elem?_last (x ∷ xs) y z zero e = inl e
  get_elem?_last (x ∷ xs) y z (suc p) e = elim (get_elem?_last xs y z p e) [
    | inl f ↦ inl f
    | inr f ↦ inr (omega (arith, f.0), f.1)
  ]

  pub the_same : (x y : A) → some x ≡ some y → x ≡ y
  the_same x y f = cc

module _ (C : NetSubSystem) where
  open C use {World, Socket}

  -- Each object is in_table in the table under its handle and nowhere else, no entry stands for an object
  -- that does not exist, and an object has a CSocket, and what it has still to hand over is in its buffer.
  pub record IsConsistent (s : Net C) : Type 0 where
    pub in_table :
        (p : ℕ) (a : AdaptedSocket Socket)
        → object C p s ≡ some a
        → get_elem? s.table a.handle ≡ some (some p)
    pub points :
        (h p : ℕ)
        → get_elem? s.table h ≡ some (some p)
        → (a : AdaptedSocket Socket) × (object C p s ≡ some a) × (a.handle ≡ h)
    pub sound :
        (p : ℕ) (a : AdaptedSocket Socket) → object C p s ≡ some a → Pending C a (drop a.used a.rx)

  -- The world does not matter.
  pub record-IsConsistent :
      (s : Net C) (w : World) → IsConsistent s → IsConsistent (record s { world = w })
  unfolding object
  record-IsConsistent s w v = record { in_table = v.in_table; points = v.points; sound = v.sound }

  -- An object that is written.
  pub set_object-split :
      (p : ℕ) (s : Net C) (a : AdaptedSocket Socket) (o : Option (AdaptedSocket Socket))
      → object C p s ≡ some a
      → Holds
          (λ s'.
            (s'.table ≡ s.table)
            × (object C p s' ≡ o)
            × ((q : ℕ) → q ≢ p → object C q s' ≡ object C q s)
            × (s'.world ≡ s.world))
          (set_object C p o s)
  unfolding object set_object
  set_object-split p s a o e =
      Holds->>= _ _ (copy_in s.objects p (o ∷ [])) _
        (overwrite s.objects p (some a) o (flatten-some (get_elem? s.objects p) a e))
        (λ objects (here, other, size).
          (refl, ap (flatten C) here, λ q n. ap (flatten C) (other q n), refl))

  -- An object that is written keeps its handle.
  pub set_object-IsConsistent :
      (p : ℕ) (s : Net C) (a a' : AdaptedSocket Socket)
      → object C p s ≡ some a
      → a'.handle ≡ a.handle
      → Pending C a' (drop a'.used a'.rx)
      → IsConsistent s
      → Holds
          (λ s'. IsConsistent s' × (length s'.table ≡ length s.table))
          (set_object C p (some a') s)
  set_object-IsConsistent p s a a' e same fits v =
      Holds-mono _ _ (set_object C p (some a') s)
        (λ s' (t, here, other, w). (written s' t here other, ap length t))
        (set_object-split p s a (some a') e)
    where
      written :
          (s' : Net C)
          → s'.table ≡ s.table
          → object C p s' ≡ some a'
          → ((q : ℕ) → q ≢ p → object C q s' ≡ object C q s)
          → IsConsistent s'
      written s' t here other = record {
        in_table = λ q b f. elim (ℕ_discrete q p) [
          | no n ↦ rw t (v.in_table q b (sym (other q n) ∙ f))
          | yes g ↦
              let b_is : a' ≡ b = the_same a' b (sym here ∙ ap (λ x. object C x s') (sym g) ∙ f) in
              rw (t, g, ← b_is, same) (v.in_table p a e)
        ];
        points = λ h q f.
            let (b, g, k) = v.points h q (ap (λ x. get_elem? x h) (sym t) ∙ f) in
            elim (ℕ_discrete q p) [
              | no n ↦ (b, other q n ∙ g, k)
              | yes z ↦ (
                a',
                ap (λ x. object C x s') z ∙ here,
                same
                    ∙ ap (λ x. x.handle) (the_same a b (sym e ∙ ap (λ x. object C x s) (sym z) ∙ g))
                    ∙ k,
              )
            ];
        sound = λ q b f. elim (ℕ_discrete q p) [
          | no n ↦ v.sound q b (sym (other q n) ∙ f)
          | yes g ↦
              subst (λ x. Pending C x (drop x.used x.rx))
                (the_same a' b (sym here ∙ ap (λ x. object C x s') (sym g) ∙ f)) fits
        ];
      }
