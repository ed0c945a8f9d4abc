-- ===== src/Net/Table.antt =====
-- The handles of CAdaptedSocket: `s_SocketArray`, AddSocket and DeleteSocket.
use circle_stdlib.Common.{
  ℕ, zero, suc, ◌≡◌, ◌≢◌, refl, sym, ◌∙◌, List, [], ◌∷◌, ◌++◌, Option, none, some, length,
  length-append, get_elem?, get_elem?-append, arith, copy_in, copy_in_middle, Holds, ◌⊎◌, inl, inr,
}
use circle_stdlib.Net.Adapter.{add_socket}
use circle_stdlib.Net.Store.{get_elem?_split}

module _ {A : Type 0} where
  -- Another element does not matter.
  get_elem?_other :
      (front back : List A) (x y : A) (j : ℕ)
      → j ≢ length front
      → get_elem? (front ++ (x ∷ back)) j ≡ get_elem? (front ++ (y ∷ back)) j
  get_elem?_other [] back x y zero n = absurd (n (omega arith))
  get_elem?_other [] back x y (suc j) n = refl
  get_elem?_other (z ∷ front) back x y zero n = refl
  get_elem?_other (z ∷ front) back x y (suc j) n =
      get_elem?_other front back x y j (λ e. n (omega (arith, e)))

  -- One element is overwritten.
  pub overwrite :
      (xs : List A) (i : ℕ) (x y : A)
      → get_elem? xs i ≡ some x
      → Holds
          (λ ys.
            (get_elem? ys i ≡ some y)
            × ((j : ℕ) → j ≢ i → get_elem? ys j ≡ get_elem? xs j)
            × (length ys ≡ length xs))
          (copy_in xs i (y ∷ []))
  overwrite xs i x y e =
      let (front, back, q, l) = get_elem?_split xs i x e in
      rw (q, copy_in_middle i front (x ∷ []) (y ∷ []) back l refl)
        (
          get_elem?-append i front y back l,
          λ j n. get_elem?_other front back y x j (λ f. n (f ∙ sym l)),
          omega (arith, length-append front (y ∷ back), length-append front (x ∷ back)),
        )

-- The slot that is taken.
pub add_socket-get_elem? :
    (p : ℕ) (t : List (Option ℕ)) → get_elem? (add_socket p t).1 (add_socket p t).0 ≡ some (some p)
unfolding add_socket
add_socket-get_elem? p [] = refl
add_socket-get_elem? p (none ∷ t) = refl
add_socket-get_elem? p (some q ∷ t) = add_socket-get_elem? p t

-- It was not in use, and the others are kept.
pub add_socket_kept :
    (p : ℕ) (t : List (Option ℕ)) (h q : ℕ)
    → get_elem? t h ≡ some (some q)
    → (get_elem? (add_socket p t).1 h ≡ some (some q)) × (h ≢ (add_socket p t).0)
unfolding add_socket
add_socket_kept p [] h q e = cc
add_socket_kept p (none ∷ t) zero q e = cc
add_socket_kept p (none ∷ t) (suc h) q e = (e, omega arith)
add_socket_kept p (some r ∷ t) zero q e = (e, omega arith)
add_socket_kept p (some r ∷ t) (suc h) q e =
    let (kept, other) = add_socket_kept p t h q e in (kept, λ f. other (omega (arith, f)))

pub add_socket_old :
    (p : ℕ) (t : List (Option ℕ)) (h q : ℕ)
    → get_elem? (add_socket p t).1 h ≡ some (some q)
    → ((h ≡ (add_socket p t).0) × (q ≡ p)) ⊎ (get_elem? t h ≡ some (some q))
unfolding add_socket
add_socket_old p [] zero q e = inl (refl, cc)
add_socket_old p [] (suc h) q e = cc
add_socket_old p (none ∷ t) zero q e = inl (refl, cc)
add_socket_old p (none ∷ t) (suc h) q e = inr e
add_socket_old p (some r ∷ t) zero q e = inr e
add_socket_old p (some r ∷ t) (suc h) q e = elim (add_socket_old p t h q e) [
  | inl f ↦ inl (omega (arith, f.0), f.1)
  | inr f ↦ inr f
]
