-- ===== src/Mqtt/Client/Queue/Identifiers.antt =====
-- The packet identifier store, as a set.
use circle_stdlib.Common.{ℕ, ◌≡◌, refl, true, false, List, [], ◌∷◌, ◌==◌, if◌then◌else◌, arith}
use circle_stdlib.Mqtt.Client.Queue.{insert_identifier, identifier_in_store, remove_identifier}

-- No identifier is in the store twice.
abbrev pub IsDistinct : List ℕ → Type 0
IsDistinct [] = Unit {0}
IsDistinct (x ∷ xs) = (identifier_in_store x xs ≡ false) × IsDistinct xs

in_store-remove_ne :
    (x y : ℕ) (xs : List ℕ)
    → identifier_in_store y xs ≡ false
    → identifier_in_store y (remove_identifier x xs) ≡ false
unfolding identifier_in_store remove_identifier
in_store-remove_ne x y [] h = refl
in_store-remove_ne x y (z ∷ xs) h = ground (arith, in_store-remove_ne x y xs)

-- The store is a set: an identifier that is inserted or removed is in it, or is not, afterwards, and
-- nothing changes for the others. The store must
-- hold each identifier once, and it still does after a removal.
pub store_lem :
    (x y : ℕ) (xs : List ℕ)
    → IsDistinct xs
    → (identifier_in_store y (insert_identifier x xs)
        ≡ (if x == y then true else identifier_in_store y xs))
      × (identifier_in_store y (remove_identifier x xs)
          ≡ (if x == y then false else identifier_in_store y xs))
      × IsDistinct (remove_identifier x xs)
unfolding identifier_in_store insert_identifier remove_identifier
store_lem x y [] d = ground arith
store_lem x y (z ∷ xs) d =
    ground (arith, store_lem x y xs d.1, in_store-remove_ne x z xs, in_store-remove_ne x y xs)
