-- ===== src/Threads/Local.antt =====
-- Thread-local values in libs/libcxx-threading/src/thread.cpp: `__libcpp_tls_create`, `__libcpp_tls_get`,
-- `__libcpp_tls_set`, and the destructors at the end of `CLibCXXTask::Run`. An access behind the end of an
-- array is a missing result.
use circle_stdlib.Common.{
  ℕ, zero, suc, ◌+◌, ◌≤◌, ◌<◌, ◌≡◌, refl, ◌∙◌, Bool, true, false, List, [], ◌∷◌, Option, none, some,
  length, get_elem?, get_elem?_lem, ◌>>=◌, copy_in, copy_in-All, All, arith, Holds, Holds->>=,
  Holds-known, Holds-mono, Holds-then, Holds-else, Bool-cases, inl, inr, gt→leb, if◌then◌else◌,
}

-- `MAX_TLS_KEYS`
abbrev pub max_tls_keys : ℕ
max_tls_keys = 32

-- `s_next_key` and `s_destructors`; a null pointer is `none`.
pub record Keys (D : Type 0) : Type 0 where
  pub next_key : ℕ
  pub destructors : List (Option D)

unfoldable pub tls_create : {D : Type 0} → Option D → Keys D → Option (ℕ × Keys D)
tls_create d keys = copy_in keys.destructors keys.next_key (d ∷ []) >>= λ ds.
    some (keys.next_key, record { next_key = keys.next_key + 1; destructors = ds })

-- The array `kv` of the task; there is none for a task that libc++ did not create.
unfoldable pub tls_get : {V : Type 0} → Option (List (Option V)) → ℕ → Option (Option V)
tls_get none key = some none
tls_get (some kv) key = get_elem? kv key

unfoldable pub tls_set :
    {V : Type 0} → Option (List (Option V)) → ℕ → Option V → Option (Option (List (Option V)))
tls_set none key p = some none
tls_set (some kv) key p = copy_in kv key (p ∷ []) >>= λ kv'. some (some kv')

-- The destructors of a task. A destructor is given its value and may set values.
module _ {D V W : Type 0} (destruct : D → V → List (Option V) × W → List (Option V) × W)
    (keys : Keys D) where
  -- What is done for a key that has the value `v` and the destructor `d`, and whether it is called.
  unfoldable pub destroy_value :
      Option V → Option D → ℕ → List (Option V) × W → Option (Bool × List (Option V) × W)
  destroy_value (some v) (some d) k (kv, w) = copy_in kv k (none ∷ []) >>= λ kv'.
      let (kv₁, w₁) = destruct d v (kv', w) in some (true, kv₁, w₁)
  destroy_value _ _ k (kv, w) = some (false, kv, w)

  -- The inner loop over `n` keys from `k` on, after a call or none.
  unfoldable pub destroy_values :
      ℕ → ℕ → Bool → List (Option V) × W → Option (Bool × List (Option V) × W)
  destroy_values zero k called (kv, w) = some (called, kv, w)
  destroy_values (suc n) k called s = get_elem? s.0 k >>= λ v. get_elem? keys.destructors k >>= λ d.
      destroy_value v d k s >>= λ r.
      destroy_values n (suc k) (if r.0 then true else called) (r.1, r.2)

  -- The outer loop, `PTHREAD_DESTRUCTOR_ITERATIONS` times at most.
  unfoldable pub run_destructors : ℕ → List (Option V) × W → Option (List (Option V) × W)
  run_destructors zero s = some s
  run_destructors (suc rounds) s = destroy_values keys.next_key 0 false s >>= λ r.
      if r.0 then run_destructors rounds (r.1, r.2) else some (r.1, r.2)

  -- The array keeps its size.
  abbrev IsWhole : List (Option V) × W → Type 0
  IsWhole s = length s.0 ≡ max_tls_keys

  abbrev IsWholeAfter : Bool × List (Option V) × W → Type 0
  IsWholeAfter r = length r.1 ≡ max_tls_keys

  module _ (kept : (d : D) (v : V) (s : List (Option V) × W) → IsWhole s → IsWhole (destruct d v s))
      (destructors_size : length keys.destructors ≡ max_tls_keys) where
    destroy_value-IsWhole :
        (v : Option V) (d : Option D) (k : ℕ) (s : List (Option V) × W)
        → k < max_tls_keys
        → IsWhole s
        → Holds IsWholeAfter (destroy_value v d k s)
    unfolding destroy_value
    destroy_value-IsWhole none d k s h i = i
    destroy_value-IsWhole (some v) none k s h i = i
    destroy_value-IsWhole (some v) (some d) k s h i =
        Holds->>= (λ kv. length kv ≡ length s.0) IsWholeAfter (copy_in s.0 k (none ∷ [])) _
          (Holds-mono (λ kv. All (λ _. Unit {0}) kv × (length kv ≡ length s.0))
            (λ kv. length kv ≡ length s.0) _ (λ kv p. p.1)
            (copy_in-All (λ _. Unit {0}) s.0 (none ∷ []) k (any s.0) (tt, tt)
              (omega (arith, h, i))))
          (λ kv e. kept d v (kv, s.1) (e ∙ i))
      where
        any : (l : List (Option V)) → All (λ _. Unit {0}) l
        any [] = tt
        any (x ∷ l) = (tt, any l)

    destroy_values-IsWhole :
        (n k : ℕ) (called : Bool) (s : List (Option V) × W)
        → n + k ≤ max_tls_keys
        → IsWhole s
        → Holds IsWholeAfter (destroy_values n k called s)
    unfolding destroy_values
    destroy_values-IsWhole zero k called s h i = i
    destroy_values-IsWhole (suc n) k called s h i =
        let (v, e) = get_elem?_lem s.0 k (omega (arith, h, i)) in
        let (d, f) = get_elem?_lem keys.destructors k (omega (arith, h, destructors_size)) in
        Holds-known IsWholeAfter _ v _ e (
          Holds-known IsWholeAfter _ d _ f (
            Holds->>= IsWholeAfter IsWholeAfter (destroy_value v d k s) _
              (destroy_value-IsWhole v d k s (omega (arith, h)) i)
              (λ r j.
                destroy_values-IsWhole n (suc k) (if r.0 then true else called) (r.1, r.2)
                  (omega (arith, h)) j)))

    -- The destructors run, in at most the given number of rounds, without an access outside of the
    -- arrays, when no more keys were created than there is room for.
    run_destructors-IsWhole :
        (rounds : ℕ) (s : List (Option V) × W)
        → keys.next_key ≤ max_tls_keys
        → IsWhole s
        → Holds IsWhole (run_destructors rounds s)
    unfolding run_destructors
    run_destructors-IsWhole zero s h i = i
    run_destructors-IsWhole (suc rounds) s h i =
        Holds->>= IsWholeAfter IsWhole (destroy_values keys.next_key 0 false s) _
          (destroy_values-IsWhole keys.next_key 0 false s (omega (arith, h)) i)
          (λ r j. elim (Bool-cases r.0) [
            | inl e ↦ Holds-then IsWhole r.0 _ _ e (run_destructors-IsWhole rounds (r.1, r.2) h j)
            | inr e ↦ Holds-else IsWhole r.0 _ _ e j
          ])

-- There is no room for the key behind the last.
tls_create-full :
    {D : Type 0} (d : Option D) (keys : Keys D)
    → length keys.destructors ≤ keys.next_key
    → tls_create d keys ≡ none
unfolding tls_create copy_in
tls_create-full d keys h =
    rw (gt→leb (keys.next_key + 1) (length keys.destructors) (omega (arith, h))) refl
