-- ===== src/Threads/Consistency.antt =====
-- How many tasks hold and wait for the mutex, against its fields.
use circle_stdlib.Common.{
  ℕ, suc, ◌+◌, ◌-◌, ◌≤◌, ◌≡◌, refl, sym, ap, ◌∙◌, subst, inl, inr, Bool, true, false, not, List, [],
  ◌∷◌, some, lt→ltb, ge→ltb, if◌then◌else◌, arith, dec_lt, Bool-cases,
}
use circle_stdlib.Threads.{Semaphore, Mutex, unlocked, acquire, try_acquire, release}
use circle_stdlib.Threads.System.{Pc, acquiring, holding, waiting, entered, tried}

-- 1 for a task at the place, and 0 for others.
abbrev pub holds : Pc → ℕ
holds holding = 1
holds _ = 0

abbrev pub blocks : Pc → ℕ
blocks acquiring = 1
blocks _ = 0

abbrev pub waits : Pc → ℕ
waits (waiting timed) = 1
waits _ = 0

abbrev pub count : (Pc → ℕ) → List Pc → ℕ
count f [] = 0
count f (p ∷ ps) = f p + count f ps

abbrev pub owners : Bool → ℕ
owners true = 1
owners false = 0

pub owners_le : (b : Bool) → owners b ≤ 1
owners_le true = omega arith
owners_le false = omega arith

true_not_false : true ≡ false → ⊥
true_not_false e = cc

pub waits-entered : (b : Bool) → waits (entered b) ≡ 0
waits-entered true = refl
waits-entered false = refl

pub waits-tried : (b : Bool) → waits (tried b) ≡ 0
waits-tried true = refl
waits-tried false = refl

module _ (C : Semaphore) where
  open C use {State, try_down, up, value, unset_value, up_value, down_value, down_ready}

  -- A locked mutex has one owner: a task, or a token in its semaphore for a task that waits. `m_waiters`
  -- and the token are for the tasks that wait.
  pub record IsConsistentMutex (m : Mutex State) (h a : ℕ) : Type 0 where
    pub owned : h + value m.sem ≡ owners m.locked
    pub blocked : a ≡ m.waiters + value m.sem
    pub free : m.locked ≡ false → m.waiters ≡ 0

  acquire-false :
      (m : Mutex State) → m.locked ≡ false → acquire C m ≡ (true, record m { locked = true })
  unfolding acquire
  acquire-false m e =
      ap
        (λ b.
          if not b
          then (true, record m { locked = true })
          else (false, record m { waiters = m.waiters + 1 }))
        e

  acquire-true :
      (m : Mutex State)
      → m.locked ≡ true
      → acquire C m ≡ (false, record m { waiters = m.waiters + 1 })
  unfolding acquire
  acquire-true m e =
      ap
        (λ b.
          if not b
          then (true, record m { locked = true })
          else (false, record m { waiters = m.waiters + 1 }))
        e

  locked-IsConsistentMutex :
      (m : Mutex State) (h a : ℕ)
      → IsConsistentMutex m h a
      → m.locked ≡ false
      → IsConsistentMutex (record m { locked = true }) (1 + h) a
  locked-IsConsistentMutex m h a i e =
      let none_owned : h + value m.sem ≡ 0 = i.owned ∙ ap owners e in
      record { owned = omega (arith, none_owned); blocked = i.blocked; free = λ f. cc }

  pub acquire-IsConsistentMutex :
      (m : Mutex State) (h a : ℕ)
      → IsConsistentMutex m h a
      → IsConsistentMutex
          (acquire C m).1
          (holds (entered (acquire C m).0) + h)
          (blocks (entered (acquire C m).0) + a)
  acquire-IsConsistentMutex m h a i =
      let F : Bool × Mutex State → Type 0 =
        λ r. IsConsistentMutex r.1 (holds (entered r.0) + h) (blocks (entered r.0) + a) in
      elim (Bool-cases m.locked) [
        | inl e ↦ subst F (sym (acquire-true m e)) (record {
          owned = omega (arith, i.owned);
          blocked = omega (arith, i.blocked);
          free = λ f. absurd (true_not_false (sym e ∙ f));
        })
        | inr e ↦ subst F (sym (acquire-false m e)) (
            subst (IsConsistentMutex (record m { locked = true }) (1 + h)) (omega arith)
              (locked-IsConsistentMutex m h a i e))
      ]

  pub try_acquire-IsConsistentMutex :
      (m : Mutex State) (h a : ℕ)
      → IsConsistentMutex m h a
      → IsConsistentMutex
          (try_acquire C m).1
          (holds (tried (try_acquire C m).0) + h)
          (blocks (tried (try_acquire C m).0) + a)
  unfolding try_acquire
  try_acquire-IsConsistentMutex m h a i =
      let F : Bool × Mutex State → Type 0 =
        λ r. IsConsistentMutex r.1 (holds (tried r.0) + h) (blocks (tried r.0) + a) in
      let G : Bool → Bool × Mutex State =
        λ b. if not b then (true, record m { locked = true }) else (false, m) in
      elim (Bool-cases m.locked) [
        | inl e ↦ subst F (sym (ap G e)) (record {
          owned = omega (arith, i.owned);
          blocked = omega (arith, i.blocked);
          free = i.free;
        })
        | inr e ↦ subst F (sym (ap G e)) (
            subst (IsConsistentMutex (record m { locked = true }) (1 + h)) (omega arith)
              (locked-IsConsistentMutex m h a i e))
      ]

  pub release-IsConsistentMutex :
      (m : Mutex State) (h a : ℕ)
      → IsConsistentMutex m (suc h) a
      → IsConsistentMutex (release C m) h a
  unfolding release
  release-IsConsistentMutex m h a i =
      let G : Bool → Mutex State = λ b.
        if b
        then record m { waiters = m.waiters - 1; sem = up m.sem }
        else record m { locked = false } in
      elim (dec_lt 0 m.waiters) [
        | yes l ↦
            subst (λ x. IsConsistentMutex x h a) (sym (ap G (lt→ltb 0 m.waiters l)))
              (record {
                owned = omega (arith, i.owned, up_value m.sem);
                blocked = omega (arith, l, i.blocked, up_value m.sem);
                free = λ f. omega (arith, l, i.free f);
              })
        | no l ↦
            subst (λ x. IsConsistentMutex x h a)
              (sym (ap G (ge→ltb 0 m.waiters (omega (arith, l)))))
              (record {
                owned = omega (arith, i.owned, owners_le m.locked);
                blocked = i.blocked;
                free = λ f. omega (arith, l);
              })
      ]

  pub granted-IsConsistentMutex :
      (m : Mutex State) (h a : ℕ) (s : State)
      → try_down m.sem ≡ some s
      → IsConsistentMutex m h (suc a)
      → IsConsistentMutex (record m { sem = s }) (suc h) a
  granted-IsConsistentMutex m h a s e i = record {
    owned = omega (arith, i.owned, down_value m.sem s e);
    blocked = omega (arith, i.blocked, down_value m.sem s e);
    free = i.free;
  }

  pub recount :
      (m : Mutex State) (h h' a a' : ℕ)
      → h ≡ h'
      → a ≡ a'
      → IsConsistentMutex m h a
      → IsConsistentMutex m h' a'
  recount m h h' a a' e f i = record {
    owned = ap (λ x. x + value m.sem) (sym e) ∙ i.owned;
    blocked = sym f ∙ i.blocked;
    free = i.free;
  }

  pub initial-IsConsistentMutex : IsConsistentMutex (unlocked C) 0 0
  unfolding unlocked
  initial-IsConsistentMutex = record {
    owned = omega (arith, unset_value);
    blocked = omega (arith, unset_value);
    free = λ f. refl;
  }
