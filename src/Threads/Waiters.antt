-- ===== src/Threads/Waiters.antt =====
-- How many tasks wait at the condition variable, against its fields.
use circle_stdlib.Common.{
  ℕ, zero, suc, ◌+◌, ◌-◌, ◌≡◌, sym, ap, ◌∙◌, subst, inl, inr, Bool, true, false, Option, none, some,
  lt→ltb, ge→ltb, if◌then◌else◌, arith, dec_lt, Option-cases,
}
use circle_stdlib.Threads.{Semaphore, Condvar, unused, signal, up_times, broadcast, enqueue, expire}

none_not_some : {S : Type 0} (t : S) → none ≡ some t → ⊥
none_not_some t e = cc

module _ (C : Semaphore) where
  open C use {State, try_down, up, value, unset_value, up_value, down_value, down_ready}

  -- Every task that waits at the condition variable is counted there, or there is a token for it.
  abbrev pub IsConsistentCondvar : Condvar State → ℕ → Type 0
  IsConsistentCondvar c w = w ≡ c.waiters + value c.sem

  pub signal-IsConsistentCondvar :
      (c : Condvar State) (w : ℕ) → IsConsistentCondvar c w → IsConsistentCondvar (signal C c) w
  unfolding signal
  signal-IsConsistentCondvar c w i =
      let G : Bool → Condvar State =
        λ b. if b then record { sem = up c.sem; waiters = c.waiters - 1 } else c in
      elim (dec_lt 0 c.waiters) [
        | yes l ↦
            subst (λ x. IsConsistentCondvar x w) (sym (ap G (lt→ltb 0 c.waiters l)))
              (omega (arith, l, i, up_value c.sem))
        | no l ↦
            subst (λ x. IsConsistentCondvar x w)
              (sym (ap G (ge→ltb 0 c.waiters (omega (arith, l))))) i
      ]

  pub value-up_times : (n : ℕ) (s : State) → value (up_times C n s) ≡ n + value s
  unfolding up_times
  value-up_times zero s = omega arith
  value-up_times (suc n) s = omega (arith, value-up_times n (up s), up_value s)

  down_none : (s : State) → try_down s ≡ none → value s ≡ 0
  down_none s e = elim (dec_lt 0 (value s)) [
    | yes l ↦ let (t, f) = down_ready s l in absurd (none_not_some t (sym e ∙ f))
    | no l ↦ omega (arith, l)
  ]

  pub expire-IsConsistentCondvar :
      (c : Condvar State) (w : ℕ)
      → IsConsistentCondvar c (suc w)
      → IsConsistentCondvar (expire C c).1 w
  unfolding expire
  expire-IsConsistentCondvar c w i =
      let G : Option State → Bool × Condvar State = λ o. elim o [
        | some s ↦ (false, record c { sem = s })
        | none ↦ (true, record c { waiters = c.waiters - 1 })
      ] in
      elim (Option-cases (try_down c.sem)) [
        | inl e ↦
            subst (λ x. IsConsistentCondvar x.1 w) (sym (ap G e))
              (omega (arith, i, down_none c.sem e))
        | inr (s, e) ↦
            subst (λ x. IsConsistentCondvar x.1 w) (sym (ap G e))
              (omega (arith, i, down_value c.sem s e))
      ]

  pub enqueue-IsConsistentCondvar :
      (c : Condvar State) (w : ℕ)
      → IsConsistentCondvar c w
      → IsConsistentCondvar (enqueue C c) (1 + w)
  unfolding enqueue
  enqueue-IsConsistentCondvar c w i = omega (arith, i)

  pub broadcast-IsConsistentCondvar :
      (c : Condvar State) (w : ℕ) → IsConsistentCondvar c w → IsConsistentCondvar (broadcast C c) w
  unfolding broadcast
  broadcast-IsConsistentCondvar c w i = omega (arith, i, value-up_times c.waiters c.sem)

  pub initial-IsConsistentCondvar : IsConsistentCondvar (unused C) 0
  unfolding unused
  initial-IsConsistentCondvar = omega (arith, unset_value)
