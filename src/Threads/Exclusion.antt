-- ===== src/Threads/Exclusion.antt =====
-- What holds in every state that the tasks reach.
use circle_stdlib.Common.{
  ℕ, suc, ◌+◌, ◌≤◌, ◌≡◌, refl, sym, ap, ◌∙◌, subst, ◌⊎◌, inl, inr, List, [], ◌∷◌, ◌++◌, some, arith,
  Bool-cases, dec_lt,
}
use circle_stdlib.Threads.{
  Semaphore, Mutex, Condvar, unlocked, acquire, try_acquire, enqueue, expire,
}
use circle_stdlib.Threads.System.{
  Pc, idle, Move, lock, granted, try_lock, unlock, wait, woken, timeout, notify_one, notify_all,
  Tasks, Step, pick, AreIdle, Reach, start, next,
}
use circle_stdlib.Threads.Consistency.{
  holds, blocks, waits, count, owners, owners_le, IsConsistentMutex, recount,
  acquire-IsConsistentMutex, try_acquire-IsConsistentMutex, release-IsConsistentMutex,
  granted-IsConsistentMutex, waits-entered, waits-tried, initial-IsConsistentMutex,
}
use circle_stdlib.Threads.Waiters.{
  IsConsistentCondvar, signal-IsConsistentCondvar, expire-IsConsistentCondvar,
  enqueue-IsConsistentCondvar, broadcast-IsConsistentCondvar, initial-IsConsistentCondvar,
}

-- The counts of a list with one task picked out.
count_middle :
    (f : Pc → ℕ) (front : List Pc) (p : Pc) (back : List Pc)
    → count f (front ++ (p ∷ back)) ≡ f p + count f (front ++ back)
count_middle f [] p back = refl
count_middle f (q ∷ front) p back = omega (arith, count_middle f front p back)

none_at : (f : Pc → ℕ) → f idle ≡ 0 → (ps : List Pc) → AreIdle ps → count f ps ≡ 0
none_at f e [] a = refl
none_at f e (p ∷ ps) a = omega (arith, ap f a.0, e, none_at f e ps a.1)

module _ (C : Semaphore) where
  open C use {State, try_down, value, unset_value, down_value, down_ready}

  -- The mutex and the condition variable agree with where the tasks are.
  pub record IsConsistent (s : Tasks C) : Type 0 where
    pub mutex : IsConsistentMutex C s.mutex (count holds s.tasks) (count blocks s.tasks)
    pub condvar : IsConsistentCondvar C s.condvar (count waits s.tasks)

  -- One task moves, the others are counted by `h`, `a` and `w`.
  Move-IsConsistent :
      (h a w : ℕ) {m m' : Mutex State} {c c' : Condvar State} {p p' : Pc}
      → Move C m c p m' c' p'
      → IsConsistentMutex C m (holds p + h) (blocks p + a)
      → IsConsistentCondvar C c (waits p + w)
      → IsConsistentMutex C m' (holds p' + h) (blocks p' + a)
        × IsConsistentCondvar C c' (waits p' + w)
  Move-IsConsistent h a w (lock m c) i j = (
    acquire-IsConsistentMutex C m h a (recount C m _ h _ a (omega arith) (omega arith) i),
    omega (arith, j, waits-entered (acquire C m).0),
  )
  Move-IsConsistent h a w (granted m c s e) i j = (
    recount C _ (suc h) _ a _ (omega arith) (omega arith) (
        granted-IsConsistentMutex C m h a s e
          (recount C m _ h _ (suc a) (omega arith) (omega arith) i)),
    j,
  )
  Move-IsConsistent h a w (try_lock m c) i j = (
    try_acquire-IsConsistentMutex C m h a (recount C m _ h _ a (omega arith) (omega arith) i),
    omega (arith, j, waits-tried (try_acquire C m).0),
  )
  Move-IsConsistent h a w (unlock m c) i j = (
    recount C _ h _ a _ (omega arith) (omega arith) (
        release-IsConsistentMutex C m h a
          (recount C m _ (suc h) _ a (omega arith) (omega arith) i)),
    j,
  )
  Move-IsConsistent h a w (wait m c timed) i j = (
    recount C _ h _ a _ (omega arith) (omega arith) (
        release-IsConsistentMutex C m h a
          (recount C m _ (suc h) _ a (omega arith) (omega arith) i)),
    subst (IsConsistentCondvar C (enqueue C c)) (omega arith)
        (enqueue-IsConsistentCondvar C c w (omega (arith, j))),
  )
  Move-IsConsistent h a w (woken m c timed s e) i j = (
    acquire-IsConsistentMutex C m h a (recount C m _ h _ a (omega arith) (omega arith) i),
    omega (arith, j, waits-entered (acquire C m).0, down_value c.sem s e),
  )
  Move-IsConsistent h a w (timeout m c) i j = (
    acquire-IsConsistentMutex C m h a (recount C m _ h _ a (omega arith) (omega arith) i),
    subst (IsConsistentCondvar C (expire C c).1) (omega (arith, waits-entered (acquire C m).0))
        (expire-IsConsistentCondvar C c w (omega (arith, j))),
  )
  Move-IsConsistent h a w (notify_one m c p r) i j =
      (i, signal-IsConsistentCondvar C c (waits p + w) j)
  Move-IsConsistent h a w (notify_all m c p r) i j =
      (i, broadcast-IsConsistentCondvar C c (waits p + w) j)

  Step-IsConsistent : {s t : Tasks C} → Step C s t → IsConsistent s → IsConsistent t
  Step-IsConsistent (pick front back {m} {m'} {c} {c'} {p} {p'} move) i =
      let (j, k) =
        Move-IsConsistent (count holds (front ++ back)) (count blocks (front ++ back))
          (count waits (front ++ back)) move
          (recount C m _ _ _ _ (count_middle holds front p back) (count_middle blocks front p back)
            i.mutex)
          (sym (count_middle waits front p back) ∙ i.condvar) in
      record {
        mutex =
            recount C m' _ _ _ _ (sym (count_middle holds front p' back))
              (sym (count_middle blocks front p' back)) j;
        condvar = count_middle waits front p' back ∙ k;
      }

  -- In every state that tasks reach from zeroed objects: an unlocked mutex has neither an owner, nor a
  -- task that waits, nor a token in its semaphore; a locked one has an owner or exactly one token, and
  -- each task that waits for it is counted in `m_waiters` or is the one that the token is for. Each task
  -- that waits at the condition variable is counted in `waiters`, or there is a token for it.
  pub Reach-IsConsistent : {s : Tasks C} → Reach C s → IsConsistent s
  Reach-IsConsistent (start ps all) = record {
    mutex =
        recount C (unlocked C) 0 _ 0 _ (sym (none_at holds refl ps all))
          (sym (none_at blocks refl ps all)) (initial-IsConsistentMutex C);
    condvar = none_at waits refl ps all ∙ initial-IsConsistentCondvar C;
  }
  Reach-IsConsistent (next r step) = Step-IsConsistent step (Reach-IsConsistent r)

  -- No two tasks hold the mutex, whatever the order of their steps, when only its owner unlocks it or
  -- waits at the condition variable with it.
  pub Reach-exclusive : {s : Tasks C} → Reach C s → count holds s.tasks ≤ 1
  Reach-exclusive {s} r =
      let i = (Reach-IsConsistent r).mutex in omega (arith, i.owned, owners_le s.mutex.locked)

  -- No wake-up is lost: while a task waits for the mutex, one task holds it, or the semaphore has a token
  -- with which a task that waits can go on.
  pub Reach-progress :
      {s : Tasks C}
      → Reach C s
      → 1 ≤ count blocks s.tasks
      → (count holds s.tasks ≡ 1) ⊎ ((t : State) × (try_down s.mutex.sem ≡ some t))
  Reach-progress {s} r w =
      let i = (Reach-IsConsistent r).mutex in
      elim (Bool-cases s.mutex.locked) [
        | inr e ↦ absurd (omega (arith, w, i.blocked, i.owned, i.free e, ap owners e))
        | inl e ↦ elim (dec_lt 0 (value s.mutex.sem)) [
          | yes l ↦ inr (down_ready s.mutex.sem l)
          | no l ↦ inl (omega (arith, i.owned, ap owners e, l))
        ]
      ]
