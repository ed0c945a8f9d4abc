-- ===== src/Threads/Examples.antt =====
-- Two tasks that lock the same mutex.
use circle_stdlib.Common.{
  ℕ, zero, suc, ◌≤◌, ◌≡◌, refl, ◌⊎◌, true, false, [], ◌∷◌, Option, none, some, arith, Holds,
}
use circle_stdlib.Threads.{Semaphore, unlocked, unused, acquire, release}
use circle_stdlib.Threads.System.{
  idle, acquiring, holding, Tasks, Reach, start, next, pick, lock, unlock,
}
use circle_stdlib.Threads.Consistency.{count, holds}
use circle_stdlib.Threads.Once.{
  done, untried, in_progress, before, returned, call, succeed, enter, complete, Runs,
  is_initialising, is_returned, total, Runs-once,
}
use circle_stdlib.Threads.Once
use circle_stdlib.Threads.Lifetime.{
  Thread, Lives, created, after, ending, joining, create_thread, destroy_task, join_thread, IsOwned,
  Lives-IsOwned_next,
}
use circle_stdlib.Threads.Exclusion.{
  IsConsistent, Reach-IsConsistent, Reach-exclusive, Reach-progress,
}

-- A semaphore is its count.
abbrev counter_down : ℕ → Option ℕ
counter_down zero = none
counter_down (suc n) = some n

abbrev counter : Semaphore
counter = record {
  State = ℕ;
  unset = 0;
  up = λ n. suc n;
  try_down = counter_down;
  value = λ n. n;
  unset_value = refl;
  up_value = λ n. refl;
  down_value = counted;
  down_ready = ready;
}
  where
    counted : (s t : ℕ) → counter_down s ≡ some t → s ≡ suc t
    counted zero t e = cc
    counted (suc n) t e = cc

    ready : (s : ℕ) → 1 ≤ s → (t : ℕ) × (counter_down s ≡ some t)
    ready zero h = absurd (omega arith)
    ready (suc n) h = (n, refl)

-- The first task holds the mutex, and the second waits for it.
abbrev contended : Tasks counter
contended = record {
  mutex = record { locked = true; waiters = 1; sem = 0 };
  condvar = record { sem = 0; waiters = 0 };
  tasks = holding ∷ acquiring ∷ [];
}

contended-Reach : Reach counter contended
unfolding acquire unlocked unused
contended-Reach =
    next
      (next (start (idle ∷ idle ∷ []) (refl, (refl, tt)))
        (pick [] (idle ∷ []) (lock (unlocked counter) (unused counter))))
      (pick (holding ∷ []) [] (lock (acquire counter (unlocked counter)).1 (unused counter)))

-- The first task has unlocked it.
abbrev passed_on : Tasks counter
passed_on = record {
  mutex = record { locked = true; waiters = 0; sem = 1 };
  condvar = record { sem = 0; waiters = 0 };
  tasks = idle ∷ acquiring ∷ [];
}

passed_on-Reach : Reach counter passed_on
unfolding release
passed_on-Reach = next contended-Reach (
    pick [] (acquiring ∷ [])
      (unlock (record { locked = true; waiters = 1; sem = 0 }) (record { sem = 0; waiters = 0 })))

Reach-IsConsistent_example : IsConsistent counter contended
Reach-IsConsistent_example = Reach-IsConsistent counter contended-Reach

Reach-exclusive_example : count holds (holding ∷ acquiring ∷ []) ≤ 1
Reach-exclusive_example = Reach-exclusive counter contended-Reach

Reach-progress_example :
    (count holds (idle ∷ acquiring ∷ []) ≡ 1) ⊎ ((t : ℕ) × (counter_down 1 ≡ some t))
Reach-progress_example = Reach-progress counter passed_on-Reach (omega arith)

-- A task has run the initialisation, and a second one has returned at once.
initialised-Runs : Runs (record { flag = done; runs = 1; tasks = returned ∷ returned ∷ [] })
unfolding enter complete
initialised-Runs =
    Once.Runs.next
      (Once.Runs.next
        (Once.Runs.next (Once.Runs.start (before ∷ before ∷ []) (refl, (refl, tt)))
          (Once.Turn.pick [] (before ∷ []) (call untried 0)))
        (Once.Turn.pick [] (before ∷ []) (succeed in_progress 0)))
      (Once.Turn.pick (returned ∷ []) [] (call done 1))

Runs-once_example :
    (total is_initialising (returned ∷ returned ∷ []) ≤ 1)
    × (1 ≤ 1)
    × ((total is_returned (returned ∷ returned ∷ []) ≡ 0) ⊎ (◌≡◌ {A = ℕ} 1 1))
Runs-once_example = Runs-once initialised-Runs

-- A thread whose task ended before it is joined.
abbrev ended_thread : Thread
ended_thread = record {
  handle = some (record { task = false; detached = false; joined = false });
  running = false;
  opaque = true;
}

ended_thread-Lives : Lives ended_thread
unfolding create_thread destroy_task
ended_thread-Lives = after ending created refl refl

Lives-IsOwned_next_example : Holds IsOwned (join_thread ended_thread)
Lives-IsOwned_next_example = Lives-IsOwned_next ended_thread-Lives joining refl
