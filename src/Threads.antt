-- ===== src/Threads.antt =====
-- The non-recursive mutexes and the condition variables of the C++ library: libs/libcxx-threading/src,
-- mutex_impl.h, mutex.cpp and condvar.cpp.
mod System
mod Consistency
mod Waiters
mod Exclusion
mod Once
mod Lifetime
mod Time
mod Local
mod Examples
use circle_stdlib.Common.{
  ℕ, zero, suc, ◌+◌, ◌-◌, ◌≤◌, ◌≡◌, Bool, true, false, not, Option, none, some, ltb, if◌then◌else◌,
}

-- What the code relies on in Circle's CSemaphore: it counts. `Down` returns when `try_down` succeeds.
pub record Semaphore : Type 1 where
  pub State : Type 0
  -- storage filled with zeros
  pub unset : State
  pub up : State → State
  pub try_down : State → Option State
  pub value : State → ℕ
  pub unset_value : value unset ≡ 0
  pub up_value : (s : State) → value (up s) ≡ suc (value s)
  pub down_value : (s t : State) → try_down s ≡ some t → value s ≡ suc (value t)
  pub down_ready : (s : State) → 1 ≤ value s → (t : State) × (try_down s ≡ some t)

-- `NonRecursiveMutexImpl`
pub record Mutex (S : Type 0) : Type 0 where
  pub locked : Bool
  pub waiters : ℕ
  pub sem : S

-- `CondvarImpl`
pub record Condvar (S : Type 0) : Type 0 where
  pub sem : S
  pub waiters : ℕ

module _ (C : Semaphore) where
  open C use {State, unset, up, try_down}

  -- Initialisation by zeros.
  unfoldable pub unlocked : Mutex State
  unlocked = record { locked = false; waiters = 0; sem = unset }

  unfoldable pub unused : Condvar State
  unused = record { sem = unset; waiters = 0 }

  -- `Acquire` up to `Down`: whether the mutex is acquired at once. If not, it is when `Down` returns.
  unfoldable pub acquire : Mutex State → Bool × Mutex State
  acquire m =
      if not m.locked
      then (true, record m { locked = true })
      else (false, record m { waiters = m.waiters + 1 })

  unfoldable pub try_acquire : Mutex State → Bool × Mutex State
  try_acquire m = if not m.locked then (true, record m { locked = true }) else (false, m)

  unfoldable pub release : Mutex State → Mutex State
  release m =
      if ltb 0 m.waiters
      then record m { waiters = m.waiters - 1; sem = up m.sem }
      else record m { locked = false }

  -- `__libcpp_condvar_signal`
  unfoldable pub signal : Condvar State → Condvar State
  signal c = if ltb 0 c.waiters then record { sem = up c.sem; waiters = c.waiters - 1 } else c

  unfoldable pub up_times : ℕ → State → State
  up_times zero s = s
  up_times (suc n) s = up_times n (up s)

  -- `__libcpp_condvar_broadcast`
  unfoldable pub broadcast : Condvar State → Condvar State
  broadcast c = record { sem = up_times c.waiters c.sem; waiters = 0 }

  -- `++impl->waiters`
  unfoldable pub enqueue : Condvar State → Condvar State
  enqueue c = record c { waiters = c.waiters + 1 }

  -- `__libcpp_condvar_timedwait` after a timeout: whether it stays one.
  unfoldable pub expire : Condvar State → Bool × Condvar State
  expire c = elim (try_down c.sem) [
    | some s ↦ (false, record c { sem = s })
    | none ↦ (true, record c { waiters = c.waiters - 1 })
  ]
