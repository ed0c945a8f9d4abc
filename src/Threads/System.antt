-- ===== src/Threads/System.antt =====
-- Tasks that use one mutex and one condition variable. The scheduler switches only where a task waits at
-- a semaphore, yields, or does something else, so that a step is what a task does between two of these
-- points.
use circle_stdlib.Common.{Bool, true, false, List, [], ◌∷◌, ◌++◌, ◌≡◌, some}
use circle_stdlib.Threads.{
  Semaphore, Mutex, Condvar, unlocked, unused, acquire, try_acquire, release, signal, broadcast,
  enqueue, expire,
}

-- Where a task is: it does not hold the mutex, it waits in `Acquire`, it holds the mutex, or it waits in
-- `__libcpp_condvar_wait` or, timed, in `__libcpp_condvar_timedwait`.
pub data Pc : Type 0 where
  idle acquiring holding : Pc
  waiting : Bool → Pc

abbrev pub entered : Bool → Pc
entered true = holding
entered false = acquiring

abbrev pub tried : Bool → Pc
tried true = holding
tried false = idle

-- A task that is running, so that it can call a function.
abbrev pub IsRunning : Pc → Type 0
IsRunning idle = Unit {0}
IsRunning holding = Unit {0}
IsRunning _ = ⊥

abbrev pub AreIdle : List Pc → Type 0
AreIdle [] = Unit {0}
AreIdle (p ∷ ps) = (p ≡ idle) × AreIdle ps

module _ (C : Semaphore) where
  open C use {State, try_down}

  -- One task: the objects and the task, before and after. Only the owner unlocks the mutex or waits.
  pub data Move : Mutex State → Condvar State → Pc → Mutex State → Condvar State → Pc → Type 0 where
    lock :
        (m : Mutex State) (c : Condvar State)
        → Move m c idle (acquire C m).1 c (entered (acquire C m).0)
    granted :
        (m : Mutex State) (c : Condvar State) (s : State)
        → try_down m.sem ≡ some s
        → Move m c acquiring (record m { sem = s }) c holding
    try_lock :
        (m : Mutex State) (c : Condvar State)
        → Move m c idle (try_acquire C m).1 c (tried (try_acquire C m).0)
    unlock : (m : Mutex State) (c : Condvar State) → Move m c holding (release C m) c idle
    wait :
        (m : Mutex State) (c : Condvar State) (timed : Bool)
        → Move m c holding (release C m) (enqueue C c) (waiting timed)
    woken :
        (m : Mutex State) (c : Condvar State) (timed : Bool) (s : State)
        → try_down c.sem ≡ some s
        → Move m c (waiting timed) (acquire C m).1 (record c { sem = s }) (entered (acquire C m).0)
    timeout :
        (m : Mutex State) (c : Condvar State)
        → Move m c (waiting true) (acquire C m).1 (expire C c).1 (entered (acquire C m).0)
    notify_one :
        (m : Mutex State) (c : Condvar State) (p : Pc) → IsRunning p → Move m c p m (signal C c) p
    notify_all :
        (m : Mutex State) (c : Condvar State) (p : Pc)
        → IsRunning p
        → Move m c p m (broadcast C c) p

  pub record Tasks : Type 0 where
    pub mutex : Mutex State
    pub condvar : Condvar State
    pub tasks : List Pc

  -- Any task may be next.
  pub data Step : Tasks → Tasks → Type 0 where
    pick :
        (front back : List Pc) {m m' : Mutex State} {c c' : Condvar State} {p p' : Pc}
        → Move m c p m' c' p'
        → Step
            (record { mutex = m; condvar = c; tasks = front ++ (p ∷ back) })
            (record { mutex = m'; condvar = c'; tasks = front ++ (p' ∷ back) })

  -- From zeroed objects, and tasks that use neither.
  pub data Reach : Tasks → Type 0 where
    start :
        (ps : List Pc)
        → AreIdle ps
        → Reach (record { mutex = unlocked C; condvar = unused C; tasks = ps })
    next : {s t : Tasks} → Reach s → Step s t → Reach t
