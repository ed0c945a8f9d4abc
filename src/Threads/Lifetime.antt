-- ===== src/Threads/Lifetime.antt =====
-- The join handle of a thread in libs/libcxx-threading/src/thread.cpp: `__libcpp_thread_create`, `join`,
-- `detach` and the destructor of CLibCXXTask. An access to a deleted handle is a missing result.
use circle_stdlib.Common.{
  ◌≡◌, refl, sym, ap, subst, Bool, true, false, not, ◌||◌, Option, none, some, if◌then◌else◌, ◌>>=◌,
  Holds, Holds_some,
}

-- `JoinHandle`; `task` is whether its pointer to the task is not null.
pub record JoinHandle : Type 0 where
  pub task : Bool
  pub detached : Bool
  pub joined : Bool

-- A thread: its handle until it is deleted, whether its task exists, and whether `__opaque` points to the
-- handle.
pub record Thread : Type 0 where
  pub handle : Option JoinHandle
  pub running : Bool
  pub opaque : Bool

-- `__libcpp_thread_create`
unfoldable pub create_thread : Thread
create_thread = record {
  handle = some (record { task = true; detached = false; joined = false });
  running = true;
  opaque = true;
}

-- `~CLibCXXTask`, by the scheduler, once the task has ended
unfoldable pub destroy_task : Thread → Option Thread
destroy_task t = t.handle >>= λ h. some (record t {
  handle = if h.detached || h.joined then none else some (record h { task = false });
  running = false;
})

-- `__libcpp_thread_join`. It waits for the end of the task if there is one, and does not use the handle
-- after that.
unfoldable pub join_thread : Thread → Option Thread
join_thread t = t.handle >>= λ h. some (record t {
  handle = if not h.task then none else some (record h { joined = true });
  opaque = false;
})

-- `__libcpp_thread_detach`
unfoldable pub detach_thread : Thread → Option Thread
detach_thread t = t.handle >>= λ h. some (record t {
  handle = if not h.task then none else some (record h { detached = true });
  opaque = false;
})

-- What happens to a thread: its task ends once, and it is joined or detached once at most, as std::thread
-- does it.
pub data Event : Type 0 where
  ending joining detaching : Event

abbrev pub is_possible : Event → Thread → Bool
is_possible ending t = t.running
is_possible joining t = t.opaque
is_possible detaching t = t.opaque

abbrev pub happen : Event → Thread → Option Thread
happen ending t = destroy_task t
happen joining t = join_thread t
happen detaching t = detach_thread t

pub data Lives : Thread → Type 0 where
  created : Lives create_thread
  after :
      {t u : Thread} (e : Event) → Lives t → is_possible e t ≡ true → happen e t ≡ some u → Lives u

-- Whether the task exists, whether `__opaque` points to the handle, and the handle: it exists while the
-- task or the owner of the thread may use it, points to the task while that exists, and is marked once
-- the owner has joined or detached the thread.
abbrev pub Owned : Bool → Bool → Option JoinHandle → Type 0
Owned running true (some h) = (h.task ≡ running) × ((h.detached || h.joined) ≡ false)
Owned true false (some h) = (h.task ≡ true) × ((h.detached || h.joined) ≡ true)
Owned false false (some h) = ⊥
Owned true true none = ⊥
Owned false true none = ⊥
Owned true false none = ⊥
Owned false false none = Unit {0}

abbrev pub IsOwned : Thread → Type 0
IsOwned t = Owned t.running t.opaque t.handle

or_true : (b : Bool) → (b || true) ≡ true
or_true true = refl
or_true false = refl

-- The fields of a thread, as they change.
abbrev thread : Option JoinHandle → Bool → Bool → Thread
thread h running opaque = record { handle = h; running = running; opaque = opaque }

destroy_task-IsOwned :
    (h : Option JoinHandle) (opaque : Bool)
    → Owned true opaque h
    → Holds IsOwned (destroy_task (thread h true opaque))
unfolding destroy_task
destroy_task-IsOwned none true i = absurd i
destroy_task-IsOwned none false i = absurd i
destroy_task-IsOwned (some h) true i = rw (i.1) (refl, i.1)
destroy_task-IsOwned (some h) false i = rw (i.1) tt

join_thread-IsOwned :
    (h : Option JoinHandle) (running : Bool)
    → Owned running true h
    → Holds IsOwned (join_thread (thread h running true))
unfolding join_thread
join_thread-IsOwned none true i = absurd i
join_thread-IsOwned none false i = absurd i
join_thread-IsOwned (some h) true i = rw (i.0) (refl, or_true h.detached)
join_thread-IsOwned (some h) false i = rw (i.0) tt

detach_thread-IsOwned :
    (h : Option JoinHandle) (running : Bool)
    → Owned running true h
    → Holds IsOwned (detach_thread (thread h running true))
unfolding detach_thread
detach_thread-IsOwned none true i = absurd i
detach_thread-IsOwned none false i = absurd i
detach_thread-IsOwned (some h) true i = rw (i.0) (refl, refl)
detach_thread-IsOwned (some h) false i = rw (i.0) tt

happen-IsOwned :
    (e : Event) (t : Thread) → IsOwned t → is_possible e t ≡ true → Holds IsOwned (happen e t)
happen-IsOwned ending t i p =
    subst (λ u. Holds IsOwned (destroy_task u)) (sym (ap (λ b. thread t.handle b t.opaque) p))
      (destroy_task-IsOwned t.handle t.opaque (subst (λ b. Owned b t.opaque t.handle) p i))
happen-IsOwned joining t i p =
    subst (λ u. Holds IsOwned (join_thread u)) (sym (ap (thread t.handle t.running) p))
      (join_thread-IsOwned t.handle t.running (subst (λ b. Owned t.running b t.handle) p i))
happen-IsOwned detaching t i p =
    subst (λ u. Holds IsOwned (detach_thread u)) (sym (ap (thread t.handle t.running) p))
      (detach_thread-IsOwned t.handle t.running (subst (λ b. Owned t.running b t.handle) p i))

Lives-IsOwned : {t : Thread} → Lives t → IsOwned t
unfolding create_thread
Lives-IsOwned created = (refl, refl)
Lives-IsOwned (after {t} {u} e l p q) =
    Holds_some IsOwned (happen e t) u q (happen-IsOwned e t (Lives-IsOwned l) p)

-- A thread is created; its task ends, and its owner joins or detaches it, in any order, each at most once
-- and the owner one of the two. Whatever can happen next finds the join handle undeleted. Behind it the
-- handle is deleted if and only if both the task is gone and the owner has joined or detached the thread:
-- it is deleted once and not lost.
pub Lives-IsOwned_next :
    {t : Thread} → Lives t → (e : Event) → is_possible e t ≡ true → Holds IsOwned (happen e t)
Lives-IsOwned_next {t} l e p = happen-IsOwned e t (Lives-IsOwned l) p
