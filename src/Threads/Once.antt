-- ===== src/Threads/Once.antt =====
-- `__libcpp_execute_once` in libs/libcxx-threading/src/thread.cpp, called with one flag by any number of
-- tasks. The initialisation may let other tasks run, and it may throw.
use circle_stdlib.Common.{
  ℕ, suc, ◌+◌, ◌≤◌, ◌≡◌, refl, sym, ap, ◌∙◌, subst, List, [], ◌∷◌, ◌++◌, arith, ◌⊎◌, inl, inr,
  dec_lt,
}

-- `*__flag`: 0, 1 or 2
pub data Flag : Type 0 where
  untried in_progress done : Flag

-- Where a task is: before the call, in `__init_routine`, in the inner loop, or behind the call, which
-- returned or threw.
pub data Caller : Type 0 where
  before initialising spinning returned thrown : Caller

-- The start of the outer loop: the flag and where the task is then.
unfoldable pub enter : Flag → Flag × Caller
enter done = (done, returned)
enter untried = (in_progress, initialising)
enter in_progress = (in_progress, spinning)

-- `__init_routine` has returned, or thrown.
unfoldable pub complete : Flag × Caller
complete = (done, returned)

unfoldable pub rethrow : Flag × Caller
rethrow = (untried, thrown)

-- A step of one task, with the number of times that the initialisation has returned.
pub data Act : Flag → ℕ → Caller → Flag → ℕ → Caller → Type 0 where
  call : (f : Flag) (n : ℕ) → Act f n before (enter f).0 n (enter f).1
  succeed : (f : Flag) (n : ℕ) → Act f n initialising complete.0 (suc n) complete.1
  fail : (f : Flag) (n : ℕ) → Act f n initialising rethrow.0 n rethrow.1
  again : (f : Flag) (n : ℕ) → Act f n spinning (enter f).0 n (enter f).1

pub record Callers : Type 0 where
  pub flag : Flag
  pub runs : ℕ
  pub tasks : List Caller

pub data Turn : Callers → Callers → Type 0 where
  pick :
      (front back : List Caller) {f g : Flag} {n k : ℕ} {p q : Caller}
      → Act f n p g k q
      → Turn
          (record { flag = f; runs = n; tasks = front ++ (p ∷ back) })
          (record { flag = g; runs = k; tasks = front ++ (q ∷ back) })

abbrev pub AreBefore : List Caller → Type 0
AreBefore [] = Unit {0}
AreBefore (p ∷ ps) = (p ≡ before) × AreBefore ps

pub data Runs : Callers → Type 0 where
  start : (ps : List Caller) → AreBefore ps → Runs (record { flag = untried; runs = 0; tasks = ps })
  next : {s t : Callers} → Runs s → Turn s t → Runs t

abbrev pub is_initialising : Caller → ℕ
is_initialising initialising = 1
is_initialising _ = 0

abbrev pub is_returned : Caller → ℕ
is_returned returned = 1
is_returned _ = 0

abbrev pub total : (Caller → ℕ) → List Caller → ℕ
total f [] = 0
total f (p ∷ ps) = f p + total f ps

abbrev busy : Flag → ℕ
busy in_progress = 1
busy _ = 0

abbrev finished_runs : Flag → ℕ
finished_runs done = 1
finished_runs _ = 0

total_middle :
    (f : Caller → ℕ) (front : List Caller) (p : Caller) (back : List Caller)
    → total f (front ++ (p ∷ back)) ≡ f p + total f (front ++ back)
total_middle f [] p back = refl
total_middle f (q ∷ front) p back = omega (arith, total_middle f front p back)

total_none : (f : Caller → ℕ) → f before ≡ 0 → (ps : List Caller) → AreBefore ps → total f ps ≡ 0
total_none f e [] a = refl
total_none f e (p ∷ ps) a = omega (arith, ap f a.0, e, total_none f e ps a.1)

-- With `i` tasks in the initialisation and `r` that have returned.
record IsCounted (f : Flag) (n i r : ℕ) : Type 0 where
  one_at_a_time : i ≡ busy f
  counted : n ≡ finished_runs f
  after_it : 1 ≤ r → f ≡ done

untried_not_done : untried ≡ done → ⊥
untried_not_done e = cc

in_progress_not_done : in_progress ≡ done → ⊥
in_progress_not_done e = cc

busy_le : (f : Flag) → busy f ≤ 1
busy_le untried = omega arith
busy_le in_progress = omega arith
busy_le done = omega arith

finished_le : (f : Flag) → finished_runs f ≤ 1
finished_le untried = omega arith
finished_le in_progress = omega arith
finished_le done = omega arith

-- The initialisation begins.
begun : (n i r : ℕ) → IsCounted untried n (0 + i) (0 + r) → IsCounted in_progress n (1 + i) (0 + r)
begun n i r c = record {
  one_at_a_time = omega (arith, c.one_at_a_time);
  counted = c.counted;
  after_it = λ h. absurd (untried_not_done (c.after_it h));
}

Act-IsCounted :
    (i r : ℕ) {f g : Flag} {n k : ℕ} {p q : Caller}
    → Act f n p g k q
    → IsCounted f n (is_initialising p + i) (is_returned p + r)
    → IsCounted g k (is_initialising q + i) (is_returned q + r)
unfolding enter complete rethrow
Act-IsCounted i r (call untried n) c = begun n i r c
Act-IsCounted i r (call in_progress n) c = c
Act-IsCounted i r (call done n) c = record {
  one_at_a_time = c.one_at_a_time;
  counted = c.counted;
  after_it = λ h. refl;
}
Act-IsCounted i r (succeed untried n) c = absurd (omega (arith, c.one_at_a_time))
Act-IsCounted i r (succeed in_progress n) c = record {
  one_at_a_time = omega (arith, c.one_at_a_time);
  counted = ap (λ x. suc x) c.counted;
  after_it = λ h. refl;
}
Act-IsCounted i r (succeed done n) c = absurd (omega (arith, c.one_at_a_time))
Act-IsCounted i r (fail untried n) c = absurd (omega (arith, c.one_at_a_time))
Act-IsCounted i r (fail in_progress n) c = record {
  one_at_a_time = omega (arith, c.one_at_a_time);
  counted = c.counted;
  after_it = λ h. absurd (in_progress_not_done (c.after_it h));
}
Act-IsCounted i r (fail done n) c = absurd (omega (arith, c.one_at_a_time))
Act-IsCounted i r (again untried n) c = begun n i r c
Act-IsCounted i r (again in_progress n) c = c
Act-IsCounted i r (again done n) c = record {
  one_at_a_time = c.one_at_a_time;
  counted = c.counted;
  after_it = λ h. refl;
}

recounted : (f : Flag) (n i i' r r' : ℕ) → i ≡ i' → r ≡ r' → IsCounted f n i r → IsCounted f n i' r'
recounted f n i i' r r' e h c =
    subst (λ x. IsCounted f n x r') e (subst (λ x. IsCounted f n i x) h c)

Turn-IsCounted :
    {s t : Callers}
    → Turn s t
    → IsCounted s.flag s.runs (total is_initialising s.tasks) (total is_returned s.tasks)
    → IsCounted t.flag t.runs (total is_initialising t.tasks) (total is_returned t.tasks)
Turn-IsCounted (pick front back {f} {g} {n} {k} {p} {q} act) c =
    recounted g k _ _ _ _ (sym (total_middle is_initialising front q back))
      (sym (total_middle is_returned front q back))
      (Act-IsCounted (total is_initialising (front ++ back)) (total is_returned (front ++ back)) act
        (recounted f n _ _ _ _ (total_middle is_initialising front p back)
          (total_middle is_returned front p back) c))

Runs-IsCounted :
    {s : Callers}
    → Runs s
    → IsCounted s.flag s.runs (total is_initialising s.tasks) (total is_returned s.tasks)
Runs-IsCounted (start ps a) =
    recounted untried 0 0 _ 0 _ (sym (total_none is_initialising refl ps a))
      (sym (total_none is_returned refl ps a))
      (record { one_at_a_time = refl; counted = refl; after_it = λ h. absurd (omega arith) })
Runs-IsCounted (next r turn) = Turn-IsCounted turn (Runs-IsCounted r)

-- Any number of tasks call `__libcpp_execute_once` with one flag, and the initialisation may let other
-- tasks run, and throw. At most one task is in the initialisation, it returns at most once, and if a call
-- has returned, it has returned once.
pub Runs-once :
    {s : Callers}
    → Runs s
    → (total is_initialising s.tasks ≤ 1)
      × (s.runs ≤ 1)
      × ((total is_returned s.tasks ≡ 0) ⊎ (s.runs ≡ 1))
Runs-once {s} r =
    let c = Runs-IsCounted r in
    (
      omega (arith, c.one_at_a_time, busy_le s.flag),
      omega (arith, c.counted, finished_le s.flag),
      elim (dec_lt 0 (total is_returned s.tasks)) [
        | yes h ↦ inr (c.counted ∙ ap finished_runs (c.after_it h))
        | no h ↦ inl (omega (arith, h))
      ],
    )
