-- ===== src/Threads/Time.antt =====
-- Times in libs/libcxx-threading/src: `timespec_diff_us` and the waiting time of
-- `__libcpp_condvar_timedwait` in condvar.cpp, `__libcpp_thread_sleep_for` in thread.cpp.
use circle_stdlib.Common.{
  ℕ, ◌+◌, ◌-◌, ◌*◌, ◌/◌, ◌%◌, ◌≤◌, ◌<◌, ◌≡◌, refl, ltb, lt→ltb, if◌then◌else◌, arith,
}
use native.Mathlib.Nat.{mod-eq_of_lt}
use circle_stdlib.Common.Int.{ℤ, pos, negsuc}
use circle_stdlib.Mqtt.{u32_mod}

-- `timespec_diff_us`, for times after the start of 1970: the microseconds from now to a time, or 0 if it is
-- over. The products stay below 2^63 for every time that can be given.
unfoldable pub timespec_diff_us : ℕ → ℕ → ℕ → ℕ → ℕ
timespec_diff_us sec nsec now_sec now_us =
    sec * 1000000 + nsec / 1000 - (now_sec * 1000000 + now_us)

-- What `DownWithTimeout` is called with.
unfoldable pub wait_us : ℕ → ℕ → ℕ → ℕ → ℕ
wait_us sec nsec now_sec now_us = timespec_diff_us sec nsec now_sec now_us % u32_mod

-- What `__libcpp_thread_sleep_for` calls: `Yield`, or `usSleep`.
pub data Sleep : Type 0 where
  yields : Sleep
  sleeps : ℕ → Sleep

-- The quotient of a negative number is not positive.
unfoldable pub sleep_for : ℤ → Sleep
sleep_for (pos ns) = if ltb 0 (ns / 1000) then sleeps (ns / 1000 % u32_mod) else yields
sleep_for (negsuc n) = yields

-- A time of at least a microsecond, and of less than 2^32 of them: the task sleeps that long, up to a part
-- of a microsecond.
sleep_for-short :
    (ns : ℕ)
    → 1000 ≤ ns
    → ns / 1000 < u32_mod
    → (us : ℕ) × (sleep_for (pos ns) ≡ sleeps us) × (us * 1000 ≤ ns) × (ns < us * 1000 + 1000)
unfolding sleep_for
sleep_for-short ns h l = (
  ns / 1000,
  rw (lt→ltb 0 (ns / 1000) (omega arith), mod-eq_of_lt l) refl,
  omega arith,
  omega arith,
)

-- A timed wait of less than 2^32 microseconds ends at the given time: now and the waiting time are together
-- the time, rounded down to a microsecond.
wait_us-short :
    (sec nsec now_sec now_us : ℕ)
    → now_sec * 1000000 + now_us ≤ sec * 1000000 + nsec / 1000
    → timespec_diff_us sec nsec now_sec now_us < u32_mod
    → now_sec * 1000000 + now_us + wait_us sec nsec now_sec now_us ≡ sec * 1000000 + nsec / 1000
unfolding wait_us timespec_diff_us
wait_us-short sec nsec now_sec now_us h l = rw (mod-eq_of_lt l) (omega arith)

-- A sleep of 2^32 microseconds, more than an hour, is none.
sleep_for_long : sleep_for (pos 4294967296000) ≡ sleeps 0
unfolding sleep_for
sleep_for_long = refl
