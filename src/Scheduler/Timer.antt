-- ===== src/Scheduler/Timer.antt =====
-- The class `Timer` of schedualer.cpp.
use distributed_nas.Base.{
  ℕ, zero, suc, ◌+◌, ◌*◌, ◌/◌, ◌%◌, ◌<◌, ◌≡◌, ℤ, pos, negsuc, pos_part, ltb_ℤ, if◌then◌else◌, arith,
}

-- `struct timespec`; both parts 0 stand for a timer that is off.
pub record TimeSpec : Type 0 where
  pub tv_sec : ℕ
  pub tv_nsec : ℕ

-- The `it_value` that `Arm` gives to `timer_settime`.
unfoldable pub arm_value : ℤ → TimeSpec
arm_value ms =
    if ltb_ℤ (pos 0) ms
    then record { tv_sec = pos_part ms / 1000; tv_nsec = pos_part ms % 1000 * 1000000 }
    else record { tv_sec = 0; tv_nsec = 1 }

-- The `it_value` of `Disarm`.
unfoldable pub disarm_value : TimeSpec
disarm_value = record { tv_sec = 0; tv_nsec = 0 }

-- `CheckDeadline`, of what `timer_gettime` wrote.
unfoldable pub check_deadline : TimeSpec → ℕ
check_deadline left = left.tv_nsec / 1000000 + left.tv_sec

abbrev pub nanos : TimeSpec → ℕ
nanos t = t.tv_sec * 1000000000 + t.tv_nsec

-- The time that `Arm` sets is one that the kernel accepts and that starts the timer; it is the time
-- asked for, to the nanosecond, if that is positive, and otherwise one nanosecond.
pub nanos-arm_value :
    (ms : ℤ)
    → ((arm_value ms).tv_nsec < 1000000000)
      × (0 < nanos (arm_value ms))
      × (nanos (arm_value ms) ≡ (if ltb_ℤ (pos 0) ms then pos_part ms * 1000000 else 1))
unfolding arm_value
nanos-arm_value (pos zero) = ground arith
nanos-arm_value (pos (suc n)) = ground arith
nanos-arm_value (negsuc n) = ground arith

-- `CheckDeadline` falls short of the milliseconds left by 999 for each whole second left: it adds
-- seconds to milliseconds.
pub check_deadline-millis :
    (left : TimeSpec)
    → left.tv_nsec < 1000000000
    → check_deadline left + 999 * left.tv_sec ≡ nanos left / 1000000
unfolding check_deadline
check_deadline-millis left h = omega arith
