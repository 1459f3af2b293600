-- ===== src/Stubs/Clock.antt =====
-- The time of day from the cycle counter.
use native.Mathlib.Nat.{mod-lt, div-lt_iff_lt-mul}
use rep_vgg_acc.Base.{ℕ, ◌+◌, ◌*◌, ◌/◌, ◌%◌, ◌<◌, ◌≡◌, refl, some, false, ◌==◌, arith}
use rep_vgg_acc.Base.Division.{two_parts}
use rep_vgg_acc.Stubs.{Timeval, Timespec, stub_gettimeofday, clock_gettime}

below_a_second : (cycles clock : ℕ) → 0 < clock → cycles % clock * 1000000 / clock < 1000000
below_a_second cycles clock pos = (div-lt_iff_lt-mul pos).1 (omega (arith, mod-lt cycles pos))

-- For a clock that runs `_gettimeofday` gives the number of whole microseconds that `cycles` cycles
-- take, split into seconds and less than a million microseconds.
pub stub_gettimeofday-microseconds :
    (cycles clock : ℕ)
    → 0 < clock
    → (tv : Timeval) × (stub_gettimeofday cycles clock ≡ some tv)
      × (tv.tv_sec * 1000000 + tv.tv_usec ≡ cycles * 1000000 / clock)
      × (tv.tv_usec < 1000000)
unfolding stub_gettimeofday
stub_gettimeofday-microseconds cycles clock pos =
    let runs : (clock == 0) ≡ false = ground arith in
    (
      record { tv_sec = cycles / clock; tv_usec = cycles % clock * 1000000 / clock },
      rw runs refl,
      two_parts cycles clock 1000000 pos,
      below_a_second cycles clock pos,
    )

-- For a clock that runs `clock_gettime` gives the same time in nanoseconds, less than a thousand
-- million of them, and so is less than a microsecond behind the cycle counter.
clock_gettime-nanoseconds :
    (cycles clock : ℕ)
    → 0 < clock
    → (tp : Timespec) × (clock_gettime cycles clock ≡ some tp)
      × (tp.sec * 1000000000 + tp.nsec ≡ cycles * 1000000 / clock * 1000)
      × (tp.nsec < 1000000000)
unfolding clock_gettime
clock_gettime-nanoseconds cycles clock pos =
    let (tv, given, total, small) = stub_gettimeofday-microseconds cycles clock pos in
    (
      record { sec = tv.tv_sec; nsec = tv.tv_usec * 1000 },
      rw (given, clock_gettime) refl,
      omega (arith, total),
      omega (arith, small),
    )
