-- ===== src/Stubs/Times.antt =====
-- The process time of `_times`.
use native.Mathlib.Nat.{le-div_iff_mul-le, div-mul-le_self}
use rep_vgg_acc.Base.{
  ℕ, ◌+◌, ◌-◌, ◌*◌, ◌/◌, ◌≤◌, ◌<◌, ◌≡◌, refl, Option, none, some, false, u32, ◌==◌, ◌&&◌, arith,
  ◌∙◌,
}
use rep_vgg_acc.Base.Int.{pos, ◌+ℤ◌, ◌*ℤ◌}
use rep_vgg_acc.Stubs.{
  times_since, Timeval, Tms, stub_gettimeofday, stub_times, elapsed, quotient, clock_t,
}
use rep_vgg_acc.Stubs.Clock.{stub_gettimeofday-microseconds}

-- The time in microseconds.
abbrev pub total : Timeval → ℕ
total t = t.tv_sec * 1000000 + t.tv_usec

elapsed_lem : (t t0 : Timeval) → total t0 ≤ total t → elapsed t t0 ≡ pos (total t - total t0)
unfolding elapsed ◌+ℤ◌ ◌*ℤ◌
elapsed_lem t t0 h = ground arith

pos-*ℤ-pos : (a m : ℕ) → pos a *ℤ pos m ≡ pos (a * m)
unfolding ◌*ℤ◌
pos-*ℤ-pos a m = ground arith

div_mono : (a b n : ℕ) → 0 < n → a ≤ b → a / n ≤ b / n
div_mono a b n positive h = (le-div_iff_mul-le positive).1 (omega (arith, div-mul-le_self a n))

-- What is stored and returned for the time `t` when `t0` is not later.
times_of : ℕ → Timeval → Timeval → ℕ
times_of clocks_per_sec t t0 = u32 ((total t - total t0) * clocks_per_sec / 1000000)

abbrev pub tms_of : ℕ → Tms
tms_of u = record { tms_utime = u; tms_stime = 0; tms_cutime = 0; tms_cstime = 0 }

utime_lem :
    (clocks_per_sec : ℕ) (t t0 : Timeval)
    → total t0 ≤ total t
    → clock_t (quotient (elapsed t t0 *ℤ pos clocks_per_sec) 1000000) ≡ times_of clocks_per_sec t t0
unfolding quotient times_of
utime_lem clocks_per_sec t t0 h =
    rw (elapsed_lem t t0 h, pos-*ℤ-pos (total t - total t0) clocks_per_sec) refl

-- A call when the origin is set.
later_call :
    (clocks_per_sec clock first now : ℕ) (t t0 : Timeval)
    → 0 < total t0
    → total t0 ≤ total t
    → stub_gettimeofday now clock ≡ some t
    → stub_times clocks_per_sec clock first now t0
      ≡ some ((times_of clocks_per_sec t t0, tms_of (times_of clocks_per_sec t t0)), t0)
unfolding stub_times times_since
later_call clocks_per_sec clock first now t t0 set h e =
    let is_set : (t0.tv_sec == 0 && t0.tv_usec == 0) ≡ false = ground arith in
    rw (is_set, e) (rw (utime_lem clocks_per_sec t t0 h) refl)

first_call :
    (clocks_per_sec clock first now : ℕ) (t t0 : Timeval)
    → total t0 ≤ total t
    → stub_gettimeofday first clock ≡ some t0
    → stub_gettimeofday now clock ≡ some t
    → stub_times clocks_per_sec clock first now (record { tv_sec = 0; tv_usec = 0 })
      ≡ some ((times_of clocks_per_sec t t0, tms_of (times_of clocks_per_sec t t0)), t0)
unfolding stub_times times_since
first_call clocks_per_sec clock first now t t0 h e d =
    rw (e, d) (rw (utime_lem clocks_per_sec t t0 h) refl)

abbrev pub no_time : Timeval
no_time = record { tv_sec = 0; tv_usec = 0 }

-- The first call of the program, and then another one at the cycle `now`.
abbrev pub two_calls : ℕ → ℕ → ℕ → ℕ → ℕ → Option ((ℕ × Tms) × Timeval)
two_calls clocks_per_sec clock first second now =
    elim (stub_times clocks_per_sec clock first second no_time) [
      | none ↦ none
      | some (r, t0) ↦ stub_times clocks_per_sec clock now now t0
    ]

-- `_times` counts from its first call: when that was at least a microsecond after the start of the cycle
-- counter, which does not run backwards, a later call returns and stores as the user time the whole
-- microseconds from then to now, in ticks of CLOCKS_PER_SEC, rounded down, modulo 2 ^ 32. The other
-- three times are 0.
stub_times-elapsed :
    (clocks_per_sec clock first second now : ℕ)
    → 0 < clock
    → clock ≤ first * 1000000
    → first ≤ second
    → second ≤ now
    → let u = u32 ((now * 1000000 / clock - first * 1000000 / clock) * clocks_per_sec / 1000000) in
      (t0 : Timeval) × (two_calls clocks_per_sec clock first second now ≡ some ((u, tms_of u), t0))
stub_times-elapsed clocks_per_sec clock first second now runs set h1 h2 =
    let (t0, e0, m0, s0) = stub_gettimeofday-microseconds first clock runs in
    let (t1, e1, m1, s1) = stub_gettimeofday-microseconds second clock runs in
    let (t2, e2, m2, s2) = stub_gettimeofday-microseconds now clock runs in
    let d1 = div_mono (first * 1000000) (second * 1000000) clock runs (omega arith) in
    let d2 = div_mono (second * 1000000) (now * 1000000) clock runs (omega arith) in
    let positive : 0 < first * 1000000 / clock = (le-div_iff_mul-le runs).1 (omega arith) in
    let begun = first_call clocks_per_sec clock first second t1 t0 (omega arith) e0 e1 in
    let counted = later_call clocks_per_sec clock now now t2 t0 (omega arith) (omega arith) e2 in
    let value : times_of clocks_per_sec t2 t0
        ≡ u32 ((now * 1000000 / clock - first * 1000000 / clock) * clocks_per_sec / 1000000) =
      unfold times_of in rw (m2, m0) refl in
    (t0, rw (begun, two_calls) (counted ∙ rw value refl))
