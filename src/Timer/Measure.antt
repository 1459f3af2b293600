-- ===== src/Timer/Measure.antt =====
-- How exact `measure_cpu_freq` is.
use native.Mathlib.Nat.{div-lt_iff_lt-mul, le-div_iff_mul-le, div-mul-le_self, le-mul_of_pos_right}
use rep_vgg_acc.Base.{
  ℕ, zero, suc, ◌+◌, ◌*◌, ◌/◌, ◌^◌, ◌≤◌, ◌<◌, u32, u64, inl, inr, Bool-cases, ltb, ◌==◌, ◌≡◌, refl,
  ap, ap₂, arith,
}
use rep_vgg_acc.Machine.{Prog, Returns, done}
use rep_vgg_acc.Machine.Logic.{Returns->>=}
use rep_vgg_acc.Timer.{tick_loop, measure_loop, measure_cpu_freq, minus32}
use rep_vgg_acc.Timer.Delay.{clock_read, Runs}
use rep_vgg_acc.Timer.Frequency.{frequency-quotient}

-- A read of the cycle counter, on the clock of Timer.Delay.
abbrev pub cycle_read : (ℕ → ℕ) → Prog ℕ ℕ
cycle_read next now = done (u32 now, next now)

module _ (period : ℕ) (next : ℕ → ℕ) (step : ℕ) (run : Runs next step) (short : 2 * step ≤ period)
    (timer_freq : ℕ) where
  positive : 0 < period
  positive = omega (arith, run.later 0, run.soon 0)

  -- A round of a loop that sees tick `k` for the first time reads the cycle counter at `c`.
  Sees : ℕ → ℕ → Type 0
  Sees k c = (k * period < c) × (c < k * period + 3 * step)

  round :
      (k now : ℕ)
      → now < (k + 1) * period + 2 * step
      → k + 1 ≤ now / period
      → (now / period ≡ k + 1) × Sees (k + 1) (next now)
  unfolding Sees
  round k now near seen =
      let from : (k + 1) * period ≤ now = (le-div_iff_mul-le positive).0 seen in
      let to : now / period < k + 2 = (div-lt_iff_lt-mul positive).1 (omega (arith, near, short)) in
      (omega arith, (omega (arith, run.later now), omega (arith, near, run.soon now)))

  -- The low words that the loops hold of a time and of a cycle count.
  words : (time k c : ℕ) → time ≡ k → ◌≡◌ {A = ℕ × ℕ} (u32 (u64 time), u32 (u32 c)) (u32 k, u32 c)
  words time k c same = ap₂ (λ a b. (a, b)) (omega arith) (omega arith)

  tick_loop-Sees :
      (fuel k now : ℕ)
      → k * period ≤ now
      → now < (k + 1) * period + 2 * step
      → 0 < fuel
      → (k + 1) * period < now + fuel
      → Returns
          (tick_loop (clock_read period next) (cycle_read next) timer_freq fuel (u32 k) now)
          λ r end. (c : ℕ) × (r ≡ (u32 (k + 1), u32 c)) × Sees (k + 1) c × (end ≡ next c)
  unfolding tick_loop
  tick_loop-Sees zero k now from near some_left enough = absurd (omega arith)
  tick_loop-Sees (suc fuel) k now from near some_left enough =
      let after : k ≤ now / period = (le-div_iff_mul-le positive).1 from in
      let to : now / period < k + 2 = (div-lt_iff_lt-mul positive).1 (omega (arith, near, short)) in
      elim (Bool-cases (u32 (u64 (now / period)) == u32 k)) [
        | inl same ↦
            let in_ticks : now / period < k + 1 = ground arith in
            let so_far : now < (k + 1) * period = (div-lt_iff_lt-mul positive).0 in_ticks in
            rw same (
              tick_loop-Sees fuel k (next (next now))
                (omega (arith, from, run.later now, run.later (next now)))
                (omega (arith, so_far, run.soon now, run.soon (next now)))
                (omega (arith, so_far, enough))
                (omega (arith, enough, run.later now, run.later (next now))))
        | inr other ↦
            let (tick, seen) = round k now near (ground (arith, after)) in
            rw other (next now, words (now / period) (k + 1) (next now) tick, seen, refl)
      ]

  -- The difference of the counts of two ticks.
  difference :
      (k n time : ℕ)
      → n < 2 ^ 32
      → k ≤ time
      → time ≤ k + n
      → minus32 (u32 (u64 time)) (u32 k) + k ≡ time
  difference k n time small from to = omega arith

  cycle_difference :
      (start c : ℕ) → start ≤ c → c < start + 2 ^ 32 → minus32 (u32 (u32 c)) (u32 start) + start ≡ c
  cycle_difference start c from to = omega arith

  measure_loop-Sees :
      (n k start : ℕ)
      → Sees k start
      → 0 < n
      → n * period + 3 * step < 2 ^ 32
      → (fuel now : ℕ) → k * period ≤ now
      → start ≤ now
      → now < (k + n) * period + 2 * step
      → 0 < fuel
      → (k + n) * period < now + fuel
      → Returns
          (measure_loop
            (clock_read period next)
            (cycle_read next)
            timer_freq
            fuel
            n
            (u32 k)
            (u32 start)
            now)
          λ r end.
            (δ : ℕ) × (r ≡ (n, δ)) × (n * period < δ + 3 * step) × (δ < n * period + 3 * step)
  unfolding measure_loop Sees
  measure_loop-Sees n k start (start_low, start_high) pos small zero now from since near some_left
        enough =
      absurd (omega arith)
  measure_loop-Sees n k start (start_low, start_high) pos small (suc fuel) now from since near
        some_left enough =
      let ticks : n ≤ n * period = le-mul_of_pos_right n positive in
      let after : k ≤ now / period = (le-div_iff_mul-le positive).1 from in
      let to : now / period < k + n + 1 =
        (div-lt_iff_lt-mul positive).1 (omega (arith, near, short)) in
      let apart =
        difference k n (now / period) (omega (arith, ticks, small)) after (omega (arith, to)) in
      elim (Bool-cases (ltb (minus32 (u32 (u64 (now / period))) (u32 k)) n)) [
        | inl early ↦
            let in_ticks : now / period < k + n = ground (arith, apart) in
            let so_far : now < (k + n) * period = (div-lt_iff_lt-mul positive).0 in_ticks in
            rw early (
              measure_loop-Sees n k start (start_low, start_high) pos small fuel (next (next now))
                (omega (arith, from, run.later now, run.later (next now)))
                (omega (arith, since, run.later now, run.later (next now)))
                (omega (arith, so_far, run.soon now, run.soon (next now)))
                (omega (arith, so_far, enough))
                (omega (arith, enough, run.later now, run.later (next now))))
        | inr over ↦
            let in_ticks : now / period ≡ k + n = ground (arith, apart, to) in
            let so_far : (k + n) * period ≤ now =
              (le-div_iff_mul-le positive).0 (omega (arith, in_ticks)) in
            let cycles =
              cycle_difference start (next now) (omega (arith, since, run.later now))
                (omega (arith, near, run.soon now, start_low, small)) in
            rw over (
              minus32 (u32 (u32 (next now))) (u32 start),
              ap (λ t. (t, minus32 (u32 (u32 (next now))) (u32 start)))
                  (omega (arith, apart, in_ticks)),
              omega (arith, cycles, so_far, run.later now, start_high),
              omega (arith, cycles, near, run.soon now, start_low),
            )
      ]

  -- On a timer that ticks every `period` cycles, where two accesses take no longer than a tick, where
  -- the cycles of the measurement fit in 32 bits, and with fuel for as many rounds as the `n` ticks
  -- have cycles: `measure_cpu_freq` returns, and its result is the product of the frequency of the
  -- timer and a number of cycles, divided by `n` and cut to 32 bits, where that number differs from
  -- that of the cycles in `n` ticks by less than the time of three accesses.
  pub measure_cpu_freq-cycles :
      (fuel n begin : ℕ)
      → 0 < n
      → n * period + 3 * step < 2 ^ 32
      → timer_freq < 2 ^ 32
      → n * period < fuel
      → Returns
          (measure_cpu_freq (clock_read period next) (cycle_read next) timer_freq fuel n begin)
          λ f end.
            (cycles : ℕ) × (f ≡ u32 (cycles * timer_freq / n))
            × (n * period < cycles + 3 * step)
            × (cycles < n * period + 3 * step)
  unfolding measure_cpu_freq Sees
  measure_cpu_freq-cycles fuel n begin pos small small_freq enough =
      let k : ℕ = begin / period in
      let low : k * period ≤ begin = div-mul-le_self begin period in
      let high : begin < (k + 1) * period = (div-lt_iff_lt-mul positive).0 (omega arith) in
      let whole : period ≤ period * n = le-mul_of_pos_right period pos in
      let low_word : u32 (u64 k) ≡ u32 k = omega arith in
      let time : Prog ℕ ℕ = clock_read period next in
      let counter : Prog ℕ ℕ = cycle_read next in
      rw low_word (
        Returns->>= _ _ (tick_loop time counter timer_freq fuel (u32 k)) _ (next begin)
          (tick_loop-Sees fuel k (next begin) (omega (arith, low, run.later begin))
            (omega (arith, high, run.soon begin)) (omega arith)
            (omega (arith, low, whole, enough, run.later begin)))
          λ start now (c, first, (start_low, start_high), here).
            rw (first, here)
              (Returns->>= _ _ (measure_loop time counter timer_freq fuel n (u32 (k + 1)) (u32 c)) _
                (next c)
                (measure_loop-Sees n (k + 1) c (start_low, start_high) pos small fuel (next c)
                  (omega (arith, start_low, run.later c)) (omega (arith, run.later c))
                  (omega (arith, start_high, run.soon c, whole, short)) (omega arith)
                  (omega (arith, start_low, enough, run.later c)))
                λ delta end (δ, both, more, less).
                  rw
                    (
                      both,
                      frequency-quotient time counter timer_freq n δ end pos (omega arith)
                          small_freq,
                    )
                    (δ, refl, more, less)))
