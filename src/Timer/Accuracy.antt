-- ===== src/Timer/Accuracy.antt =====
-- The frequency that `get_cpu_freq` reports, against the frequency of the clock.
use native.Mathlib.Nat.{add-mul, div-lt_iff_lt-mul, mul-le-mul_right}
use rep_vgg_acc.Base.{ℕ, ◌+◌, ◌*◌, ◌/◌, ◌^◌, ◌≤◌, ◌<◌, u32, ◌≡◌, arith}
use rep_vgg_acc.Machine.{Returns}
use rep_vgg_acc.Machine.Logic.{Returns_mono, Returns->>=}
use rep_vgg_acc.Timer.{measure_cpu_freq, get_cpu_freq}
use rep_vgg_acc.Timer.Delay.{clock_read, Runs}
use rep_vgg_acc.Timer.Measure.{cycle_read, measure_cpu_freq-cycles}

-- `slack` bounds how many cycles the measurement is off.
module _ (period slack freq : ℕ) where
  quotient :
      (f cycles : ℕ)
      → (100 * period + slack) * freq < 2 ^ 32 * 100
      → f ≡ u32 (cycles * freq / 100)
      → 100 * period < cycles + slack
      → cycles < 100 * period + slack
      → (f * 100 ≤ (100 * period + slack) * freq)
        × (100 * period * freq < f * 100 + 100 + slack * freq)
  quotient f cycles fits result more less =
      let above : cycles * freq ≤ (100 * period + slack) * freq =
        mul-le-mul_right freq (omega arith) in
      let below : 100 * period * freq ≤ (cycles + slack) * freq =
        mul-le-mul_right freq (omega arith) in
      let split : (cycles + slack) * freq ≡ cycles * freq + slack * freq =
        add-mul cycles slack freq in
      let word : cycles * freq / 100 < 2 ^ 32 =
        (div-lt_iff_lt-mul {k = 100} {x = cycles * freq} {y = 2 ^ 32} (omega arith)).1
          (omega (arith, above, fits)) in
      (omega (arith, above), omega (arith, below, split))

-- `period` times the frequency of the timer is the frequency of the clock. Where the loops take no
-- longer for a round than a tick, and the measured values fit in 32 bits, `get_cpu_freq` with fuel for
-- as many rounds as 100 ticks have cycles returns, and what it returns is off by at most the
-- hundredth part of the timer's frequency times the cycles of three accesses, and one.
pub get_cpu_freq-accuracy :
    (period : ℕ) (next : ℕ → ℕ) (step : ℕ)
    → Runs next step
    → 2 * step ≤ period
    → (timer_freq fuel begin : ℕ) → 100 * period + 3 * step < 2 ^ 32
    → timer_freq < 2 ^ 32
    → (100 * period + 3 * step) * timer_freq < 2 ^ 32 * 100
    → 100 * period < fuel
    → Returns
        (get_cpu_freq (clock_read period next) (cycle_read next) timer_freq fuel begin)
        λ f end.
          (f * 100 ≤ (100 * period + 3 * step) * timer_freq)
          × (100 * period * timer_freq < f * 100 + 100 + 3 * step * timer_freq)
unfolding get_cpu_freq
get_cpu_freq-accuracy period next step run short timer_freq fuel begin small small_freq fits
      enough =
    let measure = measure_cpu_freq (clock_read period next) (cycle_read next) timer_freq fuel in
    Returns->>= _ _ (measure 1) _ begin
      (measure_cpu_freq-cycles period next step run short timer_freq fuel 1 begin (omega arith)
        (omega arith) small_freq (omega arith))
      λ warm now _.
        Returns_mono _ _ (measure 100 now)
          (measure_cpu_freq-cycles period next step run short timer_freq fuel 100 now (omega arith)
            small small_freq enough)
          λ f end (cycles, result, more, less).
            quotient period (3 * step) timer_freq f cycles fits result more less
