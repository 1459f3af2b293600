-- ===== src/Timer/Delay.antt =====
-- How long `delay_1ms` waits.
use native.Mathlib.Nat.{div-lt_iff_lt-mul, le-div_iff_mul-le, div-mul-le_self, le-mul_of_pos_right}
use rep_vgg_acc.Base.{
  ℕ, zero, suc, ◌+◌, ◌*◌, ◌/◌, ◌^◌, ◌≤◌, ◌<◌, u64, inl, inr, Bool-cases, ltb, ◌≡◌, arith,
}
use rep_vgg_acc.Machine.{Prog, Returns, done}
use rep_vgg_acc.Timer.{delay_1ms, delay_loop, minus64}

-- The state is the time in cycles, unbounded; the timer ticks every `period` of them. A read gives the
-- low 64 bits of its count, and the next access comes at the time `next` says.
abbrev pub clock_read : ℕ → (ℕ → ℕ) → Prog ℕ ℕ
clock_read period next now = done (u64 (now / period), next now)

-- Time goes on by at least one cycle and at most `step` cycles from one access to the next.
pub record Runs (next : ℕ → ℕ) (step : ℕ) : Type 0 where
  pub later : (t : ℕ) → t < next t
  pub soon : (t : ℕ) → next t ≤ t + step

module _ (period : ℕ) (positive : 0 < period) (next : ℕ → ℕ) (step : ℕ) (run : Runs next step)
    (read_mcycle : Prog ℕ ℕ) (timer_freq : ℕ) where
  -- The time of the tick that the loop waits for.
  target : ℕ → ℕ → ℕ
  target ticks begin = (begin / period + ticks) * period

  -- The difference of the counts is below 2 ^ 64, so it survives the wrap-around.
  difference :
      (ticks begin now : ℕ)
      → ticks + 1 + step < 2 ^ 64
      → begin ≤ now
      → now ≤ target (ticks + 1) begin + step
      → minus64 (u64 (now / period)) (u64 (begin / period)) + begin / period ≡ now / period
  unfolding target
  difference ticks begin now small after near =
      let from : begin / period ≤ now / period =
        (le-div_iff_mul-le positive).1 (omega (arith, div-mul-le_self begin period)) in
      let to : now / period < begin / period + ticks + 1 + (step + 1) =
        (div-lt_iff_lt-mul positive).1 (omega (arith, le-mul_of_pos_right step positive)) in
      omega arith

  delay_loop-bounds :
      (fuel ticks begin now : ℕ)
      → ticks + 1 + step < 2 ^ 64
      → begin ≤ now
      → now ≤ target (ticks + 1) begin + step
      → 0 < fuel
      → target ticks begin < now + fuel
      → Returns
          (delay_loop
            (clock_read period next)
            read_mcycle
            timer_freq
            fuel
            ticks
            (u64 (begin / period))
            now)
          λ r end.
            (begin / period + ticks ≤ end / period) × (end ≤ target (ticks + 1) begin + 2 * step)
  unfolding delay_loop
  delay_loop-bounds zero ticks begin now small after near some_left enough = absurd (omega arith)
  delay_loop-bounds (suc fuel) ticks begin now small after near some_left enough =
      let apart = difference ticks begin now small after near in
      elim (Bool-cases (ltb (minus64 (u64 (now / period)) (u64 (begin / period))) ticks)) [
        | inl early ↦
            let in_ticks : now / period < begin / period + ticks = ground (arith, apart) in
            let so_far : now < target ticks begin =
              unfold target in (div-lt_iff_lt-mul positive).0 in_ticks in
            rw early (
              delay_loop-bounds fuel ticks begin (next now) small (omega (arith, run.later now))
                (unfold target in omega (arith, so_far, run.soon now)) (omega (arith, so_far))
                (omega (arith, so_far, run.later now)))
        | inr over ↦
            let in_ticks : begin / period + ticks ≤ now / period = ground (arith, apart) in
            let so_far : (begin / period + ticks) * period ≤ now =
              (le-div_iff_mul-le positive).0 in_ticks in
            rw over (
              (le-div_iff_mul-le positive).1 (omega (arith, so_far, run.later now)),
              omega (arith, near, run.soon now),
            )
      ]

  -- For a timer that runs, `delay_1ms` with a number of ticks that leaves room for one more and a step
  -- below 2 ^ 64, and with fuel for as many rounds as these ticks have cycles and one more: it returns, not
  -- before the ticks have passed and at most two steps after the tick that follows the last of them,
  -- also when the counter wraps around.
  pub delay_1ms-bounds :
      (fuel count begin : ℕ)
      → u64 (timer_freq * count) / 1000 + 1 + step < 2 ^ 64
      → u64 (timer_freq * count) / 1000 * period < fuel
      → Returns
          (delay_1ms (clock_read period next) read_mcycle timer_freq fuel count begin)
          λ r end.
            (begin / period + u64 (timer_freq * count) / 1000 ≤ end / period)
            × (end ≤ (begin / period + (u64 (timer_freq * count) / 1000 + 1)) * period + 2 * step)
  unfolding delay_1ms target
  delay_1ms-bounds fuel count begin small enough =
      let ticks : ℕ = u64 (timer_freq * count) / 1000 in
      let tick : begin < (begin / period + 1) * period =
        (div-lt_iff_lt-mul positive).0 (omega arith) in
      delay_loop-bounds fuel ticks begin (next begin) small (omega (arith, run.later begin))
        (omega (arith, run.soon begin, tick)) (omega arith)
        (omega (arith, enough, div-mul-le_self begin period, run.later begin))
