-- ===== src/Timer.antt =====
-- hbird-sdk/SoC/hbirdv2/Common/Source/hbirdv2_common.c: waiting for a time, and measuring the clock.
pub mod Delay
pub mod Frequency
pub mod Measure
pub mod Accuracy
mod Examples
use rep_vgg_acc.Base.{
  ℕ, zero, suc, ◌+◌, ◌-◌, ◌*◌, ◌/◌, ◌%◌, ◌^◌, u32, u64, ltb, ◌==◌, if◌then◌else◌,
}
use rep_vgg_acc.Machine.{Prog, done, spinning, fault, pure, ◌>>=◌}

-- Differences of a `uint64_t` and of a `uint32_t`.
abbrev pub minus64 : ℕ → ℕ → ℕ
minus64 a b = u64 (a + 2 ^ 64 - b)

abbrev pub minus32 : ℕ → ℕ → ℕ
minus32 a b = u32 (a + 2 ^ 32 - b)

-- `SysTimer_GetLoadValue` and the read of the mcycle register are functions of NMSIS, and
-- `timer_freq` is SOC_TIMER_FREQ.
module _ {D : Type 0} (get_load_value read_mcycle : Prog D ℕ) (timer_freq : ℕ) where
  -- The loop of `delay_1ms`, with fuel for the rounds.
  pub delay_loop : ℕ → ℕ → ℕ → Prog D (Unit {0})
  delay_loop zero ticks start d = spinning
  delay_loop (suc fuel) ticks start d =
      (get_load_value >>= λ now t.
      let rest = delay_loop fuel ticks start t in
      if ltb (minus64 now start) ticks then rest else done (tt, t))
        d

  pub delay_1ms : ℕ → ℕ → Prog D (Unit {0})
  delay_1ms fuel count = do
    start ← get_load_value
    delay_loop fuel (u64 (timer_freq * count) / 1000) start

  -- The first loop of `measure_cpu_freq`; the result is the time and the cycle count of its last
  -- round.
  pub tick_loop : ℕ → ℕ → Prog D (ℕ × ℕ)
  tick_loop zero tmp d = spinning
  tick_loop (suc fuel) tmp d =
      (get_load_value >>= λ time. read_mcycle >>= λ cycle t.
      let rest = tick_loop fuel tmp t in
      if u32 time == tmp then rest else done ((u32 time, u32 cycle), t))
        d

  -- The second loop; the result is the two differences.
  pub measure_loop : ℕ → ℕ → ℕ → ℕ → Prog D (ℕ × ℕ)
  measure_loop zero n start_mtime start_mcycle d = spinning
  measure_loop (suc fuel) n start_mtime start_mcycle d =
      (get_load_value >>= λ time. read_mcycle >>= λ cycle t.
      let rest = measure_loop fuel n start_mtime start_mcycle t in
      if ltb (minus32 (u32 time) start_mtime) n
      then rest
      else done ((minus32 (u32 time) start_mtime, minus32 (u32 cycle) start_mcycle), t))
        d

  -- The 64-bit result is cut to 32 bits; a division by zero is undefined.
  pub frequency : ℕ → ℕ → Prog D ℕ
  frequency delta_mtime delta_mcycle d =
      if delta_mtime == 0
      then fault
      else done (
        u32 (
            u64 (delta_mcycle / delta_mtime * timer_freq)
            + u64 (delta_mcycle % delta_mtime * timer_freq) / delta_mtime),
        d,
      )

  pub measure_cpu_freq : ℕ → ℕ → Prog D ℕ
  measure_cpu_freq fuel n = do
    tmp ← get_load_value
    start ← tick_loop fuel (u32 tmp)
    delta ← measure_loop fuel n start.0 start.1
    frequency delta.0 delta.1

  pub get_cpu_freq : ℕ → Prog D ℕ
  get_cpu_freq fuel = do warm_up ← measure_cpu_freq fuel 1; measure_cpu_freq fuel 100
