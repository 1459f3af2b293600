-- ===== src/Timer/Frequency.antt =====
-- The quotient at the end of `measure_cpu_freq`, computed in two parts so that no product overflows.
use native.Mathlib.Nat.{mul-le-mul, div-le_self, mod-le}
use rep_vgg_acc.Base.{ℕ, ◌*◌, ◌/◌, ◌%◌, ◌^◌, ◌<◌, ◌≤◌, u32, u64, ◌≡◌, refl, false, ◌==◌, arith}
use rep_vgg_acc.Base.Division.{two_parts}
use rep_vgg_acc.Machine.{Prog, done}
use rep_vgg_acc.Timer.{frequency}

product : (a f : ℕ) → a < 2 ^ 32 → f < 2 ^ 32 → u64 (a * f) ≡ a * f
product a f small_a small_f =
    let bound : a * f ≤ 0xffff_ffff * 0xffff_ffff =
      mul-le-mul {n₁ = a} {m₁ = f} {n₂ = 0xffff_ffff} {m₂ = 0xffff_ffff} (omega arith)
        (omega arith) in
    omega (arith, bound)

pub frequency-quotient :
    {D : Type 0} (get_load_value read_mcycle : Prog D ℕ)
    → (timer_freq ticks cycles : ℕ) → (d : D) → 0 < ticks
    → cycles < 2 ^ 32
    → timer_freq < 2 ^ 32
    → frequency get_load_value read_mcycle timer_freq ticks cycles d
      ≡ done (u32 (cycles * timer_freq / ticks), d)
unfolding frequency
frequency-quotient get_load_value read_mcycle timer_freq ticks cycles d pos small_cycles
      small_freq =
    let runs : (ticks == 0) ≡ false = ground arith in
    let whole =
      product (cycles / ticks) timer_freq (omega (arith, div-le_self cycles ticks)) small_freq in
    let part =
      product (cycles % ticks) timer_freq (omega (arith, mod-le cycles ticks)) small_freq in
    rw (runs, whole, part, two_parts cycles ticks timer_freq pos) refl
