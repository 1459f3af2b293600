-- ===== src/Stubs.antt =====
-- hbird-sdk/SoC/hbirdv2/Common/Source/Stubs: what newlib calls for output, input, memory and time.
pub mod Output
pub mod Heap
pub mod Clock
pub mod Times
pub mod Refusal
mod Examples
use rep_vgg_acc.Base.{
  ℕ, zero, suc, ◌+◌, ◌-◌, ◌*◌, ◌/◌, ◌%◌, Bool, ◌&&◌, ◌||◌, Option, none, some, List, get_elem?, set,
  length, minus_one, u32, ltb, ◌==◌, if◌then◌else◌,
}
use rep_vgg_acc.Base.Int.{ℤ, pos, negsuc, sub_ℕ, ◌+ℤ◌, ◌*ℤ◌}
use rep_vgg_acc.Machine.{Bus, Prog, fault, done, pure, ◌>>=◌}
use rep_vgg_acc.Uart.{uart_write, uart_read}

-- `uart` is SOC_DEBUG_UART, and `isatty` the function of newlib.
module _ {D : Type 0} (bus : Bus D) (uart : Option ℕ) (fuel : ℕ) where
  -- The body of the loop of `_write`; the results of `uart_write` are not used.
  pub put_char : ℕ → Prog D ℕ
  put_char c =
      if c == 10
      then (uart_write bus uart fuel 13 >>= λ _. uart_write bus uart fuel c)
      else uart_write bus uart fuel c

  -- `left` rounds of the loop from index `i`.
  pub write_loop : ℕ → ℕ → List ℕ → Prog D ℕ
  write_loop zero i writebuf d = pure 0 d
  write_loop (suc left) i writebuf d =
      let rest = write_loop left (i + 1) writebuf in
      elim (get_elem? writebuf i) [ none ↦ fault | some c ↦ (put_char c >>= λ _. rest) d ]

  pub stub_write : (ℕ → Bool) → ℕ → List ℕ → ℕ → Prog D ℕ
  stub_write isatty fd ptr len d =
      if isatty fd then (write_loop len 0 ptr >>= λ _. pure len) d else done (minus_one, d)

  -- The buffer after the call stands beside the result.
  pub stub_read : ℕ → List ℕ → Prog D (ℕ × List ℕ)
  stub_read fd ptr d =
      if fd == 0
      then (uart_read bus uart fuel >>= λ c t.
            if ltb 0 (length ptr) then done ((1, set ptr 0 c), t) else fault)
          d
      else done ((minus_one, ptr), d)

-- The state is `curbrk`; `incr` is signed. A pointer outside the heap is never made.
pub stub_sbrk : ℕ → ℕ → ℤ → Prog ℕ ℕ
stub_sbrk end heap_end (pos n) curbrk =
    if ltb (curbrk + n) end || ltb heap_end (curbrk + n)
    then done (minus_one, curbrk)
    else done (curbrk, curbrk + n)
stub_sbrk end heap_end (negsuc n) curbrk =
    if ltb curbrk (end + suc n) || ltb (heap_end + suc n) curbrk
    then done (minus_one, curbrk)
    else done (curbrk, curbrk - suc n)

pub record Timeval : Type 0 where
  pub tv_sec : ℕ
  pub tv_usec : ℕ

-- `cycles` is what `__get_rv_cycle` gives and `clock` is SystemCoreClock; `none` on a division by 0.
-- The 64-bit product cannot overflow, since `clock` is a 32-bit word.
pub stub_gettimeofday : ℕ → ℕ → Option Timeval
stub_gettimeofday cycles clock =
    if clock == 0
    then none
    else some (record { tv_sec = cycles / clock; tv_usec = cycles % clock * 1000000 / clock })

pub record Timespec : Type 0 where
  pub sec : ℕ
  pub nsec : ℕ

-- TIMEVAL_TO_TIMESPEC of newlib multiplies the microseconds by 1000.
pub clock_gettime : ℕ → ℕ → Option Timespec
clock_gettime cycles clock = elim (stub_gettimeofday cycles clock) [
  | none ↦ none
  | some tv ↦ some (record { sec = tv.tv_sec; nsec = tv.tv_usec * 1000 })
]

pub clock_getres : ℕ → Option Timespec
clock_getres clock =
    if clock == 0 then none else some (record { sec = 0; nsec = 1000000000 / clock })

-- `struct tms` of newlib.
pub record Tms : Type 0 where
  pub tms_utime : ℕ
  pub tms_stime : ℕ
  pub tms_cutime : ℕ
  pub tms_cstime : ℕ

-- Division of C, which rounds towards 0, and the conversion to `clock_t`, a 32-bit word.
unfoldable pub quotient : ℤ → ℕ → ℤ
quotient (pos a) n = pos (a / n)
quotient (negsuc a) n = sub_ℕ 0 (suc a / n)

abbrev pub clock_t : ℤ → ℕ
clock_t (pos a) = u32 a
clock_t (negsuc a) = minus_one - u32 a

-- `(t.tv_sec - t0.tv_sec) * 1000000 + (t.tv_usec - t0.tv_usec)`, in `long long`.
unfoldable pub elapsed : Timeval → Timeval → ℤ
elapsed t t0 = sub_ℕ t.tv_sec t0.tv_sec *ℤ pos 1000000 +ℤ sub_ℕ t.tv_usec t0.tv_usec

-- What is stored and returned when `t0` and then `t` were taken; `clocks_per_sec` is CLOCKS_PER_SEC of
-- newlib.
unfoldable pub times_since : ℕ → Option Timeval → Option Timeval → Option ((ℕ × Tms) × Timeval)
times_since clocks_per_sec none t = none
times_since clocks_per_sec (some t0) none = none
times_since clocks_per_sec (some t0) (some t) =
    let utime = clock_t (quotient (elapsed t t0 *ℤ pos clocks_per_sec) 1000000) in
    some ((utime, record { tms_utime = utime; tms_stime = 0; tms_cutime = 0; tms_cstime = 0 }), t0)

-- The static `t0` is the state. `now` is the cycle counter at the call for `t`, `first` at the call for
-- `t0`, which is made while `t0` is zero.
pub stub_times : ℕ → ℕ → ℕ → ℕ → Timeval → Option ((ℕ × Tms) × Timeval)
stub_times clocks_per_sec clock first now t0 =
    times_since clocks_per_sec
      (if t0.tv_sec == 0 && t0.tv_usec == 0 then stub_gettimeofday first clock else some t0)
      (stub_gettimeofday now clock)
