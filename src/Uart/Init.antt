-- ===== src/Uart/Init.antt =====
-- `uart_init` programs the baud rate divisor through the divisor latch access bit.
use native.Mathlib.Nat.{le-div_iff_mul-le, div-le_self}
use rep_vgg_acc.Base.{
  ℕ, inl, inr, Bool-cases, ◌==◌, ◌+◌, ◌-◌, ◌*◌, ◌/◌, ◌%◌, ◌^◌, ◌≤◌, ◌<◌, ◌≡◌, refl, some, arith,
  bit_and,
}
use rep_vgg_acc.Bits.Law.{and_mask}
use rep_vgg_acc.Machine.{Returns}
use rep_vgg_acc.Uart.{uart_init, divisor}
use rep_vgg_acc.Uart.Device.{UartDev, uart_bus, reg_write}

-- The line side never changes the control registers.
pub record IsLine (env : UartDev → UartDev) : Type 0 where
  pub dll_kept : (d : UartDev) → (env d).dll_reg ≡ d.dll_reg
  pub dlm_kept : (d : UartDev) → (env d).dlm_reg ≡ d.dlm_reg
  pub lcr_kept : (d : UartDev) → (env d).lcr_reg ≡ d.lcr_reg
  pub trigger_kept : (d : UartDev) → (env d).trigger_level ≡ d.trigger_level

-- The control registers after a write.
abbrev Written : UartDev → ℕ → ℕ → ℕ → ℕ → Type 0
Written d' dll dlm lcr trigger =
    (d'.dll_reg ≡ dll) × (d'.dlm_reg ≡ dlm) × (d'.lcr_reg ≡ lcr) × (d'.trigger_level ≡ trigger)

write-lcr :
    (q v : ℕ) (d : UartDev)
    → Written (reg_write (32 * q + 12) v d) d.dll_reg d.dlm_reg (v % 256) d.trigger_level
unfolding reg_write
write-lcr q v d = ground arith

write-dlm :
    (q v : ℕ) (d : UartDev)
    → 127 < d.lcr_reg
    → Written (reg_write (32 * q + 4) v d) d.dll_reg (v % 256) d.lcr_reg d.trigger_level
unfolding reg_write
write-dlm q v d h = ground arith

write-dll :
    (q v : ℕ) (d : UartDev)
    → 127 < d.lcr_reg
    → Written (reg_write (32 * q + 0) v d) (v % 256) d.dlm_reg d.lcr_reg d.trigger_level
unfolding reg_write
write-dll q v d h = ground arith

write-fcr :
    (q v : ℕ) (d : UartDev)
    → Written (reg_write (32 * q + 8) v d) d.dll_reg d.dlm_reg d.lcr_reg (v / 64 % 4)
unfolding reg_write
write-fcr q v d = ground arith

divisor_lem :
    (clock baudrate : ℕ)
    → 0 < baudrate
    → baudrate ≤ clock
    → clock < 2 ^ 32
    → divisor clock baudrate ≡ clock / baudrate - 1
divisor_lem clock baudrate pos fits word =
    let quotient : 1 ≤ clock / baudrate = (le-div_iff_mul-le pos).1 (omega arith) in
    let below : clock / baudrate ≤ clock = div-le_self clock baudrate in omega arith

-- `uart_init` on the device at a base address that is a multiple of 32, for a baud rate that is not
-- 0, is at most the clock and has a divisor of at most 16 bits: it returns 0, and the two latches
-- hold the divisor less one, whatever the line side does in between. The format is 8 bits without
-- parity and with latch access off, and the receive trigger level is 3.
pub uart_init-divisor :
    (env : UartDev → UartDev) (q clock baudrate : ℕ) (d : UartDev)
    → IsLine env
    → 0 < baudrate
    → baudrate ≤ clock
    → clock / baudrate ≤ 2 ^ 16
    → clock < 2 ^ 32
    → Returns (uart_init (uart_bus env) (some (32 * q)) clock baudrate d) λ r d'.
      (r ≡ 0)
      × (d'.dlm_reg * 256 + d'.dll_reg ≡ clock / baudrate - 1)
      × (d'.lcr_reg ≡ 3)
      × (d'.trigger_level ≡ 3)
unfolding uart_init
uart_init-divisor env q clock baudrate d line pos fits small word =
    let v : ℕ = divisor clock baudrate in
    let d1 : UartDev = reg_write (32 * q + 12) 0x80 (env d) in
    let d2 : UartDev = reg_write (32 * q + 4) (bit_and (v / 256) 255) (env d1) in
    let d3 : UartDev = reg_write (32 * q + 0) (bit_and v 255) (env d2) in
    let d4 : UartDev = reg_write (32 * q + 8) 0xc6 (env d3) in
    let w1 : d1.lcr_reg ≡ 0x80 = (write-lcr q 0x80 (env d)).2 in
    let e1 : 127 < (env d1).lcr_reg = omega (arith, line.lcr_kept d1) in
    let w2 = write-dlm q (bit_and (v / 256) 255) (env d1) e1 in
    let e2 : 127 < (env d2).lcr_reg = omega (arith, w2.2, line.lcr_kept d2) in
    let w3 = write-dll q (bit_and v 255) (env d2) e2 in
    let w4 = write-fcr q 0xc6 (env d3) in
    let w5 = write-lcr q 3 (env d4) in
    let kept : ((env d4).dll_reg ≡ d4.dll_reg)
        × ((env d4).dlm_reg ≡ d4.dlm_reg)
        × ((env d3).dll_reg ≡ d3.dll_reg)
        × ((env d3).dlm_reg ≡ d3.dlm_reg)
        × ((env d2).dlm_reg ≡ d2.dlm_reg) =
      (line.dll_kept d4, line.dlm_kept d4, line.dll_kept d3, line.dlm_kept d3, line.dlm_kept d2) in
    let latch : v ≡ clock / baudrate - 1 = divisor_lem clock baudrate pos fits word in
    elim (Bool-cases (baudrate == 0)) [
      | inl none_left ↦ absurd (ground arith)
      | inr divides ↦ rw divides (
        refl,
        omega (arith, w5, w4, w3, w2, kept, and_mask 8 (v / 256), and_mask 8 v, latch),
        w5.2,
        omega (arith, w5, w4, line.trigger_kept d4),
      )
    ]
