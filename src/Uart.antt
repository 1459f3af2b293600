-- ===== src/Uart.antt =====
-- hbird-sdk/SoC/hbirdv2/Common/Source/Drivers/hbirdv2_uart.c. Its device, the register block of
-- rtl/e203/perips/apb_uart/apb_uart.v, is in `Uart.Device`.
pub mod Device
pub mod Init
pub mod Status
pub mod Transmit
pub mod Receive
mod Examples
use rep_vgg_acc.Base.{
  ℕ, ◌+◌, ◌-◌, ◌*◌, ◌/◌, ◌%◌, ◌^◌, Bool, Option, none, some, not, minus_one, u32, u8, bit_and,
  bit_or, ltb, ◌==◌, if◌then◌else◌, ◌<<<◌, ◌>>>◌,
}
use rep_vgg_acc.Machine.{
  Bus, Prog, Outcome, fault, pure, ◌>>=◌, ◌>>◌, read, write, set_bits, keep_bits, spin_until,
  unless_null,
}

-- The fields of `UART_TypeDef`, three of whose words are unions, and where they stand in it.
pub data Reg : Type 0 where
  rbr dll thr dlm ier iir fcr lcr mcr lsr msr scr : Reg

abbrev pub offset : Reg → ℕ
offset rbr = 0x00
offset dll = 0x00
offset thr = 0x00
offset dlm = 0x04
offset ier = 0x04
offset iir = 0x08
offset fcr = 0x08
offset lcr = 0x0c
offset mcr = 0x10
offset lsr = 0x14
offset msr = 0x18
offset scr = 0x1c

pub data UartStopBit : Type 0 where
  uart_stop_bit_1 uart_stop_bit_2 : UartStopBit

abbrev pub stop_code : UartStopBit → ℕ
stop_code uart_stop_bit_1 = 0
stop_code uart_stop_bit_2 = 1

pub data UartParityBit : Type 0 where
  uart_odd uart_even uart_space uart_mark : UartParityBit

abbrev pub parity_code : UartParityBit → ℕ
parity_code uart_odd = 0
parity_code uart_even = 1
parity_code uart_space = 2
parity_code uart_mark = 3

-- `SystemCoreClock / baudrate - 1` in `unsigned int`.
abbrev pub divisor : ℕ → ℕ → ℕ
divisor clock baudrate = u32 (clock / baudrate + 2 ^ 32 - 1)

-- The tests of `while ((uart->LSR & 0x20) == 0);` and `while ((uart->LSR & 0x1) == 0);`.
abbrev pub thr_empty : ℕ → Bool
thr_empty v = not (bit_and v 0x20 == 0)

abbrev pub data_ready : ℕ → Bool
data_ready v = not (bit_and v 0x1 == 0)

module _ {D : Type 0} (bus : Bus D) (uart : Option ℕ) where
  -- `clock` is the global SystemCoreClock; a division by zero is undefined.
  pub uart_init : ℕ → ℕ → Prog D ℕ
  uart_init clock baudrate = unless_null uart λ p. if baudrate == 0 then (λ d. fault) else do
    let uart_div = divisor clock baudrate
    write bus (p + offset lcr) 0x80
    write bus (p + offset dlm) (bit_and (uart_div >>> 8) 0xff)
    write bus (p + offset dll) (bit_and uart_div 0xff)
    write bus (p + offset fcr) 0xc6
    write bus (p + offset lcr) 0x03
    pure 0

  pub uart_config_stopbit : UartStopBit → Prog D ℕ
  uart_config_stopbit stopbit = unless_null uart λ p. do
    keep_bits bus (p + offset lcr) 0xffff_fffb
    set_bits bus (p + offset lcr) (stop_code stopbit <<< 2)
    pure 0

  pub uart_enable_paritybit : Prog D ℕ
  uart_enable_paritybit = unless_null uart λ p. do set_bits bus (p + offset lcr) 0x8; pure 0

  pub uart_disable_paritybit : Prog D ℕ
  uart_disable_paritybit =
      unless_null uart λ p. do keep_bits bus (p + offset lcr) 0xffff_fff7; pure 0

  pub uart_set_parity : UartParityBit → Prog D ℕ
  uart_set_parity paritybit = unless_null uart λ p. do
    keep_bits bus (p + offset lcr) 0xffff_ffcf
    set_bits bus (p + offset lcr) (parity_code paritybit <<< 4)
    pure 0

  pub uart_write : ℕ → ℕ → Prog D ℕ
  uart_write fuel val = unless_null uart λ p. do
    status ← spin_until bus (p + offset lsr) thr_empty fuel
    write bus (p + offset thr) val
    pure 0

  -- The result is a `uint8_t`, so a null pointer gives 255.
  pub uart_read : ℕ → Prog D ℕ
  uart_read fuel = elim uart [
    | none ↦ pure (u8 minus_one)
    | some p ↦ do
      status ← spin_until bus (p + offset lsr) data_ready fuel
      reg ← read bus (p + offset rbr)
      pure (bit_and reg 0xff)
  ]

  pub uart_enable_tx_empt_int : Prog D ℕ
  uart_enable_tx_empt_int = unless_null uart λ p. do set_bits bus (p + offset ier) 0x2; pure 0

  pub uart_disable_tx_empt_int : Prog D ℕ
  uart_disable_tx_empt_int =
      unless_null uart λ p. do keep_bits bus (p + offset ier) 0xffff_fffd; pure 0

  pub uart_set_rx_th : ℕ → Prog D ℕ
  uart_set_rx_th th = unless_null uart λ p. do
    let level = if ltb 3 th then 3 else th
    keep_bits bus (p + offset fcr) 0xffff_ff3f
    set_bits bus (p + offset fcr) (level <<< 6)
    pure 0

  pub uart_enable_rx_th_int : Prog D ℕ
  uart_enable_rx_th_int = unless_null uart λ p. do set_bits bus (p + offset ier) 0x1; pure 0

  pub uart_disable_rx_th_int : Prog D ℕ
  uart_disable_rx_th_int =
      unless_null uart λ p. do keep_bits bus (p + offset ier) 0xffff_fffe; pure 0

  pub uart_enable_rx_err_int : Prog D ℕ
  uart_enable_rx_err_int = unless_null uart λ p. do set_bits bus (p + offset ier) 0x4; pure 0

  pub uart_disable_rx_err_int : Prog D ℕ
  uart_disable_rx_err_int =
      unless_null uart λ p. do keep_bits bus (p + offset ier) 0xffff_fffb; pure 0

  pub uart_get_int_status : Prog D ℕ
  uart_get_int_status = unless_null uart λ p. read bus (p + offset iir)

  pub uart_get_status : Prog D ℕ
  uart_get_status = unless_null uart λ p. read bus (p + offset lsr)
