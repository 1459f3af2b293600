-- ===== src/Hbird/Uart.antt =====
-- hbird-sdk/SoC/hbird/Common/Source/Drivers/hbird_uart.c, in the configuration for hardware.
pub mod Watermark
pub mod Wait
mod Examples
use rep_vgg_acc.Base.{
  ℕ, ◌+◌, ◌-◌, ◌*◌, ◌/◌, ◌^◌, Bool, Option, none, some, not, minus_one, not32, u32, u8, bit_and,
  bit_or, ◌==◌, if◌then◌else◌, ◌<<<◌,
}
use rep_vgg_acc.Machine.{
  Bus, Prog, fault, pure, ◌>>=◌, ◌>>◌, read, write, set_bits, keep_bits, spin_until, unless_null,
}
use rep_vgg_acc.Uart.{UartStopBit, stop_code, divisor}

-- The fields of `UART_TypeDef`, and where they stand in it.
pub data Reg : Type 0 where
  txfifo rxfifo txctrl rxctrl ie ip div : Reg

abbrev pub offset : Reg → ℕ
offset txfifo = 0x00
offset rxfifo = 0x04
offset txctrl = 0x08
offset rxctrl = 0x0c
offset ie = 0x10
offset ip = 0x14
offset div = 0x18

-- The masks of hbird_uart.h.
abbrev pub uart_txen : ℕ
uart_txen = 0x1

abbrev pub uart_rxen : ℕ
uart_rxen = 0x1

abbrev pub uart_txfifo_full : ℕ
uart_txfifo_full = 0x8000_0000

abbrev pub uart_rxfifo_empty : ℕ
uart_rxfifo_empty = 0x8000_0000

abbrev pub uart_txctrl_txcnt_mask : ℕ
uart_txctrl_txcnt_mask = 0x7_0000

abbrev pub uart_rxctrl_rxcnt_mask : ℕ
uart_rxctrl_rxcnt_mask = 0x7_0000

abbrev pub uart_ie_txie_mask : ℕ
uart_ie_txie_mask = 0x1

abbrev pub uart_ie_rxie_mask : ℕ
uart_ie_rxie_mask = 0x2

-- When the two waiting loops end.
unfoldable pub not_full : ℕ → Bool
not_full v = bit_and v uart_txfifo_full == 0

unfoldable pub not_empty : ℕ → Bool
not_empty v = bit_and v uart_rxfifo_empty == 0

module _ {D : Type 0} (bus : Bus D) (uart : Option ℕ) where
  -- `clock` is the global SystemCoreClock; a division by zero is undefined.
  pub uart_init : ℕ → ℕ → Prog D ℕ
  uart_init clock baudrate = unless_null uart λ p. if baudrate == 0 then (λ d. fault) else do
    write bus (p + offset div) (divisor clock baudrate)
    set_bits bus (p + offset txctrl) uart_txen
    set_bits bus (p + offset rxctrl) uart_rxen
    pure 0

  -- `stopbit << UART_TXCTRL_NSTOP_OFS`, cut by the mask of the watermark.
  pub uart_config_stopbit : UartStopBit → Prog D ℕ
  uart_config_stopbit stopbit = unless_null uart λ p. do
    let stopval = bit_and (stop_code stopbit <<< 1) uart_txctrl_txcnt_mask
    keep_bits bus (p + offset txctrl) (bit_or stopval (not32 uart_txctrl_txcnt_mask))
    pure 0

  pub uart_write : ℕ → ℕ → Prog D ℕ
  uart_write fuel val = unless_null uart λ p. do
    v ← spin_until bus (p + offset txfifo) not_full fuel
    write bus (p + offset txfifo) val
    pure 0

  -- The result is a `uint8_t`, so a null pointer gives 255.
  pub uart_read : ℕ → Prog D ℕ
  uart_read fuel = elim uart [
    | none ↦ pure (u8 minus_one)
    | some p ↦ do reg ← spin_until bus (p + offset rxfifo) not_empty fuel; pure (bit_and reg 0xff)
  ]

  pub uart_set_tx_watermark : ℕ → Prog D ℕ
  uart_set_tx_watermark watermark = unless_null uart λ p. do
    let level = bit_and (u32 (watermark <<< 16)) uart_txctrl_txcnt_mask
    keep_bits bus (p + offset txctrl) (bit_or level (not32 uart_txctrl_txcnt_mask))
    pure 0

  pub uart_enable_txint : Prog D ℕ
  uart_enable_txint =
      unless_null uart λ p. do set_bits bus (p + offset ie) uart_ie_txie_mask; pure 0

  pub uart_disable_txint : Prog D ℕ
  uart_disable_txint =
      unless_null uart λ p. do keep_bits bus (p + offset ie) (not32 uart_ie_txie_mask); pure 0

  pub uart_set_rx_watermark : ℕ → Prog D ℕ
  uart_set_rx_watermark watermark = unless_null uart λ p. do
    let level = bit_and (u32 (watermark <<< 16)) uart_rxctrl_rxcnt_mask
    keep_bits bus (p + offset rxctrl) (bit_or level (not32 uart_rxctrl_rxcnt_mask))
    pure 0

  pub uart_enable_rxint : Prog D ℕ
  uart_enable_rxint =
      unless_null uart λ p. do set_bits bus (p + offset ie) uart_ie_rxie_mask; pure 0

  pub uart_disable_rxint : Prog D ℕ
  uart_disable_rxint =
      unless_null uart λ p. do keep_bits bus (p + offset ie) (not32 uart_ie_rxie_mask); pure 0
