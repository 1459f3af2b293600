-- ===== src/Hbird/Uart/Examples.antt =====
-- The properties of the UART driver of the v1 chip at UART0_BASE.
use rep_vgg_acc.Base.{ℕ, ◌+◌, ◌≡◌, ◌≢◌, some, arith}
use rep_vgg_acc.Machine.{Returns, ram}
use rep_vgg_acc.Hbird.Uart.{offset, txctrl, rxctrl, uart_set_tx_watermark, uart_set_rx_watermark}
use rep_vgg_acc.Hbird.Uart.Watermark.{Lowered, uart_set_watermark-Lowered}

-- Every register has the watermark 5 and its other bits 0.
abbrev registers : ℕ → ℕ
registers a = 0x5_0000

abbrev port : ℕ
port = 0x1001_3000

uart_set_watermark-Lowered_example :
    Returns (uart_set_tx_watermark ram (some port) 6 registers) (λ r m'.
      (r ≡ 0)
      × Lowered 6 (registers (port + offset txctrl)) (m' (port + offset txctrl)) 17
      × ((a : ℕ) → a ≢ port + offset txctrl → m' a ≡ registers a))
    × Returns (uart_set_rx_watermark ram (some port) 6 registers) (λ r m'.
      (r ≡ 0)
      × Lowered 6 (registers (port + offset rxctrl)) (m' (port + offset rxctrl)) 17
      × ((a : ℕ) → a ≢ port + offset rxctrl → m' a ≡ registers a))
uart_set_watermark-Lowered_example = uart_set_watermark-Lowered port 6 17 registers (omega arith)
