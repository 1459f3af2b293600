-- ===== src/Hbird/Uart/Wait.antt =====
-- The two waiting loops of the UART.
use rep_vgg_acc.Base.{ℕ, ◌+◌, ◌<◌, ◌≡◌, some, bit_and}
use rep_vgg_acc.Machine.{Bus, Prog, done, pure, ◌>>◌, write, spin_until}
use rep_vgg_acc.Machine.Poll.{WaitsFor, spin_until-done}
use rep_vgg_acc.Machine.Logic.{>>=-done}
use rep_vgg_acc.Hbird.Uart.{offset, txfifo, rxfifo, not_full, not_empty, uart_write, uart_read}

module _ {D : Type 0} (bus : Bus D) (p n fuel : ℕ) (d : D) (r : ℕ × D) (enough : n < fuel) where
  -- When the transmit FIFO shows room after `n` loads and the fuel is for more than those, `uart_write`
  -- makes these loads, then the one store of the byte, and returns 0.
  pub uart_write-done :
      (val : ℕ)
      → WaitsFor bus (p + offset txfifo) not_full n d r
      → uart_write bus (some p) fuel val d ≡ done (0, bus.store (p + offset txfifo) val r.1)
  unfolding uart_write
  uart_write-done val room =
      let send : Prog D ℕ = write bus (p + offset txfifo) val >> pure 0 in
      >>=-done (spin_until bus (p + offset txfifo) not_full fuel) (λ v. send) d
        (spin_until-done bus (p + offset txfifo) not_full n fuel d room enough)

  -- When the receive FIFO shows a byte after `n` loads and the fuel is for more than those, `uart_read`
  -- makes these loads and no more access, and returns the low byte of the word that the last one gave.
  pub uart_read-done :
      WaitsFor bus (p + offset rxfifo) not_empty n d r
      → uart_read bus (some p) fuel d ≡ done (bit_and r.0 0xff, r.1)
  unfolding uart_read
  uart_read-done byte =
      >>=-done {B = ℕ} (spin_until bus (p + offset rxfifo) not_empty fuel)
        (λ reg. pure (bit_and reg 0xff)) d
        (spin_until-done bus (p + offset rxfifo) not_empty n fuel d byte enough)
