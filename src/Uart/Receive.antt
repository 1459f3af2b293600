-- ===== src/Uart/Receive.antt =====
-- `uart_read` against the receive side of the device.
use rep_vgg_acc.Base.{ℕ, suc, false, ◌≡◌, List, ◌++◌}
use rep_vgg_acc.Uart.Device.{UartDev, is_empty}
use rep_vgg_acc.Uart.Status.{iterate}

-- The receive FIFO of `d'` is the one of `d` with what came in behind it.
abbrev pub Grown : UartDev → UartDev → Type 0
Grown d d' = (more : List ℕ) × (d'.rx ≡ d.rx ++ more)

-- What the receiver does between two accesses: it puts bytes behind those in the FIFO, and whatever
-- the state, `limit + 1` accesses see a byte there.
pub record IsReceiver (env : UartDev → UartDev) (limit : ℕ) : Type 0 where
  pub in_order : (d : UartDev) → Grown d (env d)
  pub lcr_kept : (d : UartDev) → (env d).lcr_reg ≡ d.lcr_reg
  pub arrives : (d : UartDev) → is_empty (iterate (suc limit) env d).rx ≡ false
