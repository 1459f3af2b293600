-- ===== src/Uart/Examples.antt =====
-- The properties of the UART driver at UART0_BASE.
use mathlib.Core.List.{append-nil}
use rep_vgg_acc.Base.{List, ◌+◌, ◌-◌, ◌*◌, ◌/◌, ◌≡◌, refl, some, true, [], ◌∷◌, ◌++◌, arith, u8}
use rep_vgg_acc.Machine.{Returns}
use rep_vgg_acc.Uart.{uart_init, uart_write}
use rep_vgg_acc.Uart.Device.{UartDev, uart_bus, push}
use rep_vgg_acc.Uart.Init.{uart_init-divisor, IsLine}
use rep_vgg_acc.Uart.Transmit.{uart_write-stream, IsTransmitter, stream}

-- The device after reset, with a byte in the transmit FIFO.
abbrev device : UartDev
device = record {
  dll_reg = 0;
  dlm_reg = 0;
  ier_reg = 0;
  lcr_reg = 3;
  trigger_level = 0;
  tx = 0x41 ∷ [];
  rx = [];
  tx_ready = true;
  iir_o = 1;
  sent = [];
}

-- A line that sends everything that is queued between two accesses.
abbrev fast : UartDev → UartDev
fast d = record d { sent = d.sent ++ d.tx; tx = [] }

fast-IsLine : IsLine fast
fast-IsLine = record {
  dll_kept = λ d. refl;
  dlm_kept = λ d. refl;
  lcr_kept = λ d. refl;
  trigger_kept = λ d. refl;
}

fast-IsTransmitter : IsTransmitter fast 0
fast-IsTransmitter = record {
  in_order = λ d. append-nil (d.sent ++ d.tx);
  lcr_kept = λ d. refl;
  stays_empty = λ d e. refl;
  empties = λ d. refl;
}

-- UART0_BASE is 0x10013000.
uart_init-divisor_example :
    Returns (uart_init (uart_bus fast) (some (32 * 0x80_0980)) 16000000 115200 device) λ r d'.
      (r ≡ 0)
      × (d'.dlm_reg * 256 + d'.dll_reg ≡ 16000000 / 115200 - 1)
      × (d'.lcr_reg ≡ 3)
      × (d'.trigger_level ≡ 3)
uart_init-divisor_example =
    uart_init-divisor fast 0x80_0980 16000000 115200 device fast-IsLine (omega arith) (omega arith)
      (omega arith) (omega arith)

uart_write-stream_example :
    Returns
      (uart_write (uart_bus fast) (some (32 * 0x80_0980)) 1 0x142 device)
      λ r d'. (r ≡ 0) × (stream d' ≡ stream device ++ u8 0x142 ∷ []) × (d'.lcr_reg ≡ device.lcr_reg)
uart_write-stream_example =
    uart_write-stream fast 0 fast-IsTransmitter 0x80_0980 1 0x142 device (omega arith) (omega arith)

-- A line on which the letter B comes in between any two accesses; a full FIFO drops it.
abbrev talking : UartDev → UartDev
talking d = record d { rx = push d.rx 0x42 }

-- A byte with a wrong parity is waiting.
abbrev waiting : UartDev
waiting = record device { rx = 0x141 ∷ [] }
