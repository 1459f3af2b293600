-- ===== src/Stubs/Examples.antt =====
-- The properties of the stubs for a short text, a small heap and a clock of 16 MHz.
use mathlib.Core.List.{append-nil}
use rep_vgg_acc.Base.{ℕ, ◌*◌, ◌≡◌, refl, Bool, true, some, List, [], ◌∷◌, ◌++◌, minus_one, arith}
use rep_vgg_acc.Machine.{Returns}
use rep_vgg_acc.Uart.Device.{UartDev, uart_bus}
use rep_vgg_acc.Uart.Transmit.{IsTransmitter}
use rep_vgg_acc.Stubs.{stub_write}
use rep_vgg_acc.Stubs.Output.{stub_write-Sent, Sent, text}
use rep_vgg_acc.Stubs.Refusal.{Codes, stub_fstat}
use rep_vgg_acc.Stubs.Refusal.Descriptor.{isatty, stub_write-stub_fstat}

abbrev device : UartDev
device = record {
  dll_reg = 138;
  dlm_reg = 0;
  ier_reg = 0;
  lcr_reg = 3;
  trigger_level = 3;
  tx = 0x41 ∷ [];
  rx = [];
  tx_ready = true;
  iir_o = 1;
  sent = [];
}

-- A line that sends everything that is queued between two accesses.
abbrev fast : UartDev → UartDev
fast d = record d { sent = d.sent ++ d.tx; tx = [] }

fast-IsTransmitter : IsTransmitter fast 0
fast-IsTransmitter = record {
  in_order = λ d. append-nil (d.sent ++ d.tx);
  lcr_kept = λ d. refl;
  stays_empty = λ d e. refl;
  empties = λ d. refl;
}

abbrev line_of_text : List ℕ
line_of_text = 0x48 ∷ 0x69 ∷ 10 ∷ []

abbrev always : ℕ → Bool
always fd = true

stub_write-Sent_example :
    Returns
      (stub_write (uart_bus fast) (some (32 * 0x80_0980)) 1 always 1 line_of_text 3 device)
      λ r d'. (r ≡ 3) × Sent (text 3 0 line_of_text) device d'
stub_write-Sent_example =
    stub_write-Sent fast 0 fast-IsTransmitter 0x80_0980 1 (omega arith) always 1 line_of_text 3
      device refl (omega arith) (omega arith)

-- Codes as newlib has them.
abbrev newlib_codes : Codes
newlib_codes = record {
  ebadf = 9;
  enomem = 12;
  eagain = 11;
  einval = 22;
  emlink = 31;
  enosys = 88;
  echild = 10;
  s_ifchr = 0x2000;
}

stub_write-stub_fstat_example :
    Returns
      (stub_fstat newlib_codes 7 0 0)
      (λ r errno'. (r.0 ≡ minus_one) × (r.1 ≡ 0) × (errno' ≡ newlib_codes.ebadf))
    × Returns
        (stub_write (uart_bus fast) (some (32 * 0x80_0980)) 1 (isatty 0) 7 line_of_text 3 device)
        (λ r d'. (r ≡ 3) × Sent (text 3 0 line_of_text) device d')
stub_write-stub_fstat_example =
    stub_write-stub_fstat newlib_codes 7 0 0 (omega arith) (omega arith) fast 0 fast-IsTransmitter
      0x80_0980 1 (omega arith) line_of_text 3 device (omega arith) (omega arith)
