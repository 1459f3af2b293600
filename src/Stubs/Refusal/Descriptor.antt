-- ===== src/Stubs/Refusal/Descriptor.antt =====
-- What the stubs say about a file descriptor.
use rep_vgg_acc.Base.{
  ℕ, ◌*◌, ◌≤◌, ◌<◌, ◌≡◌, ◌≢◌, refl, Bool, false, not, some, List, length, minus_one, ◌==◌, ◌||◌,
  arith,
}
use rep_vgg_acc.Machine.{Outcome, Returns, done, spinning, fault}
use rep_vgg_acc.Uart.Device.{UartDev, uart_bus}
use rep_vgg_acc.Uart.Transmit.{IsTransmitter}
use rep_vgg_acc.Stubs.{stub_write}
use rep_vgg_acc.Stubs.Output.{stub_write-Sent, Sent, text}
use rep_vgg_acc.Stubs.Refusal.{Codes, stub_fstat, stub_isatty}

-- The function of newlib over `_isatty`: whether it returned something else than 0.
abbrev nonzero : Outcome (ℕ × ℕ) → Bool
nonzero (done (r, errno)) = not (r == 0)
nonzero spinning = false
nonzero fault = false

abbrev pub isatty : ℕ → ℕ → Bool
isatty errno fd = nonzero (stub_isatty fd errno)

-- For every descriptor but 1 and 2, `_fstat` fails with EBADF and leaves the mode as it was; yet
-- `_isatty` accepts the descriptor, so that `_write` sends the text to the terminal and reports success.
pub stub_write-stub_fstat :
    (codes : Codes) (fd st_mode errno : ℕ)
    → fd ≢ 1
    → fd ≢ 2
    → (env : UartDev → UartDev) (limit : ℕ) → IsTransmitter env limit
    → (q fuel : ℕ) → limit < fuel
    → (buf : List ℕ) (len : ℕ) (d : UartDev) → len ≤ length buf
    → d.lcr_reg < 128
    → Returns
        (stub_fstat codes fd st_mode errno)
        (λ r errno'. (r.0 ≡ minus_one) × (r.1 ≡ st_mode) × (errno' ≡ codes.ebadf))
      × Returns
          (stub_write (uart_bus env) (some (32 * q)) fuel (isatty errno) fd buf len d)
          (λ r d'. (r ≡ len) × Sent (text len 0 buf) d d')
unfolding stub_fstat stub_isatty
stub_write-stub_fstat codes fd st_mode errno n1 n2 env limit line q fuel enough buf len d fits off =
    let bad : (1 == fd || 2 == fd) ≡ false = ground arith in
    (
      rw bad (refl, refl, refl),
      stub_write-Sent env limit line q fuel enough (isatty errno) fd buf len d refl fits off,
    )
