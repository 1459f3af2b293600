-- ===== src/Uart/Status.antt =====
-- The status register as the driver tests it.
use rep_vgg_acc.Base.{ℕ, zero, suc, ◌+◌, ◌*◌, ◌≡◌, refl, Bool, true, false, arith, if◌then◌else◌}
use rep_vgg_acc.Uart.{thr_empty, data_ready}
use rep_vgg_acc.Uart.Device.{UartDev, line_status, is_empty, flag, reg_read}

-- The environment over `n` accesses.
abbrev pub iterate : ℕ → (UartDev → UartDev) → UartDev → UartDev
iterate zero env d = d
iterate (suc n) env d = iterate n env (env d)

-- The two tests of the driver see their flags.
status_lem :
    (a b c e : Bool)
    → (thr_empty (flag a 1 + flag b 4 + flag c 32 + flag e 64) ≡ c)
      × (data_ready (flag a 1 + flag b 4 + flag c 32 + flag e 64) ≡ a)
status_lem true true true true = (refl, refl)
status_lem true true true false = (refl, refl)
status_lem true true false true = (refl, refl)
status_lem true true false false = (refl, refl)
status_lem true false true true = (refl, refl)
status_lem true false true false = (refl, refl)
status_lem true false false true = (refl, refl)
status_lem true false false false = (refl, refl)
status_lem false true true true = (refl, refl)
status_lem false true true false = (refl, refl)
status_lem false true false true = (refl, refl)
status_lem false true false false = (refl, refl)
status_lem false false true true = (refl, refl)
status_lem false false true false = (refl, refl)
status_lem false false false true = (refl, refl)
status_lem false false false false = (refl, refl)

pub line_status_lem :
    (d : UartDev)
    → (thr_empty (line_status d) ≡ is_empty d.tx)
      × (data_ready (line_status d) ≡ (if is_empty d.rx then false else true))
unfolding line_status
line_status_lem d = status_lem _ _ _ _

pub reg_read-lsr : (q : ℕ) (d : UartDev) → reg_read (32 * q + 20) d ≡ (line_status d, d)
unfolding reg_read
reg_read-lsr q d = ground arith
