-- ===== src/I2c/Examples.antt =====
-- An I2C status that shows one transfer: idle, in progress, and over with an acknowledge.
use rep_vgg_acc.Bits.{bit}
use rep_vgg_acc.Base.{◌-◌, ℕ, ◌+◌, ◌≡◌, refl, some, ◌==◌, if◌then◌else◌, arith}
use rep_vgg_acc.Machine.{Bus, done}
use rep_vgg_acc.Machine.Poll.{WaitsFor}
use rep_vgg_acc.I2c.{offset, status, i2c_get_ack}
use rep_vgg_acc.I2c.Ack.{i2c_get_ack-done}

-- The state is the number of accesses made.
abbrev transfer : Bus ℕ
transfer = record { load = λ a d. (if d == 1 then 2 else 0, d + 1); store = λ a v d. d + 1 }

abbrev begun : ℕ × ℕ
begun = (2, 2)

abbrev over : ℕ × ℕ
over = (0, 3)

begins : WaitsFor transfer (0x1002_5000 + offset status) (λ v. bit v 1 == 1) 1 0 begun
unfolding bit
begins = (refl, (refl, refl))

ends : WaitsFor transfer (0x1002_5000 + offset status) (λ v. bit v 1 == 0) 0 begun.1 over
unfolding bit
ends = (refl, refl)

i2c_get_ack-done_example : i2c_get_ack transfer (some 0x1002_5000) 2 1 0 ≡ (
    let (ack, d') = transfer.load (0x1002_5000 + offset status) over.1 in done (1 - bit ack 7, d'))
i2c_get_ack-done_example =
    i2c_get_ack-done transfer 0x1002_5000 1 0 2 1 0 begun over begins ends (omega arith)
      (omega arith)
