-- ===== src/Pwm/Examples.antt =====
-- A channel register with bits that it does not keep.
use rep_vgg_acc.Base.{ℕ}

-- Every register holds 7.
abbrev registers : ℕ → ℕ
registers a = 7
