-- ===== src/Mac/Control/Read.antt =====
-- From where the state machine reads the map.
use rep_vgg_acc.Base.{
  ℕ, ◌+◌, ◌-◌, ◌*◌, ◌/◌, ◌%◌, ◌^◌, ◌<◌, ◌≡◌, Bool, true, ltb, if◌then◌else◌, arith,
}
use rep_vgg_acc.Mac.Control.{control_at, imap_raddr}
use rep_vgg_acc.Mac.Control.Run.{armed, control_at-At}

-- With no stall: the reads for the map of a pass after the first are of its pixels in order, but the group of
-- channels is that of the pass for the pixels from 59 on only; the first 59 are read from the group of the pass
-- before.
pub imap_raddr-lags :
    (u : ℕ → Bool × Bool)
    → ((k : ℕ) → (u k).1 ≡ true)
    → (p i : ℕ) → 0 < p
    → p < 128
    → i < 3136
    → imap_raddr (control_at u armed (3136 * p + i))
      ≡ (if ltb i 59 then (p - 1) % 2 else p % 2) * 2 ^ 12 + i
unfolding imap_raddr
imap_raddr-lags u ready p i first last inside =
    let n : ℕ = 3136 * p + i - 59 in
    let time : 3136 * p + i ≡ 3136 * p + i - 59 + 59 = omega arith in
    let at =
      control_at-At u ready n (n / 3136) (n % 3136 / 56) (n % 3136 % 56) (omega arith) (omega arith)
        (omega arith) (omega arith) in
    rw (time, at.in_ch, at.imap) (ground arith)
