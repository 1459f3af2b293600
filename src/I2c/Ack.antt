-- ===== src/I2c/Ack.antt =====
-- The acknowledge of a transfer.
use mathlib.Core.Path.{fun_ext, subst}
use rep_vgg_acc.Base.{
  arith, sym, ap, ◌-◌, ℕ, ◌+◌, ◌<◌, ◌≡◌, ◌∙◌, some, bit_and, ◌==◌, if◌then◌else◌,
}
use rep_vgg_acc.Bits.{bit}
use rep_vgg_acc.Bits.Law.{bit-lt, and_one_bit}
use rep_vgg_acc.Machine.{Bus, Prog, done, pure, ◌>>=◌, read, spin_until}
use rep_vgg_acc.Machine.Poll.{WaitsFor, spin_until-done}
use rep_vgg_acc.Machine.Logic.{>>=-done}
use rep_vgg_acc.I2c.{offset, status, i2c_get_ack, in_progress, finished, i2c_status_rxack}

-- TIP is bit 1 of the status, RXACK bit 7.
in_progress-bit : in_progress ≡ (λ v. bit v 1 == 1)
unfolding in_progress
in_progress-bit = fun_ext λ v. ground (arith, and_one_bit 1 v, bit-lt v 1)

finished-bit : finished ≡ (λ v. bit v 1 == 0)
unfolding finished
finished-bit = fun_ext λ v. ground (arith, and_one_bit 1 v, bit-lt v 1)

acknowledged : (ack : ℕ) → (if bit_and ack i2c_status_rxack == 0 then 1 else 0) ≡ 1 - bit ack 7
acknowledged ack = ground (arith, and_one_bit 7 ack, bit-lt ack 7)

-- When `n` loads of the status have bit 1 clear and the next one has it set, `k` further loads have it set and the
-- next one has it clear, and each loop has fuel for its loads, `i2c_get_ack` loads the status once more and returns
-- 1 when bit 7 of that is clear and 0 when it is set, and has made no other access.
pub i2c_get_ack-done :
    {D : Type 0} (bus : Bus D) (p n k fuel fuel' : ℕ) (d : D) (r s : ℕ × D)
    → WaitsFor bus (p + offset status) (λ v. bit v 1 == 1) n d r
    → WaitsFor bus (p + offset status) (λ v. bit v 1 == 0) k r.1 s
    → n < fuel
    → k < fuel'
    → i2c_get_ack bus (some p) fuel fuel' d
      ≡ (let (ack, d') = bus.load (p + offset status) s.1 in done (1 - bit ack 7, d'))
unfolding i2c_get_ack
i2c_get_ack-done {D} bus p n k fuel fuel' d r s starts ends enough enough' =
    let last : Prog D ℕ = read bus (p + offset status) >>= λ ack.
    pure (if bit_and ack i2c_status_rxack == 0 then 1 else 0) in
    let begun : WaitsFor bus (p + offset status) in_progress n d r =
      subst (λ test. WaitsFor bus (p + offset status) test n d r) (sym in_progress-bit) starts in
    let over : WaitsFor bus (p + offset status) finished k r.1 s =
      subst (λ test. WaitsFor bus (p + offset status) test k r.1 s) (sym finished-bit) ends in
    >>=-done (spin_until bus (p + offset status) in_progress fuel)
      (λ v. spin_until bus (p + offset status) finished fuel' >>= λ w. last) d
      (spin_until-done bus (p + offset status) in_progress n fuel d begun enough)
    ∙ >>=-done (spin_until bus (p + offset status) finished fuel') (λ w. last) r.1
        (spin_until-done bus (p + offset status) finished k fuel' r.1 over enough')
    ∙ ap (λ x. done (x, (bus.load (p + offset status) s.1).1))
        (acknowledged (bus.load (p + offset status) s.1).0)
