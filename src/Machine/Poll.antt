-- ===== src/Machine/Poll.antt =====
-- A waiting loop returns exactly when the device becomes ready within the fuel.
use rep_vgg_acc.Base.{ℕ, zero, suc, ◌<◌, Bool, true, false, ◌≡◌, ap, inl, inr, Bool-cases, arith}
use rep_vgg_acc.Machine.{Bus, done, spin_until}

-- Loads of `a` fail the test `n` times, and the next one passes it and gives `r`.
abbrev pub WaitsFor : {D : Type 0} → Bus D → ℕ → (ℕ → Bool) → ℕ → D → ℕ × D → Type 0
WaitsFor bus a test zero d r = (test (bus.load a d).0 ≡ true) × (bus.load a d ≡ r)
WaitsFor bus a test (suc n) d r =
    (test (bus.load a d).0 ≡ false) × WaitsFor bus a test n (bus.load a d).1 r

done-injective : {A : Type 0} {x y : A} → done x ≡ done y → x ≡ y
done-injective e = cc

module _ {D : Type 0} (bus : Bus D) (a : ℕ) (test : ℕ → Bool) where
  pub spin_ready :
      (fuel : ℕ) (d : D)
      → test (bus.load a d).0 ≡ true
      → spin_until bus a test (suc fuel) d ≡ done (bus.load a d)
  unfolding spin_until
  spin_ready fuel d e = ground arith

  pub spin_again :
      (fuel : ℕ) (d : D)
      → test (bus.load a d).0 ≡ false
      → spin_until bus a test (suc fuel) d ≡ spin_until bus a test fuel (bus.load a d).1
  unfolding spin_until
  spin_again fuel d e = ground arith

  pub spin_until-done :
      (n fuel : ℕ) (d : D) {r : ℕ × D}
      → WaitsFor bus a test n d r
      → n < fuel
      → spin_until bus a test fuel d ≡ done r
  unfolding spin_until
  spin_until-done n zero d w h = absurd (omega arith)
  spin_until-done zero (suc fuel) d w h = rw (w.0, spin_until) (ap done w.1)
  spin_until-done (suc n) (suc fuel) d w h =
      rw (w.0, spin_until) (spin_until-done n fuel (bus.load a d).1 w.1 (omega arith))

  pub spin_until-WaitsFor :
      (fuel : ℕ) (d : D) {r : ℕ × D}
      → spin_until bus a test fuel d ≡ done r
      → (n : ℕ) × (n < fuel) × WaitsFor bus a test n d r
  unfolding spin_until
  spin_until-WaitsFor zero d e = cc
  spin_until-WaitsFor (suc fuel) d {r} e = elim (Bool-cases (test (bus.load a d).0)) [
    | inl ready ↦ (0, omega arith, (ready, done-injective (rw (ready, spin_until) at e)))
    | inr waits ↦
        later waits
          (spin_until-WaitsFor fuel (bus.load a d).1 {r = r} (rw (waits, spin_until) at e))
  ]
    where
      later :
          test (bus.load a d).0 ≡ false
          → (n : ℕ) × (n < fuel) × WaitsFor bus a test n (bus.load a d).1 r
          → (n : ℕ) × (n < suc fuel) × WaitsFor bus a test n d r
      later waits (n, h, w) = (suc n, omega arith, (waits, w))
