-- ===== src/Mac/Control/Run.antt =====
-- The way of the state machine over the map in all 128 passes.
use rep_vgg_acc.Base.{
  ℕ, zero, suc, ◌+◌, ◌*◌, ◌-◌, ◌/◌, ◌%◌, ◌<◌, ◌≡◌, refl, Bool, true, false, ltb, ◌==◌, Bool-cases,
  inl, inr, arith,
}
use rep_vgg_acc.Mac.Control.{
  array_setup, is_idle, Control, control_reset, next_state, control_edge, control_at,
}
use rep_vgg_acc.Mac.Control.Position.{At, pixels, region, active, next_column, next_row, next_pass}

-- Where the state machine stands after `conv_start`.
abbrev pub armed : Control
armed = record control_reset { state = array_setup }

reset-armed : (rdy : Bool) → control_edge true rdy control_reset ≡ armed
unfolding control_edge next_state
reset-armed rdy = refl

filled :
    (s : Bool) → At 0 0 0 (control_edge s true (record armed { setup_cnt = 58; imap_cnt = 58 }))
unfolding control_edge next_state region
filled s = record {
  state = refl;
  column = refl;
  row = refl;
  in_ch = refl;
  out_ch = refl;
  imap = refl;
  omap = refl;
  omap_ch = refl;
  vld1 = refl;
  vld2 = refl;
  vld3 = refl;
  vld4 = refl;
  vld5 = refl;
  vld6 = refl;
}

module _ (u : ℕ → Bool × Bool) (ready : (k : ℕ) → (u k).1 ≡ true) where
  -- The 59 edges that fill the line buffers.
  setup : (n : ℕ) → n < 59 → control_at u armed n ≡ record armed { setup_cnt = n; imap_cnt = n }
  unfolding control_at control_edge next_state
  setup zero h = refl
  setup (suc n) h =
      let not_last : (n == 58) ≡ false = ground arith in
      let not_full : (n == 3135) ≡ false = ground arith in
      let six : (n + 1) % 64 ≡ suc n = omega arith in
      let twelve : (n + 1) % 4096 ≡ suc n = omega arith in
      rw (setup n (omega arith), ready n, not_last, not_full, six, twelve) refl

  first : (n : ℕ) → n ≡ 58 → At 0 0 0 (control_at u armed (suc n))
  unfolding control_at
  first n e = rw (setup n (omega arith), ready n, e) (filled (u 58).0)

  step :
      (n p r c : ℕ)
      → ((q i j : ℕ)
          → n ≡ pixels q i j
          → i < 56
          → j < 56
          → q < 128
          → At q i j (control_at u armed (n + 59)))
      → suc n ≡ pixels p r c
      → r < 56
      → c < 56
      → p < 128
      → At p r c (control_edge (u (n + 59)).0 true (control_at u armed (n + 59)))
  step n p r (suc c) ih e hr hc hp =
      let more : c + 1 ≡ suc c = omega arith in
      rw (← more)
        (next_column _ p r c _ (omega arith) hr hp (ih p r c (omega arith) hr (omega arith) hp))
  step n p (suc r) zero ih e hr hc hp =
      let more : r + 1 ≡ suc r = omega arith in
      rw (← more)
        (next_row _ p r _ (omega arith) hp (ih p r 55 (omega arith) (omega arith) (omega arith) hp))
  step n (suc p) zero zero ih e hr hc hp =
      let more : p + 1 ≡ suc p = omega arith in
      rw (← more) (
        next_pass _ p _ (omega arith)
          (ih p 55 55 (omega arith) (omega arith) (omega arith) (omega arith)))
  step n zero zero zero ih e hr hc hp = absurd (omega arith)

  -- With no stall: after 59 edges and one for each pixel before it, the machine is at the pixel in row `r` and
  -- column `c` of pass `p`.
  pub control_at-At :
      (n p r c : ℕ)
      → n ≡ pixels p r c
      → r < 56
      → c < 56
      → p < 128
      → At p r c (control_at u armed (n + 59))
  unfolding control_at
  control_at-At zero p r c e hr hc hp =
      let p0 : p ≡ 0 = omega arith in
      let r0 : r ≡ 0 = omega arith in
      let c0 : c ≡ 0 = omega arith in rw (p0, r0, c0) (first 58 refl)
  control_at-At (suc n) p r c e hr hc hp =
      let more : suc n + 59 ≡ suc (n + 59) = omega arith in
      rw (more, ready (n + 59)) (step n p r c (control_at-At n) e hr hc hp)

  -- The machine does not come to a stop before the last pixel of the last pass.
  pub control_at-runs : (k : ℕ) → k < 59 + 3136 * 128 → is_idle (control_at u armed k).state ≡ false
  control_at-runs k h = elim (Bool-cases (ltb k 59)) [
    | inl filling ↦ rw (setup k (ground arith)) refl
    | inr over ↦
        let n : ℕ = k - 59 in
        let here : k ≡ k - 59 + 59 = ground arith in
        let position =
          control_at-At n (n / 3136) (n % 3136 / 56) (n % 3136 % 56) (omega arith) (omega arith)
            (omega arith) (ground arith) in
        rw (here, position.state) (active _ _).0
  ]
