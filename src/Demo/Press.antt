-- ===== src/Demo/Press.antt =====
-- What the handler does for pressed buttons.
use rep_vgg_acc.Base.{
  ℕ, ◌+◌, ◌-◌, ◌<◌, ◌≡◌, ◌≢◌, refl, some, ◌==◌, if◌then◌else◌, arith, inl, inr, Bool-cases, Bool,
  ◌∙◌, ap, true, false, not, ==_iff, ◌⊎◌,
}
use rep_vgg_acc.Bits.{bit}
use rep_vgg_acc.Bits.Word32.{bit-toggle}
use rep_vgg_acc.Machine.{Returns, done, update}
use rep_vgg_acc.Machine.Logic.{Returns_mono}
use rep_vgg_acc.Machine.Memory.{update_self, update_ne}
use rep_vgg_acc.Gpio.Device.{port_bus}
use rep_vgg_acc.Gpio.{offset, padout, intstatus, gpio_toggle, gpio_clear_interrupt}
use rep_vgg_acc.Demo.{
  Button, button_u, button_d, button_l, button_r, button_c, led_ofs, button_mask, led_mask,
  toggle_led, handle, plic_btn_handler,
}

apart : (p : ℕ) → (p + 8 == p + 24) ≡ false
apart p = ground arith

not_input : (p : ℕ) → (p + 8 == p + 4) ≡ false
not_input p = ground arith

toggled :
    (p i : ℕ) (b : Button) (m : ℕ → ℕ)
    → i < 32
    → Returns (toggle_led (port_bus p) (some p) b m) λ r m'.
      (bit (m' (p + offset padout)) i ≡ (
        if bit (led_mask b) i == 0
        then bit (m (p + offset padout)) i
        else 1 - bit (m (p + offset padout)) i))
      × ((a : ℕ) → a ≢ p + offset padout → m' a ≡ m a)
unfolding toggle_led gpio_toggle
toggled p i b m h =
    rw (apart p, not_input p)
      (rw update_self (bit-toggle (led_mask b) (m (p + 8)) i h), λ a ne. update_ne m _ _ a ne)

handle_lem :
    (p s : ℕ) (b : Button) (m : ℕ → ℕ)
    → s ≡ button_mask b
    → handle (port_bus p) (some p) s m ≡ toggle_led (port_bus p) (some p) b m
unfolding handle
handle_lem p s button_u m e = rw e refl
handle_lem p s button_d m e = rw e refl
handle_lem p s button_l m e = rw e refl
handle_lem p s button_r m e = rw e refl
handle_lem p s button_c m e = rw e refl

handle_none :
    (p s : ℕ) (m : ℕ → ℕ)
    → ((b : Button) → (s == button_mask b) ≡ false)
    → handle (port_bus p) (some p) s m ≡ done (tt, m)
unfolding handle
handle_none p s m other =
    rw (other button_u, other button_d, other button_l, other button_r, other button_c) refl

-- Whether the status is the mask of a button.
which :
    (s : ℕ) → ((b : Button) × (s ≡ button_mask b)) ⊎ ((b : Button) → (s == button_mask b) ≡ false)
which s =
    go (Bool-cases (s == 8)) (Bool-cases (s == 16)) (Bool-cases (s == 32)) (Bool-cases (s == 64))
      (Bool-cases (s == 128))
  where
    Tested : ℕ → Type 0
    Tested k = ((s == k) ≡ true) ⊎ ((s == k) ≡ false)

    go :
        Tested 8
        → Tested 16
        → Tested 32
        → Tested 64
        → Tested 128
        → ((b : Button) × (s ≡ button_mask b)) ⊎ ((b : Button) → (s == button_mask b) ≡ false)
    go (inl e) d l r c = inl (button_u, (==_iff s 8).0 e)
    go (inr u) (inl e) l r c = inl (button_d, (==_iff s 16).0 e)
    go (inr u) (inr d) (inl e) r c = inl (button_l, (==_iff s 32).0 e)
    go (inr u) (inr d) (inr l) (inl e) c = inl (button_r, (==_iff s 64).0 e)
    go (inr u) (inr d) (inr l) (inr r) (inl e) = inl (button_c, (==_iff s 128).0 e)
    go (inr u) (inr d) (inr l) (inr r) (inr c) = inr λ b.
        elim b as (λ k. (s == button_mask k) ≡ false) [
          | button_u ↦ u
          | button_d ↦ d
          | button_l ↦ l
          | button_r ↦ r
          | button_c ↦ c
        ]

-- The LED of a button is in the mask of its own LED only, and so with the masks of the buttons.
own_led :
    (b c : Button) → (bit (led_mask c) (led_ofs b) == 0) ≡ not (button_mask c == button_mask b)
unfolding bit
own_led button_u button_u = refl
own_led button_u button_d = refl
own_led button_u button_l = refl
own_led button_u button_r = refl
own_led button_u button_c = refl
own_led button_d button_u = refl
own_led button_d button_d = refl
own_led button_d button_l = refl
own_led button_d button_r = refl
own_led button_d button_c = refl
own_led button_l button_u = refl
own_led button_l button_d = refl
own_led button_l button_l = refl
own_led button_l button_r = refl
own_led button_l button_c = refl
own_led button_r button_u = refl
own_led button_r button_d = refl
own_led button_r button_l = refl
own_led button_r button_r = refl
own_led button_r button_c = refl
own_led button_c button_u = refl
own_led button_c button_d = refl
own_led button_c button_l = refl
own_led button_c button_r = refl
own_led button_c button_c = refl

led_ofs-lt : (b : Button) → led_ofs b < 32
led_ofs-lt b = ground arith

if_not : (x : Bool) (a b : ℕ) → (if not x then a else b) ≡ (if x then b else a)
if_not true a b = refl
if_not false a b = refl

toggles_own :
    (b c : Button) (old new : ℕ)
    → (if bit (led_mask c) (led_ofs b) == 0 then old else new)
      ≡ (if button_mask c == button_mask b then new else old)
toggles_own b c old new = rw (own_led b c) (if_not (button_mask c == button_mask b) old new)

-- The switch for the status `s`.
handle-led :
    (p s : ℕ) (b : Button) (m : ℕ → ℕ)
    → Returns (handle (port_bus p) (some p) s m) λ r m'.
      (bit (m' (p + offset padout)) (led_ofs b) ≡ (
        if s == button_mask b
        then 1 - bit (m (p + offset padout)) (led_ofs b)
        else bit (m (p + offset padout)) (led_ofs b)))
      × ((a : ℕ) → a ≢ p + offset padout → m' a ≡ m a)
handle-led p s b m = elim (which s) [
  | inl (c, e) ↦ rw (handle_lem p s c m e) (
      rw e (
        Returns_mono _ _ (toggle_led (port_bus p) (some p) c m)
          (toggled p (led_ofs b) c m (led_ofs-lt b)) λ r m' t. (t.0 ∙ toggles_own b c _ _, t.1)))
  | inr other ↦ rw (handle_none p s m other) (rw (other b) refl, λ a ne. refl)
]

-- The handler on a port whose pins raise no new interrupt meanwhile, with `status` what the port shows as the cause.
-- The LED of a button is toggled exactly when the status is the mask of that button alone, so of two buttons
-- that are shown together neither has an effect. The status is cleared, and no register but it and PADOUT
-- changes.
pub plic_btn_handler-led :
    (p : ℕ) (b : Button) (m : ℕ → ℕ)
    → Returns (plic_btn_handler (port_bus p) (some p) m) λ r m'.
      (bit (m' (p + offset padout)) (led_ofs b) ≡ (
        if m (p + offset intstatus) == button_mask b
        then 1 - bit (m (p + offset padout)) (led_ofs b)
        else bit (m (p + offset padout)) (led_ofs b)))
      × (m' (p + offset intstatus) ≡ 0)
      × ((a : ℕ) → a ≢ p + offset padout → a ≢ p + offset intstatus → m' a ≡ m a)
unfolding plic_btn_handler gpio_clear_interrupt
plic_btn_handler-led p b m =
    let status : ℕ = m (p + 24) in
    let cleared : ℕ → ℕ = update m (p + 24) 0 in
    let same : (p + 24 == p + 24) ≡ true = ground arith in
    let led : cleared (p + 8) ≡ m (p + 8) = update_ne m (p + 24) 0 (p + 8) (omega arith) in
    let change : ℕ → ℕ =
      λ w. if status == button_mask b then 1 - bit w (led_ofs b) else bit w (led_ofs b) in
    rw same (
      Returns_mono _ _ (handle (port_bus p) (some p) status cleared) (handle-led p status b cleared)
        λ r m' t. (
          t.0 ∙ ap change led,
          t.1 (p + 24) (omega arith) ∙ update_self m (p + 24) 0,
          λ a out other. t.1 a out ∙ update_ne m (p + 24) 0 a other,
        ))
