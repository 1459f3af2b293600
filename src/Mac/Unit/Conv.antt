-- ===== src/Mac/Unit/Conv.antt =====
-- What the array gives out for a pixel, with the state machine in control.
use rep_vgg_acc.Base.{
  ℕ, zero, suc, ◌+◌, ◌-◌, ◌*◌, ◌/◌, ◌%◌, ◌^◌, ◌<◌, ◌≤◌, ◌≡◌, refl, sym, ap, ◌∙◌, Bool, true, ltb,
  if◌then◌else◌, arith,
}
use mathlib.Core.Path.{subst}
use rep_vgg_acc.Base.Int.{◌*ℤ◌, signed8}
use rep_vgg_acc.Base.Loop.{sum_range}
use rep_vgg_acc.Mac.Spec.{conv}
use rep_vgg_acc.Mac.Array.Shift.{array_at}
use rep_vgg_acc.Mac.Array.Conv.{Set, centre}
use rep_vgg_acc.Mac.Core.{CoreIn, Core, core_edge, core_at}
use rep_vgg_acc.Mac.Core.Sum.{
  inputs, conv_array-array_at, psum_3x3-conv, psum_1x1-conv, identity-pixel,
}
use rep_vgg_acc.Mac.Control.{
  control_edge, control_at, identity_sel, weight_sel, mac_array2psum_acc_info,
}
use rep_vgg_acc.Mac.Control.Position.{At, pixels}
use rep_vgg_acc.Mac.Control.Run.{armed, control_at-At, control_at-runs}
use rep_vgg_acc.Mac.Unit.{MacIn, MacArray, core_in, mac_edge, mac_at, psum_data}
use rep_vgg_acc.Mac.Unit.Border.{on_map, on_1x1}

module _ (u : ℕ → MacIn) (s : MacArray) where
  abbrev core_inputs : ℕ → CoreIn
  core_inputs t = core_in (u t) (mac_at u s t)

  abbrev control_inputs : ℕ → Bool × Bool
  control_inputs t = ((u t).conv_start, (u t).rdy)

  mac_at-core : (t : ℕ) → (mac_at u s t).core ≡ core_at core_inputs s.core t
  unfolding mac_at mac_edge core_at
  mac_at-core zero = refl
  mac_at-core (suc t) = ap (core_edge (core_inputs t)) (mac_at-core t)

  mac_at-control : (t : ℕ) → (mac_at u s t).control ≡ control_at control_inputs s.control t
  unfolding mac_at mac_edge control_at
  mac_at-control zero = refl
  mac_at-control (suc t) = ap (control_edge (u t).conv_start (u t).rdy) (mac_at-control t)

-- The edge at which the pixel in row `r` and column `c` of pass `p` is the centre of the kernel.
abbrev pub now : ℕ → ℕ → ℕ → ℕ
now p r c = pixels p r c + 59

-- The buffers that are selected hold the kernels `w` and the 1x1 weights `w1` of the 32 channels, and the
-- map comes in as bytes.
pub record Loaded (u : ℕ → MacIn) (s : MacArray) (p r c : ℕ) (w : ℕ → ℕ → ℕ) (w1 : ℕ → ℕ)
    : Type 0 where
  pub kernel :
      (ch e : ℕ)
      → ch < 32
      → e < 9
      → (((mac_at u s (now p r c)).core.conv_array ch).pes e).weights (p / 2 % 2 * 2 + p % 2)
        ≡ w ch (8 - e)
  pub kernel_1x1 :
      (ch : ℕ)
      → ch < 32
      → (((mac_at u s (now p r c)).core.conv_array ch).pes 9).weights (p / 2 % 2 * 2 + p % 2)
        ≡ w1 ch
  pub small : (ch k : ℕ) → w ch k < 256
  pub small_1x1 : (ch : ℕ) → w1 ch < 256
  pub bytes : (t ch : ℕ) → (u t).imap_rdata ch < 256

-- Pixel `n` of pass `p` is what comes in one edge after the first of the pass and `n` more.
abbrev pub map_in : (ℕ → MacIn) → ℕ → ℕ → ℕ → ℕ
map_in u p ch n = (u (suc (3136 * p) + n)).imap_rdata ch

-- The state machine starts, nothing stalls it, and it comes to the pixel in row `r` and column `c` of
-- pass `p`, with room for the six edges of the array.
module _ (u : ℕ → MacIn) (s : MacArray) (start : s.control ≡ armed)
    (ready : (k : ℕ) → (u k).rdy ≡ true) (p r c : ℕ) (hr : r < 56) (hc : c < 56)
    (room : pixels p r c + 6 < 3136 * 128) where
  control_lem : (t : ℕ) → (mac_at u s t).control ≡ control_at (control_inputs u s) armed t
  control_lem t = mac_at-control u s t ∙ ap (λ f. control_at (control_inputs u s) f t) start

  runs : (k : ℕ) → k < (now p r c) + 6 → (core_inputs u s k).pipe_en ≡ true
  unfolding core_in
  runs k h =
      let busy = control_at-runs (control_inputs u s) ready k (omega arith) in
      rw (control_lem k, busy, ready k) refl

  position :
      (k q i j : ℕ)
      → k ≡ pixels q i j
      → i < 56
      → j < 56
      → q < 128
      → At q i j (mac_at u s (k + 59)).control
  position k q i j e hi hj hq =
      subst (At q i j) (sym (control_lem (k + 59)))
        (control_at-At (control_inputs u s) ready k q i j e hi hj hq)

  here : At p r c (mac_at u s (now p r c)).control
  here = position (pixels p r c) p r c refl hr hc (omega arith)

  when : suc (centre (suc (3136 * p)) r c) ≡ (now p r c)
  when = omega arith

  array_lem :
      (ch : ℕ)
      → array_at
          (inputs (core_inputs u s) s.core ch)
          (s.core.conv_array ch)
          (suc (centre (suc (3136 * p)) r c))
        ≡ (mac_at u s (now p r c)).core.conv_array ch
  array_lem ch =
      ap (array_at (inputs (core_inputs u s) s.core ch) (s.core.conv_array ch)) when
      ∙ sym (conv_array-array_at (core_inputs u s) s.core ch (now p r c))
      ∙ ap (λ (a : Core). a.conv_array ch) (sym (mac_at-core u s (now p r c)))

  module _ (w : ℕ → ℕ → ℕ) (w1 : ℕ → ℕ) (h : Loaded u s p r c w w1) where
    selected :
        (mac_at u s (suc (centre (suc (3136 * p)) r c))).control ≡ (mac_at u s (now p r c)).control
    selected = ap (λ t. (mac_at u s t).control) when

    set :
        (ch : ℕ)
        → ch < 32
        → Set
            (inputs (core_inputs u s) s.core ch)
            (s.core.conv_array ch)
            (suc (3136 * p))
            r
            c
            (w ch)
            (w1 ch)
    unfolding core_in weight_sel
    set ch low = record {
      enabled = λ e he. rw (selected, here.state) (on_map e r c he hr hc);
      enabled_1x1 = rw (selected, here.state) (on_1x1 r c);
      weight = λ e he. rw (selected, here.out_ch, here.in_ch, array_lem ch) (h.kernel ch e low he);
      weight_1x1 = rw (selected, here.out_ch, here.in_ch, array_lem ch) (h.kernel_1x1 ch low);
      small = h.small ch;
      small_1x1 = h.small_1x1 ch;
      bytes = λ n. h.bytes _ ch;
    }

    last : suc (suc (suc (suc (suc (suc (suc (centre (suc (3136 * p)) r c))))))) ≡ now p r c + 6
    last = omega arith

    running_on : (k : ℕ) → 3136 * p ≤ k → k < now p r c + 6 → (core_inputs u s k).pipe_en ≡ true
    running_on k _ lt = runs k lt

    core_lem :
        core_at
          (core_inputs u s)
          s.core
          (suc (suc (suc (suc (suc (suc (suc (centre (suc (3136 * p)) r c))))))))
        ≡ (mac_at u s (now p r c + 6)).core
    core_lem = ap (core_at (core_inputs u s) s.core) last ∙ sym (mac_at-core u s (now p r c + 6))

    mac_at-identity :
        (psum_data (mac_at u s (now p r c + 6))).identity
        ≡ map_in u p ((pixels p r c + 3) / 3136 / 2 % 32) (56 * r + c)
    unfolding psum_data core_in identity_sel
    mac_at-identity =
        let n : ℕ = pixels p r c + 3 in
        let out =
          position n (n / 3136) (n % 3136 / 56) (n % 3136 % 56) (omega arith) (omega arith)
            (omega arith) (omega arith) in
        let time : n + 59 ≡ suc (suc (suc (suc (centre (suc (3136 * p)) r c)))) = omega arith in
        let at_sel =
          subst (λ t. At (n / 3136) (n % 3136 / 56) (n % 3136 % 56) (mac_at u s t).control) time
            out in
        let channel : (core_inputs u s
              (suc (suc (suc (suc (centre (suc (3136 * p)) r c)))))).identity_sel
            ≡ n / 3136 / 2 % 32 =
          ap (λ x. x % 32) at_sel.out_ch in
        ap (λ (a : Core). a.identity_d3) (sym core_lem)
        ∙ identity-pixel (core_inputs u s) s.core (3136 * p) (now p r c + 6) running_on r c w w1 set
            (omega arith) (rw channel (omega arith))
        ∙ ap (λ ch. map_in u p ch (56 * r + c)) channel

    -- Six edges later, for the pixel in row `r` and column `c` of the map in pass `p`: the output is valid, with
    -- the place of the pixel and the parity of the pass, the sums are the zero-padded 3x3 convolution and the
    -- 1x1 convolution of the 32 channels that came in, and the identity is the pixel of the channel of the output
    -- channel of the pass, modulo 32; but at the last three pixels of a pass that ends an output channel it is
    -- that of the next channel.
    pub mac_at-conv :
        let end = mac_at u s (now p r c + 6) in
        (end.control.vld_d6 ≡ true)
        × (mac_array2psum_acc_info end.control % 2 ^ 13 ≡ p % 2 * 2 ^ 12 + (56 * r + c))
        × ((psum_data end).psum_3x3 ≡ sum_range 32 0 (λ ch. conv (map_in u p ch) (w ch) r c))
        × ((psum_data end).psum_1x1
            ≡ sum_range 32 0 (λ ch. signed8 (map_in u p ch (56 * r + c)) *ℤ signed8 (w1 ch)))
        × ((psum_data end).identity
            ≡ map_in u p ((if ltb (56 * r + c) 3133 then p / 2 else (p + 1) / 2) % 32) (56 * r + c))
    unfolding psum_data mac_array2psum_acc_info core_in
    mac_at-conv =
        let shown : (pixels p r c + 3) / 3136 / 2
            ≡ (if ltb (56 * r + c) 3133 then p / 2 else (p + 1) / 2) =
          ground arith in
        let n : ℕ = pixels p r c + 6 in
        let out =
          position n (n / 3136) (n % 3136 / 56) (n % 3136 % 56) (omega arith) (omega arith)
            (omega arith) (omega arith) in
        let time : n + 59 ≡ now p r c + 6 = omega arith in
        let end =
          subst (λ t. At (n / 3136) (n % 3136 / 56) (n % 3136 % 56) (mac_at u s t).control) time
            out in
        (
          end.vld6 ∙ ground arith,
          rw (end.omap, end.omap_ch) (omega arith),
          ap (λ (a : Core). a.tree_3x3.psum_s5_r) (sym core_lem)
              ∙ psum_3x3-conv (core_inputs u s) s.core (3136 * p) (now p r c + 6) running_on r c w
                  w1 set (omega arith),
          ap (λ (a : Core). a.tree_1x1.psum_s5_r) (sym core_lem)
              ∙ psum_1x1-conv (core_inputs u s) s.core (3136 * p) (now p r c + 6) running_on r c w
                  w1 set (omega arith),
          mac_at-identity ∙ ap (λ o. map_in u p (o % 32) (56 * r + c)) shown,
        )
