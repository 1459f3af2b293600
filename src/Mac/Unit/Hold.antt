-- ===== src/Mac/Unit/Hold.antt =====
-- The weight buffers while no weight is written.
use rep_vgg_acc.Base.{and_false, ℕ, zero, suc, ◌≡◌, refl, ◌∙◌, false, ◌==◌, Bool-cases, inl, inr}
use rep_vgg_acc.Mac.{pe_edge}
use rep_vgg_acc.Mac.Array.{SystolicArray, ArrayIn, array_edge, pe_in}
use rep_vgg_acc.Mac.Core.{CoreIn, Core, array_in, core_edge}
use rep_vgg_acc.Mac.Unit.{MacIn, MacArray, weight_load_en_base, core_in, mac_edge, mac_at}

no_load :
    (u : MacIn) (s : MacArray) (ch k : ℕ)
    → u.weight_wen ≡ false
    → (core_in u s).weight_load_en ch k ≡ false
unfolding core_in weight_load_en_base
no_load u s ch k off = elim (Bool-cases (k == 9)) [
  | inl last ↦ rw (off, last, and_false, and_false) refl
  | inr kernel ↦ rw (off, kernel, and_false, and_false) refl
]

weights-array_edge :
    (u : ArrayIn) (s : SystolicArray) (e : ℕ)
    → ((k : ℕ) → u.weight_load_en k ≡ false)
    → ((array_edge u s).pes e).weights ≡ (s.pes e).weights
unfolding array_edge pe_in pe_edge
weights-array_edge u s e off = rw (off _) refl

weights-core_edge :
    (u : CoreIn) (c : Core) (ch e : ℕ)
    → ((k : ℕ) → u.weight_load_en ch k ≡ false)
    → (((core_edge u c).conv_array ch).pes e).weights ≡ ((c.conv_array ch).pes e).weights
unfolding core_edge
weights-core_edge u c ch e off = weights-array_edge (array_in u c ch) (c.conv_array ch) e off

pub weights-mac_at :
    (u : ℕ → MacIn) (s : MacArray)
    → ((t : ℕ) → (u t).weight_wen ≡ false)
    → (t ch e : ℕ)
    → (((mac_at u s t).core.conv_array ch).pes e).weights ≡ ((s.core.conv_array ch).pes e).weights
unfolding mac_at mac_edge
weights-mac_at u s off zero ch e = refl
weights-mac_at u s off (suc t) ch e =
    weights-core_edge (core_in (u t) (mac_at u s t)) (mac_at u s t).core ch e
      (λ k. no_load (u t) (mac_at u s t) ch k (off t))
    ∙ weights-mac_at u s off t ch e
