-- ===== src/Mac/Core/Sum.antt =====
-- The sums over the 32 channels of a group.
use rep_vgg_acc.Base.{ℕ, zero, suc, ◌+◌, ◌*◌, ◌^◌, ◌<◌, ◌≤◌, ◌≡◌, refl, sym, ap, ◌∙◌, true, arith}
use mathlib.Core.Path.{subst}
use rep_vgg_acc.Base.Int.{ℤ, ◌*ℤ◌, signed8}
use rep_vgg_acc.Base.Bound.{Within, mul-Within, signed8-Within}
use rep_vgg_acc.Base.Loop.{sum_range, sum_range_ext}
use rep_vgg_acc.Mac.Spec.{conv}
use rep_vgg_acc.Mac.Tree.Sum.{tree_ich_lem, sum_range-Within}
use rep_vgg_acc.Mac.Array.{ArrayIn, SystolicArray, array_edge}
use rep_vgg_acc.Mac.Array.Shift.{array_at}
use rep_vgg_acc.Mac.Array.Conv.{
  Set, centre, padded-Within, psum_3x3_lem, product_1x1_lem, identity_lem,
}
use rep_vgg_acc.Mac.Core.{CoreIn, Core, array_in, core_edge, core_at}

conv-Within :
    (x w : ℕ → ℕ) (i j : ℕ)
    → ((n : ℕ) → x n < 256)
    → ((k : ℕ) → w k < 256)
    → Within 147456 (conv x w i j)
unfolding conv
conv-Within x w i j bytes small =
    sum_range-Within 49152 _
      (λ k.
        sum_range-Within 16384 _
          (λ m. mul-Within _ _ (padded-Within x (i + k) (j + m) bytes) (signed8-Within _ (small _)))
          3 0)
      3 0

-- The core runs each array on its own inputs.
abbrev pub inputs : (ℕ → CoreIn) → Core → ℕ → ℕ → ArrayIn
inputs u s ch t = array_in (u t) (core_at u s t) ch

pub conv_array-array_at :
    (u : ℕ → CoreIn) (s : Core) (ch t : ℕ)
    → (core_at u s t).conv_array ch ≡ array_at (inputs u s ch) (s.conv_array ch) t
unfolding core_at core_edge array_at
conv_array-array_at u s ch zero = refl
conv_array-array_at u s ch (suc t) =
    ap (array_edge (inputs u s ch t)) (conv_array-array_at u s ch t)

-- Three edges on which the adder trees and the delayed identity move on.
module _ (u v x : CoreIn) (c : Core) (first : c.pipe_en_d ≡ true) (second : u.pipe_en ≡ true)
    (third : v.pipe_en ≡ true) where
  psums : ℕ → ℤ
  psums ch = (c.conv_array ch).tree.psum_s4_r

  products : ℕ → ℤ
  products ch = (c.conv_array ch).product_1x1_d2

  tree_3x3-three :
      ((ch : ℕ) → ch < 32 → Within 147456 (psums ch))
      → (core_edge x (core_edge v (core_edge u c))).tree_3x3.psum_s5_r ≡ sum_range 32 0 psums
  unfolding core_edge psums
  tree_3x3-three w =
      let d : Core = core_edge u c in
      let e : Core = core_edge v d in
      rw (first, second, third)
        (tree_ich_lem (2 ^ 31) 147456 psums (λ i. (d.conv_array i).tree.psum_s4_r)
          (λ i. (e.conv_array i).tree.psum_s4_r) c.tree_3x3 (omega arith) w)

  tree_1x1-three :
      ((ch : ℕ) → ch < 32 → Within 16384 (products ch))
      → (core_edge x (core_edge v (core_edge u c))).tree_1x1.psum_s5_r ≡ sum_range 32 0 products
  unfolding core_edge products
  tree_1x1-three w =
      let d : Core = core_edge u c in
      let e : Core = core_edge v d in
      rw (first, second, third)
        (tree_ich_lem (2 ^ 23) 16384 products (λ i. (d.conv_array i).product_1x1_d2)
          (λ i. (e.conv_array i).product_1x1_d2) c.tree_1x1 (omega arith) w)

  identity-three :
      (core_edge x (core_edge v (core_edge u c))).identity_d3
      ≡ (c.conv_array u.identity_sel).identity_d4
  unfolding core_edge
  identity-three = rw (first, second, third) refl

-- The array runs from the edge `begin` on, so the map comes in from the next one on.
module _ (u : ℕ → CoreIn) (s : Core) (begin stop : ℕ)
    (on : (k : ℕ) → begin ≤ k → k < stop → (u k).pipe_en ≡ true) (i j : ℕ) (w : ℕ → ℕ → ℕ)
    (w1 : ℕ → ℕ) where
  running : (k : ℕ) → suc begin ≤ k → k < stop → (core_at u s k).pipe_en_d ≡ true
  unfolding core_at core_edge
  running zero h g = absurd (omega arith)
  running (suc k) h g = on k (omega arith) (omega arith)

  running_in : (ch k : ℕ) → suc begin ≤ k → k < stop → (inputs u s ch k).pipe_en ≡ true
  running_in ch k h g = running k h g

  abbrev pub pixel : ℕ → ℕ → ℕ
  pixel ch n = (u (suc begin + n)).imap_in ch

  abbrev time : ℕ
  time = suc (suc (suc (suc (centre (suc begin) i j))))

  module _
      (set : (ch : ℕ)
        → ch < 32
        → Set (inputs u s ch) (s.conv_array ch) (suc begin) i j (w ch) (w1 ch))
      (ends : time + 3 ≤ stop) where
    conv_array-psum :
        (ch : ℕ)
        → ch < 32
        → ((core_at u s time).conv_array ch).tree.psum_s4_r ≡ conv (pixel ch) (w ch) i j
    conv_array-psum ch low =
        ap (λ (a : SystolicArray). a.tree.psum_s4_r) (conv_array-array_at u s ch time)
        ∙ psum_3x3_lem (inputs u s ch) (s.conv_array ch) (suc begin) stop (running_in ch) i j (w ch)
            (w1 ch) (set ch low) (omega arith)

    conv_array-product :
        (ch : ℕ)
        → ch < 32
        → ((core_at u s time).conv_array ch).product_1x1_d2
          ≡ signed8 (pixel ch (56 * i + j)) *ℤ signed8 (w1 ch)
    conv_array-product ch low =
        ap (λ (a : SystolicArray). a.product_1x1_d2) (conv_array-array_at u s ch time)
        ∙ product_1x1_lem (inputs u s ch) (s.conv_array ch) (suc begin) stop (running_in ch) i j
            (w ch) (w1 ch) (set ch low) (omega arith)

    pub psum_3x3-conv :
        (core_at u s (suc (suc (suc time)))).tree_3x3.psum_s5_r
        ≡ sum_range 32 0 (λ ch. conv (pixel ch) (w ch) i j)
    unfolding core_at psums
    psum_3x3-conv =
        tree_3x3-three (u time) (u (suc time)) (u (suc (suc time))) (core_at u s time)
          (running time (omega arith) (omega arith)) (on time (omega arith) (omega arith))
          (on (suc time) (omega arith) (omega arith))
          (λ ch low.
            subst (Within 147456) (sym (conv_array-psum ch low))
              (conv-Within (pixel ch) (w ch) i j (set ch low).bytes (set ch low).small))
        ∙ sum_range_ext 32 0 32 _ _ (omega arith) (λ ch _ low. conv_array-psum ch low)

    pub psum_1x1-conv :
        (core_at u s (suc (suc (suc time)))).tree_1x1.psum_s5_r
        ≡ sum_range 32 0 (λ ch. signed8 (pixel ch (56 * i + j)) *ℤ signed8 (w1 ch))
    unfolding core_at products
    psum_1x1-conv =
        tree_1x1-three (u time) (u (suc time)) (u (suc (suc time))) (core_at u s time)
          (running time (omega arith) (omega arith)) (on time (omega arith) (omega arith))
          (on (suc time) (omega arith) (omega arith))
          (λ ch low. subst (Within 16384) (sym (conv_array-product ch low)) (
            mul-Within _ _ (signed8-Within _ ((set ch low).bytes _))
              (signed8-Within _ (set ch low).small_1x1)))
        ∙ sum_range_ext 32 0 32 _ _ (omega arith) (λ ch _ low. conv_array-product ch low)

    -- The identity branch is that of the channel that `identity_sel` shows when the pixel leaves its array.
    pub identity-pixel :
        (u time).identity_sel < 32
        → (core_at u s (suc (suc (suc time)))).identity_d3
          ≡ pixel (u time).identity_sel (56 * i + j)
    unfolding core_at
    identity-pixel low =
        let ch : ℕ = (u time).identity_sel in
        identity-three (u time) (u (suc time)) (u (suc (suc time))) (core_at u s time)
          (running time (omega arith) (omega arith)) (on time (omega arith) (omega arith))
          (on (suc time) (omega arith) (omega arith))
        ∙ ap (λ (a : SystolicArray). a.identity_d4) (conv_array-array_at u s ch time)
        ∙ identity_lem (inputs u s ch) (s.conv_array ch) (suc begin) stop (running_in ch) i j (w ch)
            (w1 ch) (set ch low) (omega arith)
