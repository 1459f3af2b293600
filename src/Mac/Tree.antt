-- ===== src/Mac/Tree.antt =====
-- The adder trees rtl/acc/adder_tree_3x3.v and adder_tree_ich.v.
pub mod Sum
use rep_vgg_acc.Base.{ℕ, ◌+◌, ◌*◌, ◌^◌, Bool, if◌then◌else◌}
use rep_vgg_acc.Base.Int.{ℤ, pos, ◌+ℤ◌}
use rep_vgg_acc.Base.Bound.{wrap}

-- An adder whose sum has a top bit of the weight `half`.
abbrev pub add : ℕ → ℤ → ℤ → ℤ
add half a b = wrap half (a +ℤ b)

-- The registers of adder_tree_3x3.
pub record Tree3x3 : Type 0 where
  pub psum_s2_r : ℕ → ℤ
  pub product_9_r : ℤ
  pub psum_s4_r : ℤ

abbrev pub tree3x3_reset : Tree3x3
tree3x3_reset = record { psum_s2_r = λ i. pos 0; product_9_r = pos 0; psum_s4_r = pos 0 }

unfoldable pub tree3x3_edge : Bool → (ℕ → ℤ) → Tree3x3 → Tree3x3
tree3x3_edge pipe_en product t =
    let psum_s1 : ℕ → ℤ = λ i. add (2 ^ 31) (product (2 * i)) (product (2 * i + 1)) in
    let psum_s2 : ℕ → ℤ = λ i. add (2 ^ 31) (psum_s1 (2 * i)) (psum_s1 (2 * i + 1)) in
    let psum_s3 : ℤ = add (2 ^ 31) (t.psum_s2_r 0) (t.psum_s2_r 1) in
    let psum_s4 : ℤ = add (2 ^ 31) psum_s3 t.product_9_r in
    if pipe_en
    then record { psum_s2_r = psum_s2; product_9_r = product 8; psum_s4_r = psum_s4 }
    else t

-- The registers of adder_tree_ich.
pub record TreeIch : Type 0 where
  pub psum_s2_r : ℕ → ℤ
  pub psum_s4_r : ℕ → ℤ
  pub psum_s5_r : ℤ

abbrev pub tree_ich_reset : TreeIch
tree_ich_reset = record { psum_s2_r = λ i. pos 0; psum_s4_r = λ i. pos 0; psum_s5_r = pos 0 }

-- `half` is the weight of the top bit of PSUM_WIDTH bits.
unfoldable pub tree_ich_edge : ℕ → Bool → (ℕ → ℤ) → TreeIch → TreeIch
tree_ich_edge half pipe_en psum_ch t =
    let psum_s1 : ℕ → ℤ = λ i. add half (psum_ch (2 * i)) (psum_ch (2 * i + 1)) in
    let psum_s2 : ℕ → ℤ = λ i. add half (psum_s1 (2 * i)) (psum_s1 (2 * i + 1)) in
    let psum_s3 : ℕ → ℤ = λ i. add half (t.psum_s2_r (2 * i)) (t.psum_s2_r (2 * i + 1)) in
    let psum_s4 : ℕ → ℤ = λ i. add half (psum_s3 (2 * i)) (psum_s3 (2 * i + 1)) in
    let psum_s5 : ℤ = add half (t.psum_s4_r 0) (t.psum_s4_r 1) in
    if pipe_en then record { psum_s2_r = psum_s2; psum_s4_r = psum_s4; psum_s5_r = psum_s5 } else t
