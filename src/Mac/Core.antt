-- ===== src/Mac/Core.antt =====
-- rtl/acc/mac_array_core.v: the systolic arrays of 32 input channels and their adder trees.
pub mod Sum
use rep_vgg_acc.Base.{ℕ, zero, suc, ◌^◌, Bool, false, if◌then◌else◌}
use rep_vgg_acc.Base.Int.{ℤ}
use rep_vgg_acc.Mac.Array.{ArrayIn, SystolicArray, array_reset, array_edge}
use rep_vgg_acc.Mac.Tree.{TreeIch, tree_ich_reset, tree_ich_edge}

pub record CoreIn : Type 0 where
  pub pipe_en : Bool
  pub pe_en : ℕ → Bool
  pub weight_load : ℕ → ℕ
  pub weight_load_en : ℕ → ℕ → Bool
  pub weight_load_sel : ℕ
  pub weight_sel : ℕ
  pub imap_in : ℕ → ℕ
  pub identity_sel : ℕ

pub record Core : Type 0 where
  pub pipe_en_d : Bool
  pub conv_array : ℕ → SystolicArray
  pub tree_3x3 : TreeIch
  pub tree_1x1 : TreeIch
  pub identity_d1 : ℕ
  pub identity_d2 : ℕ
  pub identity_d3 : ℕ

abbrev pub core_reset : Core
core_reset = record {
  pipe_en_d = false;
  conv_array = λ i. array_reset;
  tree_3x3 = tree_ich_reset;
  tree_1x1 = tree_ich_reset;
  identity_d1 = 0;
  identity_d2 = 0;
  identity_d3 = 0;
}

-- The inputs of array `i`; `pipe_en` reaches it one cycle later.
abbrev pub array_in : CoreIn → Core → ℕ → ArrayIn
array_in u s i = record {
  pipe_en = s.pipe_en_d;
  pe_en = u.pe_en;
  weight_load = u.weight_load i;
  weight_load_en = u.weight_load_en i;
  weight_load_sel = u.weight_load_sel;
  weight_sel = u.weight_sel;
  imap_in = u.imap_in i;
}

unfoldable pub core_edge : CoreIn → Core → Core
unfolding array_edge tree_ich_edge
core_edge u s =
    let step : ℕ → ℕ → ℕ = λ old new. if s.pipe_en_d then new else old in
    record {
      pipe_en_d = u.pipe_en;
      conv_array = λ i. array_edge (array_in u s i) (s.conv_array i);
      tree_3x3 =
          tree_ich_edge (2 ^ 31) s.pipe_en_d (λ i. (s.conv_array i).tree.psum_s4_r) s.tree_3x3;
      tree_1x1 =
          tree_ich_edge (2 ^ 23) s.pipe_en_d (λ i. (s.conv_array i).product_1x1_d2) s.tree_1x1;
      identity_d1 = step s.identity_d1 (s.conv_array u.identity_sel).identity_d4;
      identity_d2 = step s.identity_d2 s.identity_d1;
      identity_d3 = step s.identity_d3 s.identity_d2;
    }

-- The core after `t` edges.
unfoldable pub core_at : (ℕ → CoreIn) → Core → ℕ → Core
core_at u s zero = s
core_at u s (suc t) = core_edge (u t) (core_at u s t)
