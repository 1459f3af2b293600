-- ===== src/Mac.antt =====
-- rtl/acc: the processing element (basic_pe.v) of the array of multipliers, which the children put together.
mod Examples
pub mod Spec
pub mod Tree
pub mod Array
pub mod Core
pub mod Control
pub mod Unit
pub mod Merge
pub mod Accumulate
pub mod Weights
pub mod Load
pub mod Output
pub mod Arbiter
use rep_vgg_acc.Base.{ℕ, ◌^◌, Bool, if◌then◌else◌}
use rep_vgg_acc.Base.Int.{ℤ, pos, ◌*ℤ◌, signed8}
use rep_vgg_acc.Base.Bound.{wrap}
use rep_vgg_acc.Machine.{update}

pub record PeIn : Type 0 where
  pub pe_en : Bool
  pub pipe_en : Bool
  pub weight_load : ℕ
  pub weight_load_en : Bool
  pub weight_load_sel : ℕ
  pub weight_sel : ℕ
  pub imap_in : ℕ

-- The register of the map, the four weight buffers and the registered product.
pub record Pe : Type 0 where
  pub imap_r : ℕ
  pub weights : ℕ → ℕ
  pub product : ℤ

abbrev pub pe_reset : Pe
pe_reset = record { imap_r = 0; weights = λ k. 0; product = pos 0 }

unfoldable pub pe_edge : PeIn → Pe → Pe
pe_edge u p = record {
  imap_r = if u.pipe_en then u.imap_in else p.imap_r;
  weights =
      if u.weight_load_en then update p.weights u.weight_load_sel u.weight_load else p.weights;
  product =
      if u.pe_en
      then wrap (2 ^ 15) (signed8 (p.weights u.weight_sel) *ℤ signed8 p.imap_r)
      else pos 0;
}
