-- ===== src/Bits.antt =====
-- The bits of a word, and what `&`, `|`, `^` and `~` do to each of them.
mod Step
pub mod Law
pub mod Field
pub mod Word32
use rep_vgg_acc.Base.{ℕ, zero, suc, ◌/◌, ◌%◌}

-- Bit `i` of `w`, as 0 or 1.
unfoldable pub bit : ℕ → ℕ → ℕ
bit w zero = w % 2
bit w (suc i) = bit (w / 2) i
