-- ===== src/Machine/Memory.antt =====
-- Reading a memory after a write.
use rep_vgg_acc.Base.{ℕ, ◌≡◌, ◌≢◌, arith}
use rep_vgg_acc.Machine.{update}

pub update_self : (m : ℕ → ℕ) (a v : ℕ) → update m a v a ≡ v
update_self m a v = ground arith

pub update_ne : (m : ℕ → ℕ) (a v x : ℕ) → x ≢ a → update m a v x ≡ m x
update_ne m a v x h = ground arith

-- A second write that puts the old word back undoes the first.
pub update_back : (m : ℕ → ℕ) (a v w x : ℕ) → w ≡ m a → update (update m a v) a w x ≡ m x
update_back m a v w x h = ground arith
