-- ===== src/Mac/Spec.antt =====
-- The convolutions of one input channel: a map of 56 by 56 bytes, with zero padding of one pixel.
use rep_vgg_acc.Base.{ℕ, ◌+◌, ◌-◌, ◌*◌, Bool, ◌||◌, ◌==◌, if◌then◌else◌}
use rep_vgg_acc.Base.Int.{ℤ, pos, ◌*ℤ◌, signed8}
use rep_vgg_acc.Base.Loop.{sum_range}

-- The border of the padded map, which has the rows and columns 0 to 57.
abbrev pub border : ℕ → ℕ → Bool
border r c = r == 0 || r == 57 || c == 0 || c == 57

abbrev pub padded : (ℕ → ℕ) → ℕ → ℕ → ℤ
padded x r c = if border r c then pos 0 else signed8 (x ((r - 1) * 56 + (c - 1)))

-- The kernel `w` at the output pixel in row `i` and column `j`.
unfoldable pub conv : (ℕ → ℕ) → (ℕ → ℕ) → ℕ → ℕ → ℤ
conv x w i j =
    sum_range 3 0 λ k. sum_range 3 0 λ m. padded x (i + k) (j + m) *ℤ signed8 (w (k * 3 + m))
