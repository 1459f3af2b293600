-- ===== src/App/Check/Spec.antt =====
-- The convolution that `check_result` stands for: zero padding of one pixel on each side of a map of
-- 56 by 56 pixels, 64 channels of signed bytes, four to a word.
use rep_vgg_acc.Base.{ℕ, ◌+◌, ◌-◌, ◌*◌, ◌/◌, ◌%◌, ◌^◌, ◌||◌, ◌==◌, if◌then◌else◌}
use rep_vgg_acc.Base.Int.{ℤ, pos, ◌*ℤ◌, signed8}
use rep_vgg_acc.Base.Loop.{sum_range}
use rep_vgg_acc.App.Check.{Memory, W3, W1}

-- Channel `c` of the pixel with the linear index `x`.
unfoldable pub channel : Memory → ℕ → ℕ → ℤ
channel mem x c = signed8 (mem (0x4000_0000 + (x * 16 + c / 4) * 4) / 2 ^ (8 * (c % 4)) % 256)

-- Row `r` and column `c` of the padded map, from 0 to 57.
unfoldable pub padded : Memory → ℕ → ℕ → ℕ → ℤ
padded mem r c ch =
    if r == 0 || r == 57 || c == 0 || c == 57
    then pos 0
    else channel mem ((r - 1) * 56 + (c - 1)) ch

-- The contribution of the tap in row `k` and column `m` of the kernel.
unfoldable pub tap : Memory → W3 → ℕ → ℕ → ℕ → ℕ → ℕ → ℤ
tap mem w3 och i j k m =
    sum_range 64 0 λ c. padded mem (i + k) (j + m) c *ℤ signed8 (w3 och c (k * 3 + m))

unfoldable pub conv3x3 : Memory → W3 → ℕ → ℕ → ℕ → ℤ
conv3x3 mem w3 och i j = sum_range 3 0 λ k. sum_range 3 0 λ m. tap mem w3 och i j k m

unfoldable pub conv1x1 : Memory → W1 → ℕ → ℕ → ℕ → ℤ
conv1x1 mem w1 och i j = sum_range 64 0 λ c. channel mem (i * 56 + j) c *ℤ signed8 (w1 och c)
