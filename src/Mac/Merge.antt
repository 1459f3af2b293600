-- ===== src/Mac/Merge.antt =====
-- rtl/acc/map_merger.v: the sum of the three branches, the activation and the quantisation.
use rep_vgg_acc.Base.{ℕ, ◌+◌, ◌-◌, ◌*◌, ◌/◌, ◌%◌, ◌^◌, ◌<◌, ◌≡◌, refl, ltb, if◌then◌else◌, arith}
use rep_vgg_acc.Base.Int.{ℤ, pos, negsuc, ◌+ℤ◌, signed8}
use rep_vgg_acc.Base.Bound.{wrap, Within, wrap-eq_self, add-Within, signed8-Within}
use rep_vgg_acc.App.Check.{quantise, relu}
use rep_vgg_acc.Mac.Unit.{PsumData}

-- The bits of a signed wire that has `size` values.
abbrev pub bits_of : ℕ → ℤ → ℕ
bits_of size (pos n) = n
bits_of size (negsuc n) = size - 1 - n

-- Eight bits of a wire from bit `k` on.
abbrev pub slice : ℕ → ℕ → ℕ
slice w k = w / 2 ^ k % 256

unfoldable pub map_merger : PsumData → ℕ
map_merger d =
    let merge_result : ℤ = wrap (2 ^ 31) (signed8 d.identity +ℤ d.psum_3x3 +ℤ d.psum_1x1) in
    let merge : ℕ = bits_of (2 ^ 32) merge_result in
    let act_merge : ℕ = if ltb merge (2 ^ 31) then merge else 0 in
    let quan_3x3 : ℕ = slice (bits_of (2 ^ 32) d.psum_3x3) 17 in
    let quan_1x1 : ℕ = slice (bits_of (2 ^ 24) d.psum_1x1) 14 in
    slice act_merge 17 * 2 ^ 16 + quan_3x3 * 2 ^ 8 + quan_1x1

slice_3x3 : (a : ℤ) → Within 0x7fff_ffff a → slice (bits_of (2 ^ 32) a) 17 ≡ quantise a 17
unfolding quantise
slice_3x3 (pos n) w = refl
slice_3x3 (negsuc n) w = omega arith

slice_1x1 : (a : ℤ) → Within 0x7f_ffff a → slice (bits_of (2 ^ 24) a) 14 ≡ quantise a 14
unfolding quantise
slice_1x1 (pos n) w = refl
slice_1x1 (negsuc n) w = omega arith

activation :
    (a : ℤ)
    → Within 0x7fff_ffff a
    → slice (if ltb (bits_of (2 ^ 32) a) (2 ^ 31) then bits_of (2 ^ 32) a else 0) 17
      ≡ quantise (relu a) 17
unfolding quantise
activation (pos n) w = ground arith
activation (negsuc n) w = ground arith

reorder : (a b c : ℤ) → a +ℤ b +ℤ c ≡ c +ℤ b +ℤ a
unfolding ◌+ℤ◌
reorder a b c = ground arith

-- For sums of a block of 64 channels: the word that map_merger gives out has the three quantised branches as
-- check_result computes them.
pub map_merger-quantise :
    (d : PsumData)
    → d.identity < 256
    → Within 9437184 d.psum_3x3
    → Within 1048576 d.psum_1x1
    → map_merger d
      ≡ quantise (relu (d.psum_1x1 +ℤ d.psum_3x3 +ℤ signed8 d.identity)) 17 * 2 ^ 16
        + quantise d.psum_3x3 17 * 2 ^ 8
        + quantise d.psum_1x1 14
unfolding map_merger
map_merger-quantise d byte w3 w1 =
    let sum : ℤ = signed8 d.identity +ℤ d.psum_3x3 +ℤ d.psum_1x1 in
    let bounded =
      add-Within (128 + 9437184) 1048576 _ d.psum_1x1
        (add-Within 128 9437184 (signed8 d.identity) d.psum_3x3 (signed8-Within d.identity byte) w3)
        w1 in
    rw
      (
        wrap-eq_self (2 ^ 31) 10485888 sum (omega arith) bounded,
        ← reorder (signed8 d.identity) d.psum_3x3 d.psum_1x1,
        activation sum (omega (arith, bounded)),
        slice_3x3 d.psum_3x3 (omega (arith, w3)),
        slice_1x1 d.psum_1x1 (omega (arith, w1)),
      )
      refl
