-- ===== src/App/Examples.antt =====
-- The properties of the accelerator's test program at concrete memories and pixels.
use rep_vgg_acc.Base.{ℕ, ◌+◌, ◌*◌, ◌≤◌, ◌<◌, ◌≡◌, ◌⊎◌, arith}
use rep_vgg_acc.Base.Loop.{sum_range}
use rep_vgg_acc.App.{sram_base, imap_offset, w3_offset, w1_offset, omap_offset}
use rep_vgg_acc.App.Gen.{generate}
use rep_vgg_acc.App.Gen.Fill.{IsOutside, generate-Filled}
use rep_vgg_acc.Base.Int.{pos}
use rep_vgg_acc.App.Check.{W3, W1, psum3x3, check_pixel, check_result, load_w3, load_w1}
use rep_vgg_acc.App.Check.Block.{repvgg_block, check_pixel-eq-repvgg_block}
use rep_vgg_acc.App.Check.Weights.{w3_byte, w1_byte, load_w1-load_w3}
use rep_vgg_acc.App.Check.Spec.{conv3x3, tap}
use rep_vgg_acc.App.Check.Conv.{psum3x3-eq-conv3x3, psum3x3-column_54}
use rep_vgg_acc.App.Check.Range.{psum3x3-Within}
use rep_vgg_acc.Base.Bound.{Within}
use rep_vgg_acc.App.Check.Outcome.{check_result-overwrites}

-- Every word holds the bytes 1, 2, 3 and -1.
abbrev memory : ℕ → ℕ
memory a = 0xff03_0201

abbrev weights3 : W3
weights3 m c t = 0x80

abbrev weights1 : W1
weights1 m c = 5

generate-Filled_example :
    let m' = generate 7 8 9 memory in
    ((k : ℕ) → 4 * k < 0x31000 → m' (sram_base + (imap_offset + 4 * k)) ≡ 0x0c0c_0c0c)
    × ((k : ℕ) → 4 * k < 0x9000 → m' (sram_base + (w3_offset + 4 * k)) ≡ 0x0c0c_0c0c)
    × ((k : ℕ) → 4 * k < 0x1000 → m' (sram_base + (w1_offset + 4 * k)) ≡ 0x0c0c_0c0c)
    × ((a : ℕ)
        → IsOutside imap_offset 0x31000 a
        → IsOutside w3_offset 0x9000 a
        → IsOutside w1_offset 0x1000 a
        → m' a ≡ memory a)
generate-Filled_example = generate-Filled 7 8 9 memory

psum3x3-eq-conv3x3_example : psum3x3 memory weights3 0 55 53 ≡ conv3x3 memory weights3 0 55 53
psum3x3-eq-conv3x3_example = psum3x3-eq-conv3x3 memory weights3 0 55 53 (omega arith)

psum3x3-column_54_example :
    psum3x3 memory weights3 0 7 54
    ≡ sum_range 3 0 (λ k. sum_range 2 0 (λ m. tap memory weights3 0 7 54 k m))
psum3x3-column_54_example = psum3x3-column_54 memory weights3 0 7

psum3x3-Within_example : Within 9437184 (psum3x3 memory weights3 0 3 4)
psum3x3-Within_example = psum3x3-Within memory weights3 (λ m c t. omega arith) 0 3 4

check_result-overwrites_example :
    let end = check_result 0x55 memory weights3 weights1 in
    (end.errors ≡ 0)
    × ((x : ℕ) → x < 3136 → end.memory (sram_base + (omap_offset + 4 * x)) ≡ 0x55)
    × ((a : ℕ)
        → (a < sram_base + omap_offset) ⊎ (sram_base + (omap_offset + 12544) ≤ a)
        → end.memory a ≡ memory a)
check_result-overwrites_example = check_result-overwrites 0x55 memory weights3 weights1

check_pixel-eq-repvgg_block_example :
    check_pixel memory weights3 weights1 0 3 4 (pos 9) ≡ repvgg_block memory weights3 weights1 0 3 4
check_pixel-eq-repvgg_block_example =
    check_pixel-eq-repvgg_block memory weights3 weights1 0 3 4 (pos 9) (omega arith) (omega arith)

load_w1-load_w3_example :
    (load_w3 memory weights3 5 63 8 ≡ w3_byte memory 5 63 8)
    × (load_w1 memory weights1 5 63 ≡ w1_byte memory 5 63)
load_w1-load_w3_example =
    load_w1-load_w3 memory weights3 weights1 5 63 8 (omega arith) (omega arith) (omega arith)
