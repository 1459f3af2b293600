-- ===== src/App/Check/Outcome.antt =====
-- What `check_result` returns and what it leaves in the SRAM, the accelerator's output map included.
use rep_vgg_acc.Base.{ℕ, ◌+◌, ◌*◌, ◌≤◌, ◌<◌, ◌≡◌, ◌⊎◌, refl, arith}
use rep_vgg_acc.Base.Loop.{for_range, for_range_inv}
use rep_vgg_acc.App.{sram_base, omap_offset, map_size}
use rep_vgg_acc.App.Check.{Memory, W3, W1, store_pixel, check_result}

-- The memory after the words of the first `n` output pixels were overwritten by `v`.
record Overwritten (v n : ℕ) (mem mem' : Memory) : Type 0 where
  inside : (x : ℕ) → x < n → mem' (sram_base + (omap_offset + 4 * x)) ≡ v
  outside :
      (a : ℕ)
      → (a < sram_base + omap_offset) ⊎ (sram_base + (omap_offset + 4 * n) ≤ a)
      → mem' a ≡ mem a

store_pixel-Overwritten :
    (v i j : ℕ) (mem mem' : Memory)
    → Overwritten v (i * map_size + j) mem mem'
    → Overwritten v (i * map_size + (j + 1)) mem (store_pixel v 0 i j mem')
unfolding store_pixel
store_pixel-Overwritten v i j mem mem' o = record {
  inside = λ x h. ground (arith, o.inside x);
  outside = λ a h. ground (arith, o.outside a);
}

row-Overwritten :
    (v i : ℕ) (mem mem' : Memory)
    → Overwritten v (i * map_size) mem mem'
    → Overwritten v ((i + 1) * map_size) mem (for_range map_size 0 (store_pixel v 0 i) mem')
row-Overwritten v i mem mem' o =
    let none_yet : i * 56 + 0 ≡ i * 56 = omega arith in
    let full : (i + 1) * 56 ≡ i * 56 + 56 = omega arith in
    rw full (
      for_range_inv (λ j m. Overwritten v (i * 56 + j) mem m) (store_pixel v 0 i) 56 0 56
        (λ j m _ _ w. store_pixel-Overwritten v i j mem m w) mem' refl (rw none_yet o))

rows-Overwritten :
    (v : ℕ) (mem : Memory)
    → Overwritten v 3136 mem
        (for_range map_size 0 (λ i. for_range map_size 0 (store_pixel v 0 i)) mem)
rows-Overwritten v mem =
    for_range_inv (λ i m. Overwritten v (i * 56) mem m)
      (λ i. for_range map_size 0 (store_pixel v 0 i)) 56 0 56
      (λ i m _ _ w. row-Overwritten v i mem m w) mem refl
      (record { inside = λ x h. absurd (omega arith); outside = λ a h. refl })

-- Whatever the memory holds, also when the accelerator's output map is wrong, `check_result` reports
-- 0 errors. It overwrites the 3136 words of output channel 0 by its uninitialised `acc_res` and
-- changes no other address.
pub check_result-overwrites :
    (acc_res : ℕ) (mem : Memory) (w3 : W3) (w1 : W1)
    → let end = check_result acc_res mem w3 w1 in
      (end.errors ≡ 0)
      × ((x : ℕ) → x < 3136 → end.memory (sram_base + (omap_offset + 4 * x)) ≡ acc_res)
      × ((a : ℕ)
          → (a < sram_base + omap_offset) ⊎ (sram_base + (omap_offset + 12544) ≤ a)
          → end.memory a ≡ mem a)
unfolding check_result for_range
check_result-overwrites acc_res mem w3 w1 =
    let o = rows-Overwritten acc_res mem in (refl, o.inside, o.outside)
