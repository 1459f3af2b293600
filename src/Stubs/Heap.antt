-- ===== src/Stubs/Heap.antt =====
-- The break of the heap stays in the heap, and blocks do not overlap.
use rep_vgg_acc.Base.{ℕ, ◌+◌, ◌≤◌, ◌<◌, ◌≡◌, ◌≢◌, ◌⊎◌, minus_one, arith}
use rep_vgg_acc.Base.Int.{ℤ, pos, negsuc}
use rep_vgg_acc.Machine.{Prog, Returns, ◌>>=◌, pure}
use rep_vgg_acc.Stubs.{stub_sbrk}

-- With the break in the heap `_sbrk` leaves it there, for any increment. It fails with -1 and an
-- unchanged break, or returns the old break.
stub_sbrk-bounds :
    (end heap_end : ℕ) (incr : ℤ) (curbrk : ℕ)
    → end ≤ curbrk
    → curbrk ≤ heap_end
    → Returns (stub_sbrk end heap_end incr curbrk) λ r curbrk'.
      (end ≤ curbrk')
      × (curbrk' ≤ heap_end)
      × (((r ≡ minus_one) × (curbrk' ≡ curbrk)) ⊎ (r ≡ curbrk))
unfolding stub_sbrk
stub_sbrk-bounds end heap_end (pos n) curbrk low high = ground arith
stub_sbrk-bounds end heap_end (negsuc n) curbrk low high = ground arith

-- Two calls of `_sbrk` for blocks of `m` and `n` bytes.
abbrev pub two_blocks : ℕ → ℕ → ℕ → ℕ → Prog ℕ (ℕ × ℕ)
two_blocks end heap_end m n = do
  r ← stub_sbrk end heap_end (pos m)
  s ← stub_sbrk end heap_end (pos n)
  pure (r, s)

-- Two blocks allocated one after the other, in a heap below the last address: where both calls
-- succeed, both blocks lie in the heap and the second begins where the first ends.
stub_sbrk-disjoint :
    (end heap_end m n curbrk : ℕ)
    → end ≤ curbrk
    → curbrk ≤ heap_end
    → heap_end < minus_one
    → Returns (two_blocks end heap_end m n curbrk) λ r curbrk'.
      r.0 ≢ minus_one
      → r.1 ≢ minus_one
      → (end ≤ r.0) × (r.0 + m ≡ r.1) × (r.1 + n ≤ heap_end) × (curbrk' ≡ r.1 + n)
unfolding stub_sbrk
stub_sbrk-disjoint end heap_end m n curbrk low high below = ground arith
