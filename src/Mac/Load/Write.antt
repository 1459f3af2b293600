-- ===== src/Mac/Load/Write.antt =====
-- A write into the buffer of the map.
use rep_vgg_acc.Base.{
  and_false, or_false, ℕ, zero, suc, ◌/◌, ◌%◌, ◌^◌, ◌<◌, bit_or, true, false, ◌&&◌, ◌==◌, ◌≡◌, refl,
  if◌then◌else◌, Bool-cases, inl, inr, arith,
}
use Prim.Native.Nat.{bit_or-bitwise}
use rep_vgg_acc.Bits.{bit}
use rep_vgg_acc.Bits.Law.{bit-or, bit_ext, or-lt}
use rep_vgg_acc.Mac.Load.{BufIn, ImapBuf, sram_cs, sram_addr, buf_edge, in_bank}

none : (i : ℕ) → bit 0 i ≡ 0
unfolding bit
none zero = refl
none (suc i) = none i

pub or_zero : (a : ℕ) → a < 4096 → bit_or a 0 ≡ a
or_zero a l =
    bit_ext 12 (bit_or a 0) a (or-lt 12 a 0 l (omega arith)) l
      λ i _. omega (arith, bit-or a 0 i, none i)

pub zero_or : (a : ℕ) → bit_or 0 a ≡ a
zero_or a = bit_or-bitwise 0 a

-- With no read only the write address reaches the memories.
sram_cs-write : (u : BufIn) (i : ℕ) → u.ren ≡ false → sram_cs u i ≡ (in_bank u.waddr i && u.wen)
unfolding sram_cs
sram_cs-write u i quiet =
    rw (quiet, and_false, and_false, and_false, and_false, or_false, or_false, or_false, or_false)
      refl

sram_addr-write :
    (u : BufIn) (i : ℕ) → u.ren ≡ false → u.wen ≡ true → sram_addr u i ≡ u.waddr % 2 ^ 12
unfolding sram_addr
sram_addr-write u i quiet on =
    let small : u.waddr % 2 ^ 12 < 4096 = omega arith in
    let or_none : bit_or (u.waddr % 2 ^ 12) 0 ≡ u.waddr % 2 ^ 12 =
      or_zero (u.waddr % 2 ^ 12) small in
    rw (quiet, and_false, and_false, and_false, and_false, on, or_none, or_none, or_none, or_none)
      refl

-- A write with no read goes to its memory only.
pub buf_edge-write :
    (u : BufIn) (s : ImapBuf) (i a : ℕ)
    → u.ren ≡ false
    → (buf_edge u s).mem_r i a ≡ (
        if u.wen && i == u.waddr / 2 ^ 12 % 8 && a == u.waddr % 2 ^ 12
        then u.wdata
        else s.mem_r i a)
unfolding buf_edge
buf_edge-write u s i a quiet = elim (Bool-cases u.wen) [
  | inl on ↦ rw (sram_cs-write u i quiet, sram_addr-write u i quiet on, on) (ground arith)
  | inr off ↦ rw (sram_cs-write u i quiet, off, and_false) refl
]
