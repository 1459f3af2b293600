-- ===== src/App.antt =====
-- hbird-sdk/application/baremetal/acc/main.c: the test program of the accelerator. It fills the
-- SRAM with a feature map and weights, and computes the convolutions of a RepVGG block in software.
pub mod Gen
pub mod Check
mod Examples
use rep_vgg_acc.Base.{ℕ}

-- SRAM_BASE of hbirdv2.h and the layout of the SRAM.
abbrev pub sram_base : ℕ
sram_base = 0x4000_0000

abbrev pub imap_offset : ℕ
imap_offset = 0x0

abbrev pub w3_offset : ℕ
w3_offset = 0x40000

abbrev pub w1_offset : ℕ
w1_offset = 0x50000

abbrev pub omap_offset : ℕ
omap_offset = 0x60000

abbrev pub map_size : ℕ
map_size = 56

abbrev pub in_ch : ℕ
in_ch = 64

abbrev pub out_ch : ℕ
out_ch = 64
