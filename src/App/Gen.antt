-- ===== src/App/Gen.antt =====
-- `gen_imap`, `gen_w3` and `gen_w1`.
pub mod Fill
use rep_vgg_acc.Base.{ℕ, zero, suc, ◌+◌, ◌*◌, ◌/◌, ◌^◌, u32, ◌<<<◌}
use rep_vgg_acc.Machine.{update}
use rep_vgg_acc.App.{sram_base, imap_offset, w3_offset, w1_offset, map_size, in_ch, out_ch}

-- The locals `offset` and `data`, and the memory.
pub record GenState : Type 0 where
  pub offset : ℕ
  pub word : ℕ
  pub memory : ℕ → ℕ

-- A loop whose body does not use its counter.
unfoldable pub repeat {ℓ} : {S : Type ℓ} → ℕ → (S → S) → S → S
repeat zero body s = s
repeat (suc n) body s = repeat n body (body s)

-- `cnt = 12; data = (data << 8) + cnt;`
abbrev pub shift_in : ℕ → ℕ
shift_in word = u32 (u32 (word <<< 8) + 12)

-- The innermost loop, the store and the step of `offset`.
pub put_word : ℕ → GenState → GenState
unfolding repeat
put_word base g =
    let word = repeat 4 shift_in g.word in
    record {
      offset = u32 (g.offset + 4);
      word = word;
      memory = update g.memory (sram_base + (base + g.offset)) word;
    }

-- `data` is not initialised: `garbage` is what it holds.
pub start : ℕ → (ℕ → ℕ) → GenState
start garbage m = record { offset = 0; word = garbage; memory = m }

pub gen_imap : ℕ → (ℕ → ℕ) → ℕ → ℕ
unfolding start
gen_imap garbage m =
    let g : GenState =
      repeat (map_size * map_size) (repeat (in_ch / 4) (put_word imap_offset)) (start garbage m) in
    g.memory

pub gen_w3 : ℕ → (ℕ → ℕ) → ℕ → ℕ
unfolding start
gen_w3 garbage m =
    let g : GenState =
      repeat out_ch (repeat (3 * 3) (repeat (in_ch / 4) (put_word w3_offset))) (start garbage m) in
    g.memory

pub gen_w1 : ℕ → (ℕ → ℕ) → ℕ → ℕ
unfolding start
gen_w1 garbage m =
    let g : GenState = repeat out_ch (repeat (in_ch / 4) (put_word w1_offset)) (start garbage m) in
    g.memory

-- The three calls of `main`, each with its own uninitialised local.
pub generate : ℕ → ℕ → ℕ → (ℕ → ℕ) → ℕ → ℕ
generate g1 g2 g3 m = gen_w1 g3 (gen_w3 g2 (gen_imap g1 m))
