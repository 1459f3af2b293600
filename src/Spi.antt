-- ===== src/Spi.antt =====
-- hbird-sdk/SoC/hbirdv2/Common/Source/Drivers/hbirdv2_spi.c.
pub mod Fifo
pub mod Setup
mod Examples
use rep_vgg_acc.Base.{
  ℕ, zero, suc, ◌+◌, ◌-◌, ◌^◌, Bool, ◌&&◌, List, [], Option, none, some, not, bit_and, bit_or, u32,
  u8, u16, ltb, leb, get_elem?, set, length, ◌==◌, if◌then◌else◌, ◌<<<◌, ◌>>>◌,
}
use rep_vgg_acc.Machine.{
  Bus, Prog, done, fault, pure, ◌>>=◌, ◌>>◌, read, write, set_bits, keep_bits, spin_until,
  unless_null,
}

-- The fields of `SPI_TypeDef`, and where they stand in it.
pub data Reg : Type 0 where
  status clkdiv spicmd spiadr spilen spidum txfifo pad rxfifo intcfg intsta : Reg

abbrev pub offset : Reg → ℕ
offset status = 0x00
offset clkdiv = 0x04
offset spicmd = 0x08
offset spiadr = 0x0c
offset spilen = 0x10
offset spidum = 0x14
offset txfifo = 0x18
offset pad = 0x1c
offset rxfifo = 0x20
offset intcfg = 0x24
offset intsta = 0x28

-- The number of words for `datalen` bits.
unfoldable pub num_words : ℕ → ℕ
num_words datalen = bit_and (datalen >>> 5) 0x7ff + (if bit_and datalen 0x1f == 0 then 0 else 1)

-- When the waiting loops of the two FIFO functions end.
unfoldable pub has_room : ℕ → Bool
has_room v = ltb (bit_and (v >>> 24) 0xff) 8

unfoldable pub has_data : ℕ → Bool
has_data v = not (bit_and (v >>> 16) 0xff == 0)

-- `if (th > 31) th = 31;` on a `uint8_t`.
abbrev pub clipped : ℕ → ℕ
clipped th = if ltb 31 (u8 th) then 31 else u8 th

-- The word that starts a transaction, where both shifts are by less than 32.
abbrev pub start_word : ℕ → ℕ → ℕ
start_word trans_type csnum =
    bit_or (bit_and (1 <<< u32 (csnum + 8)) 0xf00) (bit_and (1 <<< trans_type) 0xff)

module _ {D : Type 0} (bus : Bus D) (spi : Option ℕ) where
  -- A shift by 32 or more is undefined.
  pub spi_setup_cmd_addr : ℕ → ℕ → ℕ → ℕ → Prog D ℕ
  spi_setup_cmd_addr cmd cmdlen addr addrlen = unless_null spi λ p.
      if ltb 0 cmdlen && leb cmdlen 32
      then (do
        write bus (p + offset spicmd) (u32 (cmd <<< (32 - cmdlen)))
        write bus (p + offset spiadr) addr
        write bus (p + offset spilen)
            (bit_or (bit_and cmdlen 0x3f) (bit_and (u32 (addrlen <<< 8)) 0x3f00))
        pure 0)
      else (λ d. fault)

  pub spi_setup_clk : ℕ → Prog D ℕ
  spi_setup_clk clkdiv_val =
      unless_null spi λ p. do write bus (p + offset clkdiv) (u8 clkdiv_val); pure 0

  pub spi_setup_dummy : ℕ → ℕ → Prog D ℕ
  spi_setup_dummy dummy_rd dummy_wr = unless_null spi λ p. do
    write bus (p + offset spidum)
        (bit_or (bit_and (u16 dummy_wr <<< 16) 0xffff_0000) (bit_and (u16 dummy_rd) 0xffff))
    pure 0

  pub spi_set_datalen : ℕ → Prog D ℕ
  spi_set_datalen datalen = unless_null spi λ p. do
    old_len ← read bus (p + offset spilen)
    write bus (p + offset spilen)
        (bit_or (bit_and (u32 (datalen <<< 16)) 0xffff_0000) (bit_and old_len 0xffff))
    pure 0

  pub spi_start_transaction : ℕ → ℕ → Prog D ℕ
  spi_start_transaction trans_type csnum = unless_null spi λ p.
      if ltb (u32 (csnum + 8)) 32 && ltb trans_type 32
      then (do write bus (p + offset status) (start_word trans_type csnum); pure 0)
      else (λ d. fault)

  pub spi_get_status : Prog D ℕ
  spi_get_status = unless_null spi λ p. read bus (p + offset status)

  -- The body of the loop of `spi_write_fifo`, each with fuel for its waiting loop.
  pub write_word : ℕ → ℕ → ℕ → Prog D ℕ
  write_word fuel p v = do
    s ← spin_until bus (p + offset status) has_room fuel
    write bus (p + offset txfifo) v
    pure 0

  -- `left` rounds of the loop from index `i`.
  pub write_words : ℕ → ℕ → ℕ → ℕ → List ℕ → Prog D ℕ
  write_words fuel p zero i words d = pure 0 d
  write_words fuel p (suc left) i words d =
      let rest = write_words fuel p left (i + 1) words in
      elim (get_elem? words i) [ none ↦ fault | some v ↦ (write_word fuel p v >>= λ _. rest) d ]

  pub spi_write_fifo : ℕ → List ℕ → ℕ → Prog D ℕ
  spi_write_fifo fuel words datalen =
      unless_null spi λ p. write_words fuel p (num_words datalen) 0 words

  pub read_word : ℕ → ℕ → Prog D ℕ
  read_word fuel p = do
    s ← spin_until bus (p + offset status) has_data fuel
    read bus (p + offset rxfifo)

  -- The result is the array after the loop.
  pub read_words : ℕ → ℕ → ℕ → ℕ → List ℕ → Prog D (List ℕ)
  read_words fuel p zero i words d = pure words d
  read_words fuel p (suc left) i words d =
      (read_word fuel p >>= λ v t.
      let rest = read_words fuel p left (i + 1) (set words i v) t in
      if ltb i (length words) then rest else fault)
        d

  pub spi_read_fifo : ℕ → List ℕ → ℕ → Prog D (ℕ × List ℕ)
  spi_read_fifo fuel words datalen d = elim spi [
    | none ↦ done ((0xffff_ffff, words), d)
    | some p ↦ (read_words fuel p (num_words datalen) 0 words >>= λ xs. pure (0, xs)) d
  ]

  pub spi_enable_interrupt : Prog D ℕ
  spi_enable_interrupt =
      unless_null spi λ p. do set_bits bus (p + offset intcfg) 0x8000_0000; pure 0

  pub spi_disable_interrupt : Prog D ℕ
  spi_disable_interrupt =
      unless_null spi λ p. do keep_bits bus (p + offset intcfg) 0x7fff_ffff; pure 0

  pub spi_set_tx_th : ℕ → Prog D ℕ
  spi_set_tx_th th = unless_null spi λ p. do
    keep_bits bus (p + offset intcfg) 0xffff_ffe0
    set_bits bus (p + offset intcfg) (clipped th)
    pure 0

  pub spi_set_rx_th : ℕ → Prog D ℕ
  spi_set_rx_th th = unless_null spi λ p. do
    keep_bits bus (p + offset intcfg) 0xffff_e0ff
    set_bits bus (p + offset intcfg) (clipped th <<< 8)
    pure 0

  pub spi_get_int_status : Prog D ℕ
  spi_get_int_status = unless_null spi λ p. read bus (p + offset intsta)
