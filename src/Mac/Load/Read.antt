-- ===== src/Mac/Load/Read.antt =====
-- What the array reads of the map that was loaded.
use rep_vgg_acc.Base.{
  ℕ, ltb, ◌+◌, ◌*◌, ◌/◌, ◌%◌, ◌^◌, ◌<◌, true, false, ◌&&◌, ◌||◌, List, [], ◌∷◌, ◌==◌, ◌≡◌, ◌≢◌,
  refl, ◌∙◌, ap, ap₂, Bool-cases, inl, inr, and_false, and_true, arith,
}
use rep_vgg_acc.Bits.{bit}
use rep_vgg_acc.Mac.Load.{
  ImapIn, ImapBiu, imap_wen, BufIn, ImapBuf, sram_raddr, sram_cs, sram_addr, buf_edge, in_bank,
  masked, imap_rdata, PathIn, ImapPath, buf_in, path_edge, path_edges,
}
use rep_vgg_acc.Mac.Load.Gather.{gather-four, or_four, chosen_or}
use rep_vgg_acc.Mac.Load.Store.{place, pair, Holds, Comes, path_edges-Holds, start-Holds}

imap_wen-idle : (u : ImapIn) (s : ImapBiu) → u.rsp_vld ≡ false → imap_wen u s ≡ false
unfolding imap_wen
imap_wen-idle u s idle = rw (idle, and_false) refl

-- For pixel `i` of the group of channels `g`.
module _ (i g : ℕ) (inside : i < 3136) (group : g < 2) where
  -- The address of part `j`, and its memory.
  spot : ℕ → ℕ
  spot j = (2 * j + g) * 3136 + i

  bank : ℕ → ℕ
  bank j = spot j / 2 ^ 12 % 8

  place-spot : (j : ℕ) → j < 4 → place (8 * i + 4 * g + j) ≡ spot j
  unfolding place spot
  place-spot j l = omega (arith, inside, group)

  bank-lt : (j k : ℕ) → j < k → k < 4 → bank j < bank k
  unfolding bank spot
  bank-lt j k a b = omega (arith, inside, group)

  bank-inside : (j : ℕ) → j < 4 → bank j < 7
  unfolding bank spot
  bank-inside j l = omega (arith, inside, group)

  bank-apart : (j k : ℕ) → j < 4 → k < 4 → k ≢ j → bank k ≢ bank j
  bank-apart j k a b other = elim (Bool-cases (ltb j k)) [
    | inl test ↦
        let less : bank j < bank k = bank-lt j k (ground (arith, test)) b in
        λ e. absurd (omega (arith, less, e))
    | inr test ↦
        let less : bank k < bank j = bank-lt k j (ground (arith, test, other)) a in
        λ e. absurd (omega (arith, less, e))
  ]

  -- When the array reads it and no word comes.
  module _ (u : BufIn) (at : u.raddr ≡ g * 4096 + i) (quiet : u.wen ≡ false)
      (reads : u.ren ≡ true) where
    sram_raddr-spot : (j : ℕ) → sram_raddr u j ≡ spot j
    unfolding sram_raddr spot bit
    sram_raddr-spot j =
        let half : u.raddr / 2 / 2 / 2 / 2 / 2 / 2 / 2 / 2 / 2 / 2 / 2 / 2 % 2 ≡ g =
          omega (arith, at, inside, group) in
        let low : u.raddr % 4096 ≡ i = omega (arith, at, inside) in rw (half, low) refl

    sram_cs-four :
        (k : ℕ) → sram_cs u k ≡ (bank 0 == k || bank 1 == k || bank 2 == k || bank 3 == k)
    unfolding sram_cs bank
    sram_cs-four k =
        rw
          (
            sram_raddr-spot 0,
            sram_raddr-spot 1,
            sram_raddr-spot 2,
            sram_raddr-spot 3,
            quiet,
            and_false,
            reads,
            and_true,
            and_true,
            and_true,
            and_true,
          )
          refl

    -- What part `j` puts on the address of the memory `k`.
    part : ℕ → ℕ → ℕ
    part k j = masked (sram_raddr u j) (in_bank (sram_raddr u j) k && u.ren)

    part-on : (j : ℕ) → part (bank j) j ≡ spot j % 2 ^ 12
    unfolding part bank
    part-on j =
        let same : (spot j / 4096 % 8 == spot j / 4096 % 8) ≡ true = ground arith in
        rw (sram_raddr-spot j, reads, same) refl

    part-off : (j k : ℕ) → j < 4 → k < 4 → k ≢ j → part (bank j) k ≡ 0
    unfolding part bank
    part-off j k a b other =
        let apart : (bank k == bank j) ≡ false = ground (arith, bank-apart j k a b other) in
        rw (sram_raddr-spot k, apart) refl

    sram_addr-bank : (j : ℕ) → j < 4 → sram_addr u (bank j) ≡ spot j % 2 ^ 12
    unfolding sram_addr part
    sram_addr-bank j l =
        let small : part (bank j) j < 4096 = omega (arith, part-on j) in
        let written : masked u.waddr u.wen ≡ 0 = rw quiet refl in
        rw written (or_four (part (bank j)) j l small (λ k a other. part-off j k l a other))
        ∙ part-on j

    -- The word that part `j` is read from.
    dout-pair :
        (words : ℕ → ℕ) (s : ImapBuf) (j : ℕ)
        → j < 4
        → s.mem_r (place (8 * i + 4 * g + j) / 2 ^ 12 % 8) (place (8 * i + 4 * g + j) % 2 ^ 12)
          ≡ pair words (8 * i + 4 * g + j)
        → (buf_edge u s).mem_r (bank j) ((buf_edge u s).addr_r (bank j))
          ≡ pair words (8 * i + 4 * g + j)
    unfolding buf_edge bank
    dout-pair words s j l held =
        let on : sram_cs u (bank j) ≡ true = sram_cs-four (bank j) ∙ chosen_or bank j l in
        rw (on, sram_addr-bank j l, quiet, ← place-spot j l) held

    imap_rdata-buf_edge :
        (words : ℕ → ℕ) (s : ImapBuf)
        → ((j : ℕ)
            → j < 4
            → s.mem_r (place (8 * i + 4 * g + j) / 2 ^ 12 % 8) (place (8 * i + 4 * g + j) % 2 ^ 12)
              ≡ pair words (8 * i + 4 * g + j))
        → imap_rdata (buf_edge u s)
          ≡ pair words (8 * i + 4 * g)
            ∷ pair words (8 * i + 4 * g + 1)
            ∷ pair words (8 * i + 4 * g + 2)
            ∷ pair words (8 * i + 4 * g + 3)
            ∷ []
    unfolding imap_rdata buf_edge
    imap_rdata-buf_edge words s held =
        let end : ImapBuf = buf_edge u s in
        let given : (j : ℕ)
            → j < 4
            → end.mem_r (bank j) (end.addr_r (bank j)) ≡ pair words (8 * i + 4 * g + j) =
          λ j l. dout-pair words s j l (held j l) in
        gather-four end.sram_cs_d (λ m. end.mem_r m (end.addr_r m)) (bank 0) (bank 1) (bank 2)
          (bank 3) (bank-lt 0 1 (omega arith) (omega arith))
          (bank-lt 1 2 (omega arith) (omega arith)) (bank-lt 2 3 (omega arith) (omega arith))
          (bank-inside 3 (omega arith)) sram_cs-four
        ∙ ap₂ ◌∷◌ (given 0 (omega arith) ∙ ap (pair words) (omega arith)) (
            ap₂ ◌∷◌ (given 1 (omega arith))
              (ap₂ ◌∷◌ (given 2 (omega arith)) (ap₂ ◌∷◌ (given 3 (omega arith)) refl)))

-- The words of the map come, each at any edge, and then the array reads pixel `i` of the group of channels `g`:
-- it gets the four pairs of words of that group that came for the pixel, the first word of a pair in the high half.
pub imap_rdata-path_edges :
    (words : ℕ → ℕ) (us : List PathIn) (s : ImapPath) (r : PathIn) (i g : ℕ)
    → s.biu.receive_cnt ≡ 0
    → Comes words 0 us
    → i < 3136
    → g < 2
    → r.raddr ≡ g * 4096 + i
    → r.ren ≡ true
    → r.biu.rsp_vld ≡ false
    → imap_rdata (path_edge r (path_edges us s)).buf
      ≡ pair words (8 * i + 4 * g)
        ∷ pair words (8 * i + 4 * g + 1)
        ∷ pair words (8 * i + 4 * g + 2)
        ∷ pair words (8 * i + 4 * g + 3)
        ∷ []
unfolding path_edge
imap_rdata-path_edges words us s r i g clear come inside group at reads idle =
    let loaded : ImapPath = path_edges us s in
    let held : Holds words 50176 loaded =
      path_edges-Holds words us 0 s come (start-Holds words s clear) in
    imap_rdata-buf_edge i g inside group (buf_in r loaded) at (imap_wen-idle r.biu loaded.biu idle)
      reads words loaded.buf
      (λ j l. held.stored (8 * i + 4 * g + j) (omega (arith, inside, group, l)))
