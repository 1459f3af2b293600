-- ===== src/Spi/Fifo.antt =====
-- What `spi_write_fifo` puts into the transmit FIFO.
use mathlib.Core.List.{append-nil, append_assoc}
use rep_vgg_acc.Base.{
  Bool-cases, inl, inr, true, sym, ltb, ltb→lt, lt→ltb, ◌%◌, ℕ, zero, suc, ◌+◌, ◌/◌, ◌^◌, ◌≤◌, ◌<◌,
  ◌≡◌, ◌∙◌, ap, refl, some, none, List, [], ◌∷◌, ◌++◌, length, get_elem?, get_elem?-IsSome, arith,
}
use rep_vgg_acc.Bits.Law.{and_mask}
use rep_vgg_acc.Machine.{Bus, Returns, pure, ◌>>=◌, write, ◌>>◌, spin_until}
use rep_vgg_acc.Machine.Logic.{Returns_mono, Returns->>=}
use rep_vgg_acc.Machine.Poll.{spin_ready, spin_again}
use rep_vgg_acc.Spi.{
  offset, status, txfifo, num_words, has_room, write_word, write_words, spi_write_fifo,
}

-- The device after `n` loads of address `a`.
unfoldable pub loads : {D : Type 0} → Bus D → ℕ → ℕ → D → D
loads bus a zero d = d
loads bus a (suc n) d = loads bus a n (bus.load a d).1

-- A device with a transmit FIFO of 8 words at `p`: `sent` is everything put into it, and `level` how many of these
-- words wait in it, which the top byte of the status shows. Loads of the status put nothing into it, and after at
-- most `limit + 1` of them there is room. A word written while there is room is the next; of a word written to
-- the full FIFO nothing is said.
pub record IsTxFifo {D : Type 0} (bus : Bus D) (p limit : ℕ) (sent : D → List ℕ) (level : D → ℕ)
    : Type 0 where
  pub shown :
      (d : D) → let (s, d') = bus.load (p + offset status) d in s / 2 ^ 24 % 2 ^ 8 ≡ level d'
  pub quiet : (d : D) → sent (bus.load (p + offset status) d).1 ≡ sent d
  pub empties :
      (d : D) → (n : ℕ) × (n ≤ limit) × (level (loads bus (p + offset status) (suc n) d) < 8)
  pub put :
      (v : ℕ) (d : D) → level d < 8 → sent (bus.store (p + offset txfifo) v d) ≡ sent d ++ v ∷ []

-- The `n` words from index `i` on.
unfoldable pub words_from : ℕ → ℕ → List ℕ → List ℕ
words_from zero i words = []
words_from (suc n) i words = elim (get_elem? words i) [
  | none ↦ []
  | some v ↦ v ∷ words_from n (i + 1) words
]

words_from-suc :
    (n i v : ℕ) (words : List ℕ)
    → get_elem? words i ≡ some v
    → words_from (suc n) i words ≡ v ∷ words_from n (i + 1) words
unfolding words_from
words_from-suc n i v words e = rw (e, words_from) refl

-- For a length of at most 16 bits the number of words is the length in words, rounded up.
pub num_words_lem : (datalen : ℕ) → datalen < 2 ^ 16 → num_words datalen ≡ (datalen + 31) / 32
unfolding num_words
num_words_lem datalen small = ground (arith, and_mask 11 (datalen / 2 ^ 5), and_mask 5 datalen)

module _ {D : Type 0} (bus : Bus D) (p limit : ℕ) (sent : D → List ℕ) (level : D → ℕ)
    (fifo : IsTxFifo bus p limit sent level) where
  room-level :
      (d : D) → let (s, d') = bus.load (p + offset status) d in has_room s ≡ ltb (level d') 8
  unfolding has_room
  room-level d =
      let s : ℕ = (bus.load (p + offset status) d).0 in
      rw (and_mask 8 (s / 2 ^ 24)) (ap (λ x. ltb x 8) (fifo.shown d))

  -- The loop ends at a device that has room, with nothing more put in.
  spin_until-room :
      (n fuel : ℕ) (d : D)
      → n < fuel
      → level (loads bus (p + offset status) (suc n) d) < 8
      → Returns
          (spin_until bus (p + offset status) has_room fuel d)
          λ s d'. (level d' < 8) × (sent d' ≡ sent d)
  unfolding loads
  spin_until-room n zero d h room = absurd (omega arith)
  spin_until-room zero (suc fuel) d h room =
      let free : has_room (bus.load (p + offset status) d).0 ≡ true =
        room-level d ∙ lt→ltb _ 8 room in
      rw (spin_ready bus (p + offset status) has_room fuel d free) (room, fifo.quiet d)
  spin_until-room (suc n) (suc fuel) d h room =
      let d' : D = (bus.load (p + offset status) d).1 in
      elim (Bool-cases (has_room (bus.load (p + offset status) d).0)) [
        | inl free ↦
            rw (spin_ready bus (p + offset status) has_room fuel d free)
              (ltb→lt (level d') 8 (sym (room-level d) ∙ free), fifo.quiet d)
        | inr full ↦ rw (spin_again bus (p + offset status) has_room fuel d full) (
            Returns_mono _ _ (spin_until bus (p + offset status) has_room fuel d')
              (spin_until-room n fuel d' (omega arith) room) λ s t w. (w.0, w.1 ∙ fifo.quiet d))
      ]

module _ {D : Type 0} (bus : Bus D) (p limit : ℕ) (sent : D → List ℕ) (level : D → ℕ)
    (fifo : IsTxFifo bus p limit sent level) (fuel : ℕ) (enough : limit < fuel) where
  write_word-sent :
      (v : ℕ) (d : D)
      → Returns (write_word bus (some p) fuel p v d) λ r d'. sent d' ≡ sent d ++ v ∷ []
  unfolding write_word
  write_word-sent v d =
      let (n, few, room) = fifo.empties d in
      Returns->>= _ _ (spin_until bus (p + offset status) has_room fuel)
        (λ s. write bus (p + offset txfifo) v >> pure 0) d
        (spin_until-room bus p limit sent level fifo n fuel d (omega arith) room)
        λ s t w. fifo.put v t w.0 ∙ ap (λ xs. xs ++ v ∷ []) w.1

  write_words-suc :
      (n i v : ℕ) (words : List ℕ) (d : D)
      → get_elem? words i ≡ some v
      → write_words bus (some p) fuel p (suc n) i words d
        ≡ (write_word bus (some p) fuel p v >>= λ _.
              write_words bus (some p) fuel p n (i + 1) words)
            d
  unfolding write_words
  write_words-suc n i v words d e = rw (e, write_words) refl

  write_words-sent :
      (n i : ℕ) (words : List ℕ) (d : D)
      → i + n ≤ length words
      → Returns
          (write_words bus (some p) fuel p n i words d)
          λ r d'. (r ≡ 0) × (sent d' ≡ sent d ++ words_from n i words)
  unfolding write_words words_from
  write_words-sent zero i words d fits = (refl, rw append-nil refl)
  write_words-sent (suc n) i words d fits =
      let (v, e) = get_elem?-IsSome words i (omega arith) in
      rw (write_words-suc n i v words d e, words_from-suc n i v words e)
        (Returns->>= _ _ (write_word bus (some p) fuel p v) _ d (write_word-sent v d) λ r t w.
          Returns_mono _ _ (write_words bus (some p) fuel p n (i + 1) words t)
            (write_words-sent n (i + 1) words t (omega arith))
            λ s d' z. (
              z.0,
              z.1
                  ∙ ap (λ xs. xs ++ words_from n (i + 1) words) w
                  ∙ append_assoc (sent d) (v ∷ []) (words_from n (i + 1) words),
            ))

  -- `spi_write_fifo` for a length below 2 ^ 16, with as many words in the array as the length rounded up needs and
  -- enough fuel for each wait: it returns 0, and that many words of the array follow what was put into the FIFO
  -- before, in order.
  pub spi_write_fifo-sent :
      (words : List ℕ) (datalen : ℕ) (d : D)
      → datalen < 2 ^ 16
      → (datalen + 31) / 32 ≤ length words
      → Returns
          (spi_write_fifo bus (some p) fuel words datalen d)
          λ r d'. (r ≡ 0) × (sent d' ≡ sent d ++ words_from ((datalen + 31) / 32) 0 words)
  unfolding spi_write_fifo
  spi_write_fifo-sent words datalen d small fits =
      rw (num_words_lem datalen small)
        (write_words-sent ((datalen + 31) / 32) 0 words d (omega arith))
