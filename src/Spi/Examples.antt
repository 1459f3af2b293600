-- ===== src/Spi/Examples.antt =====
-- The SPI driver at QSPI0_BASE, with a transmit FIFO that fills.
use rep_vgg_acc.Base.{
  ◌-◌, ◌*◌, ◌^◌, ◌&&◌, Bool, true, false, not, ltb, lt→ltb, ℕ, ◌+◌, ◌/◌, ◌≡◌, refl, some, List, [],
  ◌∷◌, ◌++◌, ◌==◌, if◌then◌else◌, arith,
}
use rep_vgg_acc.Machine.{Bus, Returns}
use rep_vgg_acc.Spi.{offset, txfifo, spi_write_fifo}
use rep_vgg_acc.Spi.Fifo.{IsTxFifo, loads, words_from, spi_write_fifo-sent}

abbrev port : ℕ
port = 0x1001_4000

-- A FIFO that is full at first, with what was put into it and how many words wait; every second load of the
-- status lets one word out.
record Fifo : Type 0 where
  sent : List ℕ
  level : ℕ
  due : Bool

abbrev capped : ℕ → ℕ
capped n = if ltb 8 n then 8 else n

abbrev drained : Fifo → Fifo
drained d = record d {
  level = if d.due then capped d.level - 1 else capped d.level;
  due = not d.due;
}

abbrev fifo : Bus Fifo
fifo = record {
  load = λ a d. ((drained d).level * 2 ^ 24, drained d);
  store = λ a v d.
      if a == port + offset txfifo && ltb d.level 8
      then record d { sent = d.sent ++ v ∷ []; level = d.level + 1 }
      else d;
}

abbrev full : Fifo
full = record { sent = []; level = 8; due = false }

fifo-IsTxFifo : IsTxFifo fifo port 1 (λ d. d.sent) (λ d. d.level)
unfolding loads
fifo-IsTxFifo = record {
  shown = λ d. ground arith;
  quiet = λ d. refl;
  empties = λ d. (1, omega arith, ground arith);
  put = λ v d room. let free : ltb d.level 8 ≡ true = lt→ltb d.level 8 room in rw free refl;
}

abbrev three : List ℕ
three = 0x11 ∷ 0x22 ∷ 0x33 ∷ []

spi_write_fifo-sent_example :
    Returns
      (spi_write_fifo fifo (some port) 2 three 40 full)
      λ r d. (r ≡ 0) × (d.sent ≡ full.sent ++ words_from ((40 + 31) / 32) 0 three)
spi_write_fifo-sent_example =
    spi_write_fifo-sent fifo port 1 (λ d. d.sent) (λ d. d.level) fifo-IsTxFifo 2 (omega arith) three
      40 full (omega arith) (omega arith)
