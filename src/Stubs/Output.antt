-- ===== src/Stubs/Output.antt =====
-- What `_write` sends over the UART.
use mathlib.Core.List.{append-nil, append_assoc}
use rep_vgg_acc.Base.{
  ℕ, zero, suc, ◌+◌, ◌*◌, ◌≤◌, ◌<◌, ◌≡◌, ◌∙◌, ap, refl, Bool, true, none, some, List, [], ◌∷◌, ◌++◌,
  length, get_elem?, get_elem?-IsSome, ◌==◌, if◌then◌else◌, inl, inr, Bool-cases, u8, arith,
}
use rep_vgg_acc.Machine.{Returns, ◌>>=◌}
use rep_vgg_acc.Machine.Logic.{Returns_mono, Returns->>=}
use rep_vgg_acc.Uart.{uart_write}
use rep_vgg_acc.Uart.Device.{UartDev, uart_bus}
use rep_vgg_acc.Uart.Transmit.{IsTransmitter, stream, uart_write-stream}
use rep_vgg_acc.Stubs.{put_char, write_loop, stub_write}

-- What is sent for one character: a line feed follows a carriage return.
abbrev pub translated : ℕ → List ℕ
translated c = if c == 10 then 13 ∷ u8 c ∷ [] else u8 c ∷ []

-- The text for `n` characters from index `i` on.
unfoldable pub text : ℕ → ℕ → List ℕ → List ℕ
text zero i buf = []
text (suc n) i buf = elim (get_elem? buf i) [
  | none ↦ []
  | some c ↦ translated c ++ text n (i + 1) buf
]

text-suc :
    (n i c : ℕ) (buf : List ℕ)
    → get_elem? buf i ≡ some c
    → text (suc n) i buf ≡ translated c ++ text n (i + 1) buf
unfolding text
text-suc n i c buf e = rw (e, text) refl

-- From `d` to `d'` exactly `out` was added to what is sent, and the divisor latch stays closed.
abbrev pub Sent : List ℕ → UartDev → UartDev → Type 0
Sent out d d' = (stream d' ≡ stream d ++ out) × (d'.lcr_reg ≡ d.lcr_reg)

Sent-trans : (xs ys : List ℕ) (a b c : UartDev) → Sent xs a b → Sent ys b c → Sent (xs ++ ys) a c
Sent-trans xs ys a b c p q =
    (q.0 ∙ ap (λ s. s ++ ys) p.0 ∙ append_assoc (stream a) xs ys, q.1 ∙ p.1)

module _ (env : UartDev → UartDev) (limit : ℕ) (line : IsTransmitter env limit) (q fuel : ℕ)
    (enough : limit < fuel) where
  put_char-Sent :
      (c : ℕ) (d : UartDev)
      → d.lcr_reg < 128
      → Returns (put_char (uart_bus env) (some (32 * q)) fuel c d) λ r d'. Sent (translated c) d d'
  unfolding put_char
  put_char-Sent c d off = elim (Bool-cases (c == 10)) [
    | inl feed ↦ rw feed (
        Returns->>= _ _ (uart_write (uart_bus env) (some (32 * q)) fuel 13) _ d
          (uart_write-stream env limit line q fuel 13 d enough off)
          λ r t p.
            Returns_mono _ _ (uart_write (uart_bus env) (some (32 * q)) fuel c t)
              (uart_write-stream env limit line q fuel c t enough (omega (arith, p.2)))
              λ s d' w. Sent-trans (13 ∷ []) (u8 c ∷ []) d t d' (p.1, p.2) (w.1, w.2))
    | inr other ↦ rw other (
        Returns_mono _ _ (uart_write (uart_bus env) (some (32 * q)) fuel c d)
          (uart_write-stream env limit line q fuel c d enough off) λ r d' p. (p.1, p.2))
  ]

  write_loop-suc :
      (n i c : ℕ) (buf : List ℕ) (d : UartDev)
      → get_elem? buf i ≡ some c
      → write_loop (uart_bus env) (some (32 * q)) fuel (suc n) i buf d
        ≡ (put_char (uart_bus env) (some (32 * q)) fuel c >>= λ _.
              write_loop (uart_bus env) (some (32 * q)) fuel n (i + 1) buf)
            d
  unfolding write_loop
  write_loop-suc n i c buf d e = rw (e, write_loop) refl

  write_loop-Sent :
      (n i : ℕ) (buf : List ℕ) (d : UartDev)
      → i + n ≤ length buf
      → d.lcr_reg < 128
      → Returns
          (write_loop (uart_bus env) (some (32 * q)) fuel n i buf d)
          λ r d'. Sent (text n i buf) d d'
  unfolding write_loop text
  write_loop-Sent zero i buf d fits off = (rw append-nil refl, refl)
  write_loop-Sent (suc n) i buf d fits off =
      let (c, e) = get_elem?-IsSome buf i (omega arith) in
      rw (write_loop-suc n i c buf d e, text-suc n i c buf e)
        (Returns->>= _ _ (put_char (uart_bus env) (some (32 * q)) fuel c) _ d
          (put_char-Sent c d off)
          λ r t p.
            Returns_mono _ _ (write_loop (uart_bus env) (some (32 * q)) fuel n (i + 1) buf t)
              (write_loop-Sent n (i + 1) buf t (omega arith) (omega (arith, p.1)))
              λ s d' w. Sent-trans (translated c) (text n (i + 1) buf) d t d' p w)

  -- `_write` of at most as many characters as the buffer has, to a terminal, with the divisor latch
  -- closed and enough fuel for the transmitter: it returns the number of characters, and they follow
  -- what was sent or queued before, in order, with a carriage return before each line feed.
  pub stub_write-Sent :
      (isatty : ℕ → Bool) (fd : ℕ) (buf : List ℕ) (len : ℕ) (d : UartDev)
      → isatty fd ≡ true
      → len ≤ length buf
      → d.lcr_reg < 128
      → Returns
          (stub_write (uart_bus env) (some (32 * q)) fuel isatty fd buf len d)
          λ r d'. (r ≡ len) × Sent (text len 0 buf) d d'
  unfolding stub_write
  stub_write-Sent isatty fd buf len d tty fits off = rw tty (
      Returns->>= _ _ (write_loop (uart_bus env) (some (32 * q)) fuel len 0 buf) _ d
        (write_loop-Sent len 0 buf d (omega arith) off) λ r d' p. (refl, p))
