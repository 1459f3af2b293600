-- ===== src/Uart/Transmit.antt =====
-- `uart_write` against the transmit side of the device.
use rep_vgg_acc.Base.{
  ℕ, zero, suc, ◌+◌, ◌*◌, ◌<◌, true, ◌≡◌, refl, some, List, [], ◌∷◌, ◌++◌, inl, inr, Bool-cases, u8,
  arith, ap, ◌∙◌,
}
use mathlib.Core.List.{append-nil}
use rep_vgg_acc.Machine.Poll.{spin_ready, spin_again}
use rep_vgg_acc.Machine.Logic.{Returns_mono, Returns->>=}
use rep_vgg_acc.Machine.{Returns, spin_until}
use rep_vgg_acc.Uart.{uart_write, thr_empty}
use rep_vgg_acc.Uart.Status.{iterate, line_status_lem, reg_read-lsr}
use rep_vgg_acc.Uart.Device.{UartDev, uart_bus, reg_write, reg_read, is_empty, push}

-- Everything that has been or will be sent, in order.
abbrev pub stream : UartDev → List ℕ
stream d = d.sent ++ d.tx

-- What the transmitter does between two accesses: it moves bytes from the FIFO to the line in
-- order, and whatever the state, `limit + 1` accesses see it empty the FIFO.
pub record IsTransmitter (env : UartDev → UartDev) (limit : ℕ) : Type 0 where
  pub in_order : (d : UartDev) → stream (env d) ≡ stream d
  pub lcr_kept : (d : UartDev) → (env d).lcr_reg ≡ d.lcr_reg
  pub stays_empty : (d : UartDev) → d.tx ≡ [] → (env d).tx ≡ []
  pub empties : (d : UartDev) → (iterate (suc limit) env d).tx ≡ []

is_empty-nil : (xs : List ℕ) → is_empty xs ≡ true → xs ≡ []
unfolding is_empty
is_empty-nil [] h = refl
is_empty-nil (x ∷ xs) h = cc

nil-is_empty : is_empty [] ≡ true
unfolding is_empty
nil-is_empty = refl

reg_write-thr :
    (q v : ℕ) (d : UartDev)
    → d.lcr_reg < 128
    → reg_write (32 * q + 0) v d ≡ record d { tx = push d.tx (u8 v) }
unfolding reg_write
reg_write-thr q v d h = ground arith

-- A byte written to an empty FIFO is the next to be sent.
stream-thr :
    (q v : ℕ) (d : UartDev)
    → d.lcr_reg < 128
    → d.tx ≡ []
    → (stream (reg_write (32 * q + 0) v d) ≡ stream d ++ u8 v ∷ [])
      × ((reg_write (32 * q + 0) v d).lcr_reg ≡ d.lcr_reg)
unfolding push
stream-thr q v d h e = rw (reg_write-thr q v d h) (rw (e, append-nil) refl, refl)

module _ (env : UartDev → UartDev) (limit : ℕ) (line : IsTransmitter env limit) (q : ℕ) where
  lsr_test : (d : UartDev) → thr_empty (reg_read (32 * q + 20) (env d)).0 ≡ is_empty (env d).tx
  lsr_test d = rw (reg_read-lsr q (env d)) (line_status_lem (env d)).0

  now :
      (fuel : ℕ) (d : UartDev)
      → (env d).tx ≡ []
      → Returns
          (spin_until (uart_bus env) (32 * q + 20) thr_empty (suc fuel) d)
          λ v d'. (d'.tx ≡ []) × (stream d' ≡ stream d) × (d'.lcr_reg ≡ d.lcr_reg)
  now fuel d e =
      rw
        (
          spin_ready (uart_bus env) (32 * q + 20) thr_empty fuel d
              (lsr_test d ∙ ap is_empty e ∙ nil-is_empty),
          reg_read-lsr q (env d),
        )
        (e, line.in_order d, line.lcr_kept d)

  -- The wait ends with an empty FIFO, and nothing lost.
  spin-empty :
      (n fuel : ℕ) (d : UartDev)
      → (iterate (suc n) env d).tx ≡ []
      → n < fuel
      → Returns
          (spin_until (uart_bus env) (32 * q + 20) thr_empty fuel d)
          λ v d'. (d'.tx ≡ []) × (stream d' ≡ stream d) × (d'.lcr_reg ≡ d.lcr_reg)
  spin-empty n zero d e h = absurd (omega arith)
  spin-empty zero (suc fuel) d e h = now fuel d e
  spin-empty (suc n) (suc fuel) d e h = elim (Bool-cases (is_empty (env d).tx)) [
    | inl empty ↦ now fuel d (is_empty-nil _ empty)
    | inr busy ↦
        rw
          (
            spin_again (uart_bus env) (32 * q + 20) thr_empty fuel d (lsr_test d ∙ busy),
            reg_read-lsr q (env d),
          )
          (Returns_mono _ _ (spin_until (uart_bus env) (32 * q + 20) thr_empty fuel (env d))
            (spin-empty n fuel (env d) e (omega arith))
            λ v d' p. (p.0, p.1 ∙ line.in_order d, p.2 ∙ line.lcr_kept d))
  ]

  -- `uart_write` with the divisor latch bit clear, and enough fuel for the transmitter: it returns 0,
  -- and the byte follows everything that was sent or queued before.
  pub uart_write-stream :
      (fuel val : ℕ) (d : UartDev)
      → limit < fuel
      → d.lcr_reg < 128
      → Returns
          (uart_write (uart_bus env) (some (32 * q)) fuel val d)
          λ r d'. (r ≡ 0) × (stream d' ≡ stream d ++ u8 val ∷ []) × (d'.lcr_reg ≡ d.lcr_reg)
  unfolding uart_write
  uart_write-stream fuel val d enough off =
      Returns->>= _ _ (spin_until (uart_bus env) (32 * q + 20) thr_empty fuel) _ d
        (spin-empty limit fuel d (line.empties d) enough)
        λ status d' p.
          let queued =
            stream-thr q val (env d') (omega (arith, line.lcr_kept d', p.2))
              (line.stays_empty d' p.0) in
          (
            refl,
            queued.0 ∙ ap (λ s. s ++ u8 val ∷ []) (line.in_order d' ∙ p.1),
            queued.1 ∙ line.lcr_kept d' ∙ p.2,
          )
