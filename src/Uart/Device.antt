-- ===== src/Uart/Device.antt =====
-- The register block of rtl/e203/perips/apb_uart/apb_uart.v, with the two FIFOs of
-- io_generic_fifo.v. The line side (`uart_tx`, `uart_rx`, the interrupt block) is the environment:
-- it acts between two accesses.
use rep_vgg_acc.Base.{
  ℕ, ◌+◌, ◌/◌, ◌%◌, Bool, true, false, ◌&&◌, List, [], ◌∷◌, ◌++◌, length, u8, ltb, ◌==◌,
  if◌then◌else◌,
}
use rep_vgg_acc.Machine.{Bus}

-- An element of `rx` is a byte, plus 256 when its parity was wrong. `tx_ready` and `iir_o` are
-- driven by the line side. `sent` is what has left the transmit FIFO.
pub record UartDev : Type 0 where
  pub dll_reg : ℕ
  pub dlm_reg : ℕ
  pub ier_reg : ℕ
  pub lcr_reg : ℕ
  pub trigger_level : ℕ
  pub tx : List ℕ
  pub rx : List ℕ
  pub tx_ready : Bool
  pub iir_o : ℕ
  pub sent : List ℕ

abbrev pub fifo_depth : ℕ
fifo_depth = 16

-- `regs_q[(LCR * 8) + 7]`, the divisor latch access bit.
abbrev pub dlab : UartDev → Bool
dlab d = ltb 127 d.lcr_reg

-- A push into a full FIFO is dropped.
unfoldable pub push : List ℕ → ℕ → List ℕ
push q b = if ltb (length q) fifo_depth then q ++ b ∷ [] else q

abbrev pub flag : Bool → ℕ → ℕ
flag b v = if b then v else 0

unfoldable pub is_empty : List ℕ → Bool
is_empty [] = true
is_empty (x ∷ xs) = false

unfoldable pub head_or : List ℕ → ℕ → ℕ
head_or [] v = v
head_or (x ∷ xs) v = x

unfoldable pub rest : List ℕ → List ℕ
rest [] = []
rest (x ∷ xs) = xs

-- The status bits of the register update logic; the other bits keep their reset value 0. The status is
-- given at once, where the hardware registers it one cycle later, and the parity bit is 0 while the receive
-- FIFO is empty, where the hardware keeps that of the byte before.
unfoldable pub line_status : UartDev → ℕ
unfolding is_empty head_or
line_status d =
    flag (if is_empty d.rx then false else true) 1
    + flag (ltb 255 (head_or d.rx 0)) 4
    + flag (is_empty d.tx) 32
    + flag (d.tx_ready && is_empty d.tx) 64

-- `register_adr`, bits 4 to 2 of the address.
abbrev pub register_adr : ℕ → ℕ
register_adr a = a / 4 % 8

unfoldable pub reg_write : ℕ → ℕ → UartDev → UartDev
unfolding push
reg_write a v d =
    if register_adr a == 0
    then (if dlab d then record d { dll_reg = u8 v } else record d { tx = push d.tx (u8 v) })
    else if register_adr a == 1
    then (if dlab d then record d { dlm_reg = u8 v } else record d { ier_reg = u8 v })
    else if register_adr a == 3
    then record d { lcr_reg = u8 v }
    else if register_adr a == 2
    then record d {
      rx = if v / 2 % 2 == 1 then [] else d.rx;
      tx = if v / 4 % 2 == 1 then [] else d.tx;
      trigger_level = v / 64 % 4;
    }
    else d

-- Reading the data register takes a byte out of the receive FIFO.
unfoldable pub reg_read : ℕ → UartDev → ℕ × UartDev
unfolding line_status head_or rest
reg_read a d =
    if register_adr a == 0
    then (if dlab d then (d.dll_reg, d) else (u8 (head_or d.rx 0), record d { rx = rest d.rx }))
    else if register_adr a == 5
    then (line_status d, d)
    else if register_adr a == 3
    then (d.lcr_reg, d)
    else if register_adr a == 1
    then (if dlab d then (d.dlm_reg, d) else (d.ier_reg, d))
    else if register_adr a == 2
    then (0xc0 + d.iir_o % 16, d)
    else (0, d)

-- The environment acts before each access.
abbrev pub uart_bus : (UartDev → UartDev) → Bus UartDev
uart_bus env = record { load = λ a d. reg_read a (env d); store = λ a v d. reg_write a v (env d) }
