-- ===== src/Trap.antt =====
-- hbird-sdk/SoC/hbirdv2/Common/Source/system_hbirdv2.c: the tables of exception and interrupt
-- handlers, registration, and the dispatch of a trap.
pub mod Table
pub mod Dispatch
mod Step
pub mod Register
pub mod Spec
mod Meets
pub mod Refine
mod Examples
use rep_vgg_acc.Base.{
  ℕ, zero, suc, ◌+◌, ◌^◌, ◌/◌, ◌%◌, Bool, true, false, ◌&&◌, List, [], ◌∷◌, ◌++◌, Option, none,
  some, get_elem?, set, replicate, length, minus_one, ltb, leb, ◌==◌, if◌then◌else◌,
}
use rep_vgg_acc.Machine.{Prog, Outcome, done, fault, pure, ◌>>=◌, ◌>>◌}

-- What the code asks of the NMSIS library and of a registered handler, in order.
pub data Event : Type 0 where
  call : ℕ → ℕ → ℕ → Event
  claim : ℕ → Event
  complete : ℕ → Event
  set_priority : ℕ → ℕ → Event
  enable_interrupt : ℕ → Event
  enable_ext_irq enable_sw_irq enable_timer_irq : Event
  plic_init : ℕ → Event

-- The three static arrays (a handler is its address, 0 for NULL) and the calls made.
pub record System : Type 0 where
  pub exceptions : List ℕ
  pub ext_interrupts : List ℕ
  pub core_interrupts : List ℕ
  pub log : List Event

abbrev pub max_system_exception_num : ℕ
max_system_exception_num = 11

abbrev pub plic_intnum : ℕ
plic_intnum = 17

-- The length of SystemCoreInterruptHandlers.
abbrev pub core_intnum : ℕ
core_intnum = 10

abbrev pub irq_m_ext : ℕ
irq_m_ext = 11

abbrev pub sys_timer_sw_irqn : ℕ
sys_timer_sw_irqn = 3

abbrev pub sys_timer_irqn : ℕ
sys_timer_irqn = 7

abbrev pub emit : Event → Prog System (Unit {0})
emit e s = done (tt, record s { log = s.log ++ e ∷ [] })

-- An array element, and an assignment to one; `fault` out of the array.
abbrev pub element : List ℕ → ℕ → Prog System ℕ
element xs i s = elim (get_elem? xs i) [ none ↦ fault | some h ↦ done (h, s) ]

abbrev pub assign : List ℕ → ℕ → ℕ → (List ℕ → System) → Outcome (Unit {0} × System)
assign xs i h put = if ltb i (length xs) then done (tt, put (set xs i h)) else fault

-- `for (i = 0; i < n; i++) table[i] = h;`, with `left` rounds to go.
pub fill : ℕ → ℕ → ℕ → List ℕ → Option (List ℕ)
fill zero i h xs = some xs
fill (suc left) i h xs =
    let rest = fill left (i + 1) h (set xs i h) in if ltb i (length xs) then rest else none

-- The addresses of system_default_exception_handler and system_default_interrupt_handler.
module _ (default_exception default_interrupt : ℕ) where
  pub exception_init : Prog System (Unit {0})
  exception_init s = elim (fill max_system_exception_num 0 default_exception s.exceptions) [
    | none ↦ fault
    | some xs ↦ done (tt, record s { exceptions = xs })
  ]

  fill_ext : Prog System (Unit {0})
  fill_ext s = elim (fill plic_intnum 0 default_interrupt s.ext_interrupts) [
    | none ↦ fault
    | some xs ↦ done (tt, record s { ext_interrupts = xs })
  ]

  fill_core : Prog System (Unit {0})
  fill_core s = elim (fill 10 0 default_interrupt s.core_interrupts) [
    | none ↦ fault
    | some xs ↦ done (tt, record s { core_interrupts = xs })
  ]

  pub interrupt_init : Prog System (Unit {0})
  unfolding fill_ext fill_core
  interrupt_init = do fill_ext; fill_core

  -- The last three calls of `_premain_init`.
  pub premain_tables : Prog System (Unit {0})
  unfolding exception_init interrupt_init
  premain_tables = do exception_init; interrupt_init; emit (plic_init plic_intnum)

-- The tests `>= 0` of unsigned numbers hold and are left out.
pub exception_register_exc : ℕ → ℕ → Prog System (Unit {0})
exception_register_exc excn handler s =
    if ltb excn max_system_exception_num
    then assign s.exceptions excn handler (λ xs. record s { exceptions = xs })
    else done (tt, s)

pub interrupt_register_core_irq : ℕ → ℕ → Prog System (Unit {0})
interrupt_register_core_irq irqn handler s =
    if leb irqn 10
    then assign s.core_interrupts irqn handler (λ xs. record s { core_interrupts = xs })
    else done (tt, s)

pub interrupt_register_ext_irq : ℕ → ℕ → Prog System (Unit {0})
interrupt_register_ext_irq irqn handler s =
    if leb irqn plic_intnum
    then assign s.ext_interrupts irqn handler (λ xs. record s { ext_interrupts = xs })
    else done (tt, s)

pub interrupt_get_core_irq : ℕ → Prog System ℕ
interrupt_get_core_irq irqn s =
    if leb irqn 10 then element s.core_interrupts irqn s else done (0, s)

pub interrupt_get_ext_irq : ℕ → Prog System ℕ
interrupt_get_ext_irq irqn s =
    if leb irqn plic_intnum then element s.ext_interrupts irqn s else done (0, s)

pub exception_get_exc : ℕ → Prog System ℕ
exception_get_exc excn s =
    if ltb excn max_system_exception_num then element s.exceptions excn s else done (0, s)

-- `if (handler != NULL) handler(mcause, sp);`
abbrev pub calls : ℕ → ℕ → ℕ → List Event
calls handler mcause sp = if handler == 0 then [] else call handler mcause sp ∷ []

abbrev pub invoke : ℕ → ℕ → ℕ → Prog System (Unit {0})
invoke handler mcause sp s = done (tt, record s { log = s.log ++ calls handler mcause sp })

-- The handler of an exception code; `default_exception` is the address of
-- system_default_exception_handler.
pub exception_handler_of : ℕ → ℕ → Prog System ℕ
exception_handler_of default_exception excn s =
    if ltb excn max_system_exception_num
    then element s.exceptions excn s
    else done (default_exception, s)

pub core_exception_handler : ℕ → ℕ → ℕ → Prog System ℕ
core_exception_handler default_exception mcause sp = do
  handler ← exception_handler_of default_exception (mcause % 2 ^ 12)
  invoke handler mcause sp
  pure 0

-- The branch of an external interrupt; `claimed` is what PLIC_ClaimInterrupt returns.
pub ext_trap : ℕ → ℕ → ℕ → Prog System (Unit {0})
ext_trap claimed mcause sp s =
    if ltb claimed plic_intnum
    then (do
      handler ← (λ t. element t.ext_interrupts claimed t)
      invoke handler mcause sp
      emit (complete claimed))
        s
    else done (tt, s)

pub core_trap : ℕ → ℕ → Prog System (Unit {0})
core_trap mcause sp = do
  handler ← (λ t. element t.core_interrupts (mcause % 2 ^ 12) t)
  invoke handler mcause sp

pub interrupt_trap : ℕ → ℕ → ℕ → Prog System (Unit {0})
interrupt_trap claimed mcause sp s =
    if mcause % 2 ^ 12 == irq_m_ext
    then (emit (claim claimed) >> ext_trap claimed mcause sp) s
    else core_trap mcause sp s

-- `mcause & MCAUSE_INTERRUPT` is the top bit of the 32-bit word, `mcause & 0xfff` its low 12 bits.
pub core_trap_handler : ℕ → ℕ → ℕ → ℕ → Prog System ℕ
core_trap_handler default_exception claimed mcause sp s =
    if mcause / 2 ^ 31 % 2 == 1
    then (interrupt_trap claimed mcause sp >> pure 0) s
    else core_exception_handler default_exception mcause sp s

-- The switch of Core_Register_IRQ.
abbrev pub core_enables : ℕ → List Event
core_enables irqn =
    if irqn == sys_timer_sw_irqn
    then enable_sw_irq ∷ []
    else if irqn == sys_timer_irqn
    then enable_timer_irq ∷ []
    else []

abbrev pub enable_core : ℕ → Prog System (Unit {0})
enable_core irqn s = done (tt, record s { log = s.log ++ core_enables irqn })

-- `if (handler != NULL)` the registration.
pub install_core : ℕ → ℕ → Prog System (Unit {0})
install_core irqn handler s =
    if handler == 0 then done (tt, s) else interrupt_register_core_irq irqn handler s

pub install_ext : ℕ → ℕ → Prog System (Unit {0})
install_ext source handler s =
    if handler == 0 then done (tt, s) else interrupt_register_ext_irq source handler s

pub core_register_irq : ℕ → ℕ → Prog System ℕ
core_register_irq irqn handler s =
    if ltb 10 irqn
    then done (minus_one, s)
    else (do install_core irqn handler; enable_core irqn; pure 0) s

pub plic_register_irq : ℕ → ℕ → ℕ → Prog System ℕ
plic_register_irq source priority handler s =
    if leb plic_intnum source
    then done (minus_one, s)
    else (do
      emit (set_priority source priority)
      install_ext source handler
      emit (enable_interrupt source)
      emit enable_ext_irq
      pure 0)
        s
