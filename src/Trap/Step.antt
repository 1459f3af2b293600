-- ===== src/Trap/Step.antt =====
-- What each part of registration and dispatch does to the state.
use rep_vgg_acc.Base.{
  ℕ, ◌%◌, ◌^◌, ◌≤◌, ◌<◌, ◌≡◌, ◌≢◌, refl, some, [], ◌∷◌, ◌++◌, length, get_elem?, set, if◌then◌else◌,
  arith, get_elem?-eq-none, ==_iff, false, ltb, leb, ◌/◌, true, minus_one,
}
use rep_vgg_acc.Machine.Logic.{>>=-done}
use rep_vgg_acc.Machine.{done, fault, pure, ◌>>=◌, ◌>>◌}
use rep_vgg_acc.Trap.{
  System, complete, install_core, install_ext, calls, invoke, enable_core, emit, set_priority,
  enable_interrupt, enable_ext_irq, interrupt_register_core_irq, interrupt_register_ext_irq,
  core_trap, ext_trap, exception_handler_of, core_trap_handler, interrupt_trap, claim, core_enables,
  irq_m_ext, core_exception_handler, core_register_irq, plic_register_irq, plic_intnum, core_intnum,
  max_system_exception_num,
}

pub install_core_lem :
    (irqn handler : ℕ) (s : System)
    → irqn < length s.core_interrupts
    → irqn < core_intnum
    → handler ≢ 0
    → install_core irqn handler s
      ≡ done (tt, record s { core_interrupts = set s.core_interrupts irqn handler })
unfolding install_core interrupt_register_core_irq
install_core_lem irqn handler s p q h = ground arith

pub install_ext_lem :
    (source handler : ℕ) (s : System)
    → source < length s.ext_interrupts
    → source < plic_intnum
    → handler ≢ 0
    → install_ext source handler s
      ≡ done (tt, record s { ext_interrupts = set s.ext_interrupts source handler })
unfolding install_ext interrupt_register_ext_irq
install_ext_lem source handler s p q h = ground arith

pub core_trap_lem :
    (mcause sp handler : ℕ) (s : System)
    → get_elem? s.core_interrupts (mcause % 2 ^ 12) ≡ some handler
    → core_trap mcause sp s ≡ done (tt, record s { log = s.log ++ calls handler mcause sp })
unfolding core_trap
core_trap_lem mcause sp handler s e = ground arith

pub ext_trap_lem :
    (claimed mcause sp handler : ℕ) (s : System)
    → claimed < plic_intnum
    → get_elem? s.ext_interrupts claimed ≡ some handler
    → ext_trap claimed mcause sp s
      ≡ done (tt, record s { log = (s.log ++ calls handler mcause sp) ++ complete claimed ∷ [] })
unfolding ext_trap
ext_trap_lem claimed mcause sp handler s p e = ground arith

pub trap_interrupt :
    (default claimed mcause sp : ℕ) (s : System)
    → mcause / 2 ^ 31 % 2 ≡ 1
    → core_trap_handler default claimed mcause sp s ≡ (interrupt_trap claimed mcause sp >> pure 0) s
unfolding core_trap_handler
trap_interrupt default claimed mcause sp s h = rw ((==_iff _ _).1 h) refl

pub trap_exception :
    (default claimed mcause sp : ℕ) (s : System)
    → mcause / 2 ^ 31 % 2 ≡ 0
    → core_trap_handler default claimed mcause sp s ≡ core_exception_handler default mcause sp s
unfolding core_trap_handler
trap_exception default claimed mcause sp s h = rw h refl

pub interrupt_trap_ext :
    (claimed mcause sp : ℕ) (s : System)
    → mcause % 2 ^ 12 ≡ irq_m_ext
    → interrupt_trap claimed mcause sp s
      ≡ ext_trap claimed mcause sp (record s { log = s.log ++ claim claimed ∷ [] })
unfolding interrupt_trap
interrupt_trap_ext claimed mcause sp s h = rw h refl

pub interrupt_trap_core :
    (claimed mcause sp : ℕ) (s : System)
    → mcause % 2 ^ 12 ≢ irq_m_ext
    → interrupt_trap claimed mcause sp s ≡ core_trap mcause sp s
unfolding interrupt_trap
interrupt_trap_core claimed mcause sp s h = ground arith

pub core_register_irq_lem :
    (irqn handler : ℕ) (s : System)
    → irqn < length s.core_interrupts
    → irqn < core_intnum
    → handler ≢ 0
    → core_register_irq irqn handler s
      ≡ done (
        0,
        record s {
          core_interrupts = set s.core_interrupts irqn handler;
          log = s.log ++ core_enables irqn;
        },
      )
unfolding core_register_irq
core_register_irq_lem irqn handler s p q h =
    let small : ltb 10 irqn ≡ false = ground arith in
    rw small (
      >>=-done (install_core irqn handler) (λ _. enable_core irqn >> pure 0) s
        (install_core_lem irqn handler s p q h))

pub plic_register_irq_lem :
    (source priority handler : ℕ) (s : System)
    → source < length s.ext_interrupts
    → source < plic_intnum
    → handler ≢ 0
    → plic_register_irq source priority handler s
      ≡ done (
        0,
        record s {
          ext_interrupts = set s.ext_interrupts source handler;
          log =
              ((s.log ++ set_priority source priority ∷ []) ++ enable_interrupt source ∷ [])
              ++ enable_ext_irq ∷ [];
        },
      )
unfolding plic_register_irq
plic_register_irq_lem source priority handler s p q h =
    let small : leb plic_intnum source ≡ false = ground arith in
    let s' : System = record s { log = s.log ++ set_priority source priority ∷ [] } in
    rw small (
      >>=-done (install_ext source handler)
        (λ _. emit (enable_interrupt source) >> (emit enable_ext_irq >> pure 0)) s'
        (install_ext_lem source handler s' p q h))

pub core_trap-fault :
    (mcause sp : ℕ) (s : System)
    → length s.core_interrupts ≤ mcause % 2 ^ 12
    → core_trap mcause sp s ≡ fault
unfolding core_trap
core_trap-fault mcause sp s h =
    rw (get_elem?-eq-none s.core_interrupts (mcause % 2 ^ 12) h, ◌>>=◌) refl

pub ext_trap_spurious :
    (claimed mcause sp : ℕ) (s : System)
    → plic_intnum ≤ claimed
    → ext_trap claimed mcause sp s ≡ done (tt, s)
unfolding ext_trap
ext_trap_spurious claimed mcause sp s h =
    let large : ltb claimed plic_intnum ≡ false = ground arith in rw large refl

-- The handler that an exception goes to.
abbrev pub HandledBy : ℕ → ℕ → System → ℕ → Type 0
HandledBy default excn s handler =
    (if ltb excn max_system_exception_num then get_elem? s.exceptions excn else some default)
    ≡ some handler

pub core_exception_handler_lem :
    (default mcause sp handler : ℕ) (s : System)
    → HandledBy default (mcause % 2 ^ 12) s handler
    → core_exception_handler default mcause sp s
      ≡ done (0, record s { log = s.log ++ calls handler mcause sp })
unfolding core_exception_handler
core_exception_handler_lem default mcause sp handler s h =
    >>=-done (exception_handler_of default (mcause % 2 ^ 12)) (λ h. invoke h mcause sp >> pure 0) s
      found
  where
    found : exception_handler_of default (mcause % 2 ^ 12) s ≡ done (handler, s)
    found = unfold exception_handler_of in ground arith

pub core_register_irq_null :
    (irqn : ℕ) (s : System)
    → irqn ≤ core_intnum
    → core_register_irq irqn 0 s ≡ done (0, record s { log = s.log ++ core_enables irqn })
unfolding core_register_irq install_core
core_register_irq_null irqn s h = let small : ltb 10 irqn ≡ false = ground arith in rw small refl

pub core_register_irq_high :
    (irqn handler : ℕ) (s : System)
    → core_intnum < irqn
    → core_register_irq irqn handler s ≡ done (minus_one, s)
unfolding core_register_irq
core_register_irq_high irqn handler s h =
    let large : ltb 10 irqn ≡ true = ground arith in rw large refl

plic_register_irq_zero :
    (source priority : ℕ) (s : System)
    → source < plic_intnum
    → plic_register_irq source priority 0 s
      ≡ done (
        0,
        record s {
          log =
              ((s.log ++ set_priority source priority ∷ []) ++ enable_interrupt source ∷ [])
              ++ enable_ext_irq ∷ [];
        },
      )
unfolding plic_register_irq install_ext
plic_register_irq_zero source priority s h =
    let small : leb plic_intnum source ≡ false = ground arith in rw small refl

pub plic_register_irq_null :
    (source priority handler : ℕ) (s : System)
    → source < plic_intnum
    → handler ≡ 0
    → plic_register_irq source priority handler s
      ≡ done (
        0,
        record s {
          log =
              ((s.log ++ set_priority source priority ∷ []) ++ enable_interrupt source ∷ [])
              ++ enable_ext_irq ∷ [];
        },
      )
plic_register_irq_null source priority handler s h null =
    rw null (plic_register_irq_zero source priority s h)

pub plic_register_irq_high :
    (source priority handler : ℕ) (s : System)
    → plic_intnum ≤ source
    → plic_register_irq source priority handler s ≡ done (minus_one, s)
unfolding plic_register_irq
plic_register_irq_high source priority handler s h =
    let large : leb plic_intnum source ≡ true = ground arith in rw large refl
