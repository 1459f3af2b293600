-- ===== src/Trap/Register.antt =====
-- Registration and lookup.
use rep_vgg_acc.Base.{
  ℕ, inl, inr, Bool-cases, ◌≤◌, ◌<◌, ◌≡◌, ◌≢◌, ◌⊎◌, ◌↔◌, refl, some, length, get_elem?, set,
  minus_one, ◌==◌, ltb, ◌++◌, length-set, get_elem?-set_self, get_elem?-set_ne, get_elem?-IsSome,
  arith, if◌then◌else◌,
}
use rep_vgg_acc.Machine.Logic.{>>=-done, >>=-fault}
use rep_vgg_acc.Machine.{Returns, done, fault, pure, ◌>>=◌, ◌>>◌}
use rep_vgg_acc.Trap.{
  System, core_enables, enable_core, install_core, exception_register_exc, exception_get_exc,
  interrupt_register_core_irq, interrupt_get_core_irq, interrupt_register_ext_irq,
  interrupt_get_ext_irq, core_register_irq, max_system_exception_num, plic_intnum, core_intnum,
}
use rep_vgg_acc.Trap.Table.{IsSized}

install_core_done :
    (irqn handler : ℕ) (s : System)
    → length s.core_interrupts ≡ core_intnum
    → irqn ≤ 10
    → (irqn ≢ 10) ⊎ (handler ≡ 0)
    → (t : System) × (install_core irqn handler s ≡ done (tt, t))
unfolding install_core interrupt_register_core_irq
install_core_done irqn handler s z h c = elim (Bool-cases (handler == 0)) [
  | inl e ↦ (s, rw e refl)
  | inr e ↦ (record s { core_interrupts = set s.core_interrupts irqn handler }, ground arith)
]

install_core_top :
    (handler : ℕ) (s : System)
    → length s.core_interrupts ≡ core_intnum
    → handler ≢ 0
    → install_core 10 handler s ≡ fault
unfolding install_core interrupt_register_core_irq
install_core_top handler s z h = ground arith

core_register_irq_done :
    (irqn handler : ℕ) (s : System)
    → length s.core_interrupts ≡ core_intnum
    → (irqn ≢ 10) ⊎ (handler ≡ 0)
    → (r : ℕ × System) × (core_register_irq irqn handler s ≡ done r)
unfolding core_register_irq
core_register_irq_done irqn handler s z h = elim (Bool-cases (ltb 10 irqn)) [
  | inl large ↦ ((minus_one, s), rw large refl)
  | inr small ↦
      let (t, e) = install_core_done irqn handler s z (ground arith) h in
      (
        (0, record t { log = t.log ++ core_enables irqn }),
        rw small (>>=-done (install_core irqn handler) (λ _. enable_core irqn >> pure 0) s e),
      )
]

core_register_irq_top :
    (handler : ℕ) (s : System)
    → length s.core_interrupts ≡ core_intnum
    → handler ≢ 0
    → core_register_irq 10 handler s ≡ fault
unfolding core_register_irq
core_register_irq_top handler s z h =
    >>=-fault (install_core 10 handler) (λ _. enable_core 10 >> pure 0) s
      (install_core_top handler s z h)

-- `Core_Register_IRQ` writes out of its table exactly when a handler is given for interrupt 10.
pub core_register_irq-eq-fault :
    (irqn handler : ℕ) (s : System)
    → IsSized s
    → (core_register_irq irqn handler s ≡ fault) ↔ ((irqn ≡ 10) × (handler ≢ 0))
core_register_irq-eq-fault irqn handler s z = (
  λ e. elim (Bool-cases (irqn == 10)) [
    | inl top ↦ elim (Bool-cases (handler == 0)) [
      | inl null ↦ cc (core_register_irq_done irqn handler s z.core_size (inr (ground arith))).1
      | inr given ↦ (ground arith, ground arith)
    ]
    | inr other ↦ cc (core_register_irq_done irqn handler s z.core_size (inl (ground arith))).1
  ],
  λ (irq, h). rw irq (core_register_irq_top handler s z.core_size h),
)

-- After registering a handler under a number of the table, looking a number up gives that handler
-- at the same number and the handler of before at any other, and the tables keep their sizes.
exception_get_exc-register :
    (excn other handler : ℕ) (s : System)
    → IsSized s
    → excn < max_system_exception_num
    → other < max_system_exception_num
    → Returns ((exception_register_exc excn handler >>= λ _. exception_get_exc other) s) λ r s'.
      IsSized s' × (if other == excn then r ≡ handler else get_elem? s.exceptions other ≡ some r)
unfolding exception_register_exc exception_get_exc
exception_get_exc-register excn other handler s z p q = ground (
  arith,
  get_elem?-set_self s.exceptions excn handler,
  get_elem?-set_ne s.exceptions excn other handler,
  length-set s.exceptions excn handler,
  get_elem?-IsSome s.exceptions other,
)

-- After registering a handler under a number of the table, looking a number up gives that handler
-- at the same number and the handler of before at any other, and the tables keep their sizes.
interrupt_get_core_irq-register :
    (irqn other handler : ℕ) (s : System)
    → IsSized s
    → irqn < core_intnum
    → other < core_intnum
    → Returns
        ((interrupt_register_core_irq irqn handler >>= λ _. interrupt_get_core_irq other) s)
        λ r s'.
          IsSized s'
          × (if other == irqn then r ≡ handler else get_elem? s.core_interrupts other ≡ some r)
unfolding interrupt_register_core_irq interrupt_get_core_irq
interrupt_get_core_irq-register irqn other handler s z p q = ground (
  arith,
  get_elem?-set_self s.core_interrupts irqn handler,
  get_elem?-set_ne s.core_interrupts irqn other handler,
  length-set s.core_interrupts irqn handler,
  get_elem?-IsSome s.core_interrupts other,
)

-- After registering a handler under a number of the table, looking a number up gives that handler
-- at the same number and the handler of before at any other, and the tables keep their sizes.
interrupt_get_ext_irq-register :
    (irqn other handler : ℕ) (s : System)
    → IsSized s
    → irqn < plic_intnum
    → other < plic_intnum
    → Returns
        ((interrupt_register_ext_irq irqn handler >>= λ _. interrupt_get_ext_irq other) s)
        λ r s'.
          IsSized s'
          × (if other == irqn then r ≡ handler else get_elem? s.ext_interrupts other ≡ some r)
unfolding interrupt_register_ext_irq interrupt_get_ext_irq
interrupt_get_ext_irq-register irqn other handler s z p q = ground (
  arith,
  get_elem?-set_self s.ext_interrupts irqn handler,
  get_elem?-set_ne s.ext_interrupts irqn other handler,
  length-set s.ext_interrupts irqn handler,
  get_elem?-IsSome s.ext_interrupts other,
)
