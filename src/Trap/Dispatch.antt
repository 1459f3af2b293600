-- ===== src/Trap/Dispatch.antt =====
-- The dispatch of a trap to the handler that was registered for it.
use rep_vgg_acc.Base.{
  ℕ, inl, inr, Bool-cases, false, ◌+◌, ◌/◌, ◌%◌, ◌^◌, ◌≤◌, ◌<◌, ◌≡◌, ◌≢◌, ◌⊎◌, ◌↔◌, ◌∙◌, refl, some,
  [], ◌∷◌, ◌++◌, get_elem?, set, ◌==◌, if◌then◌else◌, ltb, get_elem?-set_self, get_elem?-IsSome,
  arith,
}
use mathlib.Core.List.{append_assoc}
use rep_vgg_acc.Machine.{Returns, done, fault, pure, ◌>>=◌}
use rep_vgg_acc.Machine.Logic.{>>=-done, >>=-fault}
use rep_vgg_acc.Trap.{
  System, call, calls, claim, complete, set_priority, enable_interrupt, enable_ext_irq,
  core_enables, enable_sw_irq, enable_timer_irq, core_register_irq, plic_register_irq,
  core_trap_handler, interrupt_trap, irq_m_ext, max_system_exception_num, plic_intnum, core_intnum,
}
use rep_vgg_acc.Trap.Step.{
  core_trap_lem, ext_trap_lem, trap_interrupt, trap_exception, interrupt_trap_ext,
  interrupt_trap_core, HandledBy, core_exception_handler_lem, ext_trap_spurious, core_trap-fault,
  core_register_irq_lem, plic_register_irq_lem,
}
use rep_vgg_acc.Trap.Table.{IsSized}

pub core_dispatch :
    (default claimed mcause sp handler : ℕ) (s : System)
    → mcause / 2 ^ 31 % 2 ≡ 1
    → mcause % 2 ^ 12 ≢ irq_m_ext
    → get_elem? s.core_interrupts (mcause % 2 ^ 12) ≡ some handler
    → core_trap_handler default claimed mcause sp s
      ≡ done (0, record s { log = s.log ++ calls handler mcause sp })
core_dispatch default claimed mcause sp handler s top ne e =
    trap_interrupt default claimed mcause sp s top
    ∙ >>=-done (interrupt_trap claimed mcause sp) (λ _. pure 0) s
        (interrupt_trap_core claimed mcause sp s ne ∙ core_trap_lem mcause sp handler s e)

pub ext_dispatch :
    (default claimed mcause sp handler : ℕ) (s : System)
    → mcause / 2 ^ 31 % 2 ≡ 1
    → mcause % 2 ^ 12 ≡ irq_m_ext
    → claimed < plic_intnum
    → get_elem? s.ext_interrupts claimed ≡ some handler
    → core_trap_handler default claimed mcause sp s
      ≡ done (
        0,
        record s {
          log = ((s.log ++ claim claimed ∷ []) ++ calls handler mcause sp) ++ complete claimed ∷ [];
        },
      )
ext_dispatch default claimed mcause sp handler s top ext small e =
    trap_interrupt default claimed mcause sp s top
    ∙ >>=-done (interrupt_trap claimed mcause sp) (λ _. pure 0) s
        (interrupt_trap_ext claimed mcause sp s ext
          ∙ ext_trap_lem claimed mcause sp handler (record s { log = s.log ++ claim claimed ∷ [] })
              small e)

-- A handler registered by `Core_Register_IRQ` for a core interrupt below 10 is what the next trap
-- with that number calls, with the trap's cause and stack pointer. Before that the software interrupt is
-- enabled when its number, 3, was registered, and the timer interrupt when its number, 7, was, and nothing else
-- is called; of the tables only the entry of the number is changed.
pub core_trap_handler-core_register_irq :
    (default claimed irqn handler sp : ℕ) (s : System)
    → IsSized s
    → irqn < core_intnum
    → handler ≢ 0
    → Returns
        ((core_register_irq irqn handler >>= λ _.
            core_trap_handler default claimed (2 ^ 31 + irqn) sp)
          s)
        λ r s'.
          (r ≡ 0)
          × (s'.log
              ≡ (s.log
                  ++ (if irqn == 3
                      then enable_sw_irq ∷ []
                      else if irqn == 7
                      then enable_timer_irq ∷ []
                      else []))
                ++ call handler (2 ^ 31 + irqn) sp ∷ [])
          × (s'.core_interrupts ≡ set s.core_interrupts irqn handler)
          × (s'.exceptions ≡ s.exceptions)
          × (s'.ext_interrupts ≡ s.ext_interrupts)
core_trap_handler-core_register_irq default claimed irqn handler sp s z p h =
    let s' : System = record s {
      core_interrupts = set s.core_interrupts irqn handler;
      log = s.log ++ core_enables irqn;
    } in
    let number : (2 ^ 31 + irqn) % 2 ^ 12 ≡ irqn = omega arith in
    let given : (handler == 0) ≡ false = ground arith in
    rw
      (
        >>=-done (core_register_irq irqn handler)
            (λ _. core_trap_handler default claimed (2 ^ 31 + irqn) sp) s
            (core_register_irq_lem irqn handler s (omega (arith, z.core_size)) p h),
        core_dispatch default claimed (2 ^ 31 + irqn) sp handler s' (omega arith) (omega arith) (
            rw number
              (get_elem?-set_self s.core_interrupts irqn handler (omega (arith, z.core_size)))),
        given,
      )
      (refl, refl, refl, refl, refl)

-- A handler registered by `PLIC_Register_IRQ` for an interrupt source: the source gets its priority
-- and is enabled, and the next external interrupt that claims it calls the handler between the
-- claim and the completion of that source.
pub core_trap_handler-plic_register_irq :
    (default source priority handler sp : ℕ) (s : System)
    → IsSized s
    → source < plic_intnum
    → handler ≢ 0
    → let mcause : ℕ = 2 ^ 31 + irq_m_ext in
      Returns
        ((plic_register_irq source priority handler >>= λ _.
            core_trap_handler default source mcause sp)
          s)
        λ r s'.
          (r ≡ 0)
          × (s'.log
              ≡ s.log
                ++ (set_priority source priority
                    ∷ enable_interrupt source
                    ∷ enable_ext_irq
                    ∷ claim source
                    ∷ call handler mcause sp
                    ∷ complete source
                    ∷ []))
core_trap_handler-plic_register_irq default source priority handler sp s z p h =
    let mcause : ℕ = 2 ^ 31 + irq_m_ext in
    let s' : System = record s {
      ext_interrupts = set s.ext_interrupts source handler;
      log =
          ((s.log ++ set_priority source priority ∷ []) ++ enable_interrupt source ∷ [])
          ++ enable_ext_irq ∷ [];
    } in
    let given : (handler == 0) ≡ false = ground arith in
    rw
      (
        >>=-done (plic_register_irq source priority handler)
            (λ _. core_trap_handler default source mcause sp) s
            (plic_register_irq_lem source priority handler s (omega (arith, z.ext_size)) p h),
        ext_dispatch default source mcause sp handler s' refl refl p
            (get_elem?-set_self s.ext_interrupts source handler (omega (arith, z.ext_size))),
        given,
      )
      (refl, simp append_assoc)

pub ext_spurious :
    (default claimed mcause sp : ℕ) (s : System)
    → mcause / 2 ^ 31 % 2 ≡ 1
    → mcause % 2 ^ 12 ≡ irq_m_ext
    → plic_intnum ≤ claimed
    → core_trap_handler default claimed mcause sp s
      ≡ done (0, record s { log = s.log ++ claim claimed ∷ [] })
ext_spurious default claimed mcause sp s top ext large =
    trap_interrupt default claimed mcause sp s top
    ∙ >>=-done (interrupt_trap claimed mcause sp) (λ _. pure 0) s
        (interrupt_trap_ext claimed mcause sp s ext
          ∙ ext_trap_spurious claimed mcause sp (record s { log = s.log ++ claim claimed ∷ [] })
              large)

-- An exception calls the handler in its table, or the default one beyond the table.
pub exception_dispatch :
    (default claimed mcause sp handler : ℕ) (s : System)
    → mcause < 2 ^ 31
    → HandledBy default (mcause % 2 ^ 12) s handler
    → core_trap_handler default claimed mcause sp s
      ≡ done (0, record s { log = s.log ++ calls handler mcause sp })
exception_dispatch default claimed mcause sp handler s low h =
    trap_exception default claimed mcause sp s (omega arith)
    ∙ core_exception_handler_lem default mcause sp handler s h

HandledBy-IsSome :
    (default excn : ℕ) (s : System) → IsSized s → (h : ℕ) × HandledBy default excn s h
HandledBy-IsSome default excn s z = elim (Bool-cases (ltb excn max_system_exception_num)) [
  | inl small ↦
      let (h, e) = get_elem?-IsSome s.exceptions excn (ground (arith, z.exceptions_size)) in
      (h, rw small e)
  | inr large ↦ (default, rw large refl)
]

abbrev IsBad : ℕ → Type 0
IsBad mcause = (2 ^ 31 ≤ mcause) × (core_intnum ≤ mcause % 2 ^ 12) × (mcause % 2 ^ 12 ≢ irq_m_ext)

IsBad-cases : (mcause : ℕ) → IsBad mcause ⊎ (¬ IsBad mcause)
IsBad-cases mcause = elim (Bool-cases (ltb mcause (2 ^ 31))) [
  | inl low ↦ inr (λ bad. ground arith)
  | inr high ↦ elim (Bool-cases (ltb (mcause % 2 ^ 12) core_intnum)) [
    | inl small ↦ inr (λ bad. ground arith)
    | inr large ↦ elim (Bool-cases (mcause % 2 ^ 12 == irq_m_ext)) [
      | inl ext ↦ inr (λ bad. ground arith)
      | inr other ↦ inl (ground arith, ground arith, ground arith)
    ]
  ]
]

bad_faults :
    (default claimed mcause sp : ℕ) (s : System)
    → IsSized s
    → mcause < 2 ^ 32
    → IsBad mcause
    → core_trap_handler default claimed mcause sp s ≡ fault
bad_faults default claimed mcause sp s z w (top, large, ne) =
    trap_interrupt default claimed mcause sp s (omega arith)
    ∙ >>=-fault (interrupt_trap claimed mcause sp) (λ _. pure 0) s
        (interrupt_trap_core claimed mcause sp s ne
          ∙ core_trap-fault mcause sp s (omega (arith, z.core_size)))

others_return :
    (default claimed mcause sp : ℕ) (s : System)
    → IsSized s
    → mcause < 2 ^ 32
    → ¬ IsBad mcause
    → (r : ℕ × System) × (core_trap_handler default claimed mcause sp s ≡ done r)
others_return default claimed mcause sp s z w good = elim (Bool-cases (ltb mcause (2 ^ 31))) [
  | inl low ↦
      let (h, e) = HandledBy-IsSome default (mcause % 2 ^ 12) s z in
      (_, exception_dispatch default claimed mcause sp h s (ground arith) e)
  | inr high ↦ elim (Bool-cases (mcause % 2 ^ 12 == irq_m_ext)) [
    | inl ext ↦ elim (Bool-cases (ltb claimed plic_intnum)) [
      | inl small ↦
          let (h, e) = get_elem?-IsSome s.ext_interrupts claimed (ground (arith, z.ext_size)) in
          (
            _,
            ext_dispatch default claimed mcause sp h s (ground arith) (ground arith) (ground arith)
                e,
          )
      | inr large ↦
          (_, ext_spurious default claimed mcause sp s (ground arith) (ground arith) (ground arith))
    ]
    | inr core ↦ elim (Bool-cases (ltb (mcause % 2 ^ 12) core_intnum)) [
      | inl small ↦
          let (h, e) =
            get_elem?-IsSome s.core_interrupts (mcause % 2 ^ 12) (ground (arith, z.core_size)) in
          (_, core_dispatch default claimed mcause sp h s (ground arith) (ground arith) e)
      | inr large ↦ absurd (good (ground arith, ground arith, ground arith))
    ]
  ]
]

-- Which traps read out of a table: the interrupts other than the external one whose number is 10 or
-- more, whatever has been registered and claimed, and no other trap.
pub core_trap_handler-eq-fault :
    (default claimed mcause sp : ℕ) (s : System)
    → IsSized s
    → mcause < 2 ^ 32
    → (core_trap_handler default claimed mcause sp s ≡ fault)
      ↔ ((2 ^ 31 ≤ mcause) × (core_intnum ≤ mcause % 2 ^ 12) × (mcause % 2 ^ 12 ≢ irq_m_ext))
core_trap_handler-eq-fault default claimed mcause sp s z w = (
  λ e. elim (IsBad-cases mcause) [
    | inl bad ↦ bad
    | inr good ↦ cc (others_return default claimed mcause sp s z w good).1
  ],
  bad_faults default claimed mcause sp s z w,
)
