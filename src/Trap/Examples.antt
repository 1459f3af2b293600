-- ===== src/Trap/Examples.antt =====
-- The properties of the handler tables after `_premain_init`, with handlers at made-up addresses.
use rep_vgg_acc.Base.{
  ◌+◌, ◌%◌, ◌^◌, ◌≤◌, ◌≡◌, ◌≢◌, ◌↔◌, refl, [], ◌∷◌, ◌++◌, replicate, length-replicate,
  get_elem?-replicate, List, set, ◌==◌, if◌then◌else◌, inl, inr, arith, ℕ,
}
use rep_vgg_acc.Machine.{Returns, fault, ◌>>=◌}
use rep_vgg_acc.Trap.{
  System, call, claim, complete, set_priority, enable_interrupt, enable_ext_irq, enable_sw_irq,
  enable_timer_irq, core_register_irq, plic_register_irq, core_trap_handler, irq_m_ext, core_intnum,
}
use rep_vgg_acc.Trap.Table.{IsSized}
use rep_vgg_acc.Trap.Dispatch.{
  core_trap_handler-core_register_irq, core_trap_handler-plic_register_irq,
  core_trap_handler-eq-fault,
}
use rep_vgg_acc.Trap.Register.{core_register_irq-eq-fault}
use rep_vgg_acc.Trap.Spec.{Handlers, Op, core_irq, get_core, trap, Table, Refines, run, spec_run}
use rep_vgg_acc.Trap.Refine.{run-Refines}

abbrev system : System
system = record {
  exceptions = replicate 11 0x100;
  ext_interrupts = replicate 17 0x200;
  core_interrupts = replicate 10 0x200;
  log = [];
}

system-IsSized : IsSized system
system-IsSized = record { exceptions_size = refl; ext_size = refl; core_size = refl }

core_trap_handler-core_register_irq_example :
    Returns
      ((core_register_irq 7 0x300 >>= λ _. core_trap_handler 0x100 0 (2 ^ 31 + 7) 0x9000) system)
      λ r s'.
        (r ≡ 0)
        × (s'.log
            ≡ (system.log
                ++ (if 7 == 3
                    then enable_sw_irq ∷ []
                    else if 7 == 7
                    then enable_timer_irq ∷ []
                    else []))
              ++ call 0x300 (2 ^ 31 + 7) 0x9000 ∷ [])
        × (s'.core_interrupts ≡ set system.core_interrupts 7 0x300)
        × (s'.exceptions ≡ system.exceptions)
        × (s'.ext_interrupts ≡ system.ext_interrupts)
core_trap_handler-core_register_irq_example =
    core_trap_handler-core_register_irq 0x100 0 7 0x300 0x9000 system system-IsSized (omega arith)
      (omega arith)

core_trap_handler-plic_register_irq_example :
    let mcause : ℕ = 2 ^ 31 + irq_m_ext in
    Returns
      ((plic_register_irq 3 1 0x300 >>= λ _. core_trap_handler 0x100 3 mcause 0x9000) system)
      λ r s'.
        (r ≡ 0)
        × (s'.log
            ≡ system.log
              ++ (set_priority 3 1
                  ∷ enable_interrupt 3
                  ∷ enable_ext_irq
                  ∷ claim 3
                  ∷ call 0x300 mcause 0x9000
                  ∷ complete 3
                  ∷ []))
core_trap_handler-plic_register_irq_example =
    core_trap_handler-plic_register_irq 0x100 3 1 0x300 0x9000 system system-IsSized (omega arith)
      (omega arith)

-- The number one past the end of the table.
abbrev top_irq : ℕ
top_irq = 10

abbrev new_handler : ℕ
new_handler = 0x300

core_register_irq-eq-fault_example :
    (core_register_irq top_irq new_handler system ≡ fault) ↔ ((top_irq ≡ 10) × (new_handler ≢ 0))
core_register_irq-eq-fault_example =
    core_register_irq-eq-fault top_irq new_handler system system-IsSized

-- The cause of an interrupt with number 12.
abbrev stray_mcause : ℕ
stray_mcause = 2 ^ 31 + 12

core_trap_handler-eq-fault_example :
    (core_trap_handler 0x100 0 stray_mcause 0x9000 system ≡ fault) ↔ (
      (2 ^ 31 ≤ stray_mcause)
      × (core_intnum ≤ stray_mcause % 2 ^ 12)
      × (stray_mcause % 2 ^ 12 ≢ irq_m_ext))
core_trap_handler-eq-fault_example =
    core_trap_handler-eq-fault 0x100 0 stray_mcause 0x9000 system system-IsSized (omega arith)

-- A timer handler is registered, looked up and called by the timer interrupt.
abbrev operations : List Op
operations = core_irq 7 0x300 ∷ get_core 7 ∷ trap 0 (2 ^ 31 + 7) 0x9000 ∷ []

-- The default handlers everywhere.
abbrev handlers : Handlers
handlers = record { exception = λ n. 0x100; ext = λ n. 0x200; core = λ n. 0x200; log = [] }

held : (n h : ℕ) → Table n (replicate n h) (λ i. h)
held n h = (length-replicate n h, λ i lt. get_elem?-replicate n h i lt)

run-Refines_example : Returns (run 0x100 operations system) λ rs t.
    (rs ≡ (spec_run 0x100 operations handlers).0) × Refines t (spec_run 0x100 operations handlers).1
run-Refines_example =
    run-Refines 0x100 operations system handlers
      (inl (omega arith), (omega arith, ((omega arith, inr (inr (omega arith))), tt)))
      (held 11 0x100, held 17 0x200, held 10 0x200, refl)
