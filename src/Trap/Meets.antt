-- ===== src/Trap/Meets.antt =====
-- Registration and lookup in the tables do what their specification says.
use rep_vgg_acc.Base.{
  ℕ, zero, suc, ◌<◌, ◌≤◌, ◌≡◌, ◌≢◌, refl, ap, ◌∙◌, inl, inr, List, ◌++◌, set, get_elem?-set_self,
  get_elem?-set_ne, length-set, ltb, Bool-cases, arith,
}
use rep_vgg_acc.Machine.{Returns, done, pure, update}
use rep_vgg_acc.Machine.Logic.{>>=-done}
use rep_vgg_acc.Trap.{
  System, Event, calls, exception_register_exc, exception_get_exc, interrupt_register_core_irq,
  interrupt_get_core_irq, interrupt_register_ext_irq, interrupt_get_ext_irq,
  max_system_exception_num, plic_intnum, core_intnum,
}
use rep_vgg_acc.Trap.Table.{IsSized}
use rep_vgg_acc.Trap.Spec.{
  Handlers, Op, register_exc, register_core, register_ext, get_exc, get_core, get_ext, perform,
  emits, invoked, spec, Table, Refines,
}

Table-set :
    (n : ℕ) (xs : List ℕ) (f : ℕ → ℕ) (i h : ℕ) → Table n xs f → Table n (set xs i h) (update f i h)
Table-set n xs f i h (e, held) = (
  length-set xs i h ∙ e,
  λ j lt. ground (arith, get_elem?-set_self xs i h, get_elem?-set_ne xs i j h, held j lt),
)

pub calls-invoked : (h mcause sp : ℕ) → calls h mcause sp ≡ invoked h mcause sp
unfolding invoked
calls-invoked zero mcause sp = refl
calls-invoked (suc h) mcause sp = ground arith

-- An operation does what its specification says.
abbrev pub Meets : ℕ → Op → System → Handlers → Type 0
Meets default op s a =
    let (r, b) = spec default op a in Returns (perform default op s) λ r' t. (r' ≡ r) × Refines t b

-- By its two equations.
pub meets :
    (default : ℕ) (op : Op) (s : System) (a : Handlers) (r : ℕ) (t : System) (b : Handlers)
    → perform default op s ≡ done (r, t)
    → spec default op a ≡ (r, b)
    → Refines t b
    → Meets default op s a
meets default op s a r t b e d f = rw (e, d) (refl, f)

module _ (s : System) (a : Handlers) (f : Refines s a) where
  sized : IsSized s
  sized = record { exceptions_size = f.0.0; ext_size = f.1.0; core_size = f.2.0 }

  pub logged : (es l : List Event) → l ≡ s.log ++ es → Refines (record s { log = l }) (emits es a)
  logged es l e = (f.0, f.1, f.2, e ∙ ap (λ m. m ++ es) f.3)

  pub exception_set :
      (n h : ℕ)
      → Refines
          (record s { exceptions = set s.exceptions n h })
          (record a { exception = update a.exception n h })
  exception_set n h = (Table-set _ _ _ n h f.0, f.1, f.2, f.3)

  pub ext_set :
      (n h : ℕ)
      → Refines
          (record s { ext_interrupts = set s.ext_interrupts n h })
          (record a { ext = update a.ext n h })
  ext_set n h = (f.0, Table-set _ _ _ n h f.1, f.2, f.3)

  pub core_set :
      (n h : ℕ)
      → Refines
          (record s { core_interrupts = set s.core_interrupts n h })
          (record a { core = update a.core n h })
  core_set n h = (f.0, f.1, Table-set _ _ _ n h f.2, f.3)

module _ (default : ℕ) (s : System) (a : Handlers) (f : Refines s a) where
  exception_register_exc_in :
      (n h : ℕ)
      → n < max_system_exception_num
      → exception_register_exc n h s ≡ done (tt, record s { exceptions = set s.exceptions n h })
  unfolding exception_register_exc
  exception_register_exc_in n h lt = ground (arith, f.0.0)

  exception_register_exc_out :
      (n h : ℕ) → max_system_exception_num ≤ n → exception_register_exc n h s ≡ done (tt, s)
  unfolding exception_register_exc
  exception_register_exc_out n h lt = ground arith

  pub register_exc-Meets : (n h : ℕ) → Meets default (register_exc n h) s a
  unfolding perform spec exception_register_exc
  register_exc-Meets n h = elim (Bool-cases (ltb n max_system_exception_num)) [
    | inl small ↦
        meets default (register_exc n h) s a 0 _ _
          (>>=-done (exception_register_exc n h) (λ _. pure 0) s
            (exception_register_exc_in n h (ground arith)))
          (ground arith) (exception_set s a f n h)
    | inr large ↦
        meets default (register_exc n h) s a 0 _ _
          (>>=-done (exception_register_exc n h) (λ _. pure 0) s
            (exception_register_exc_out n h (ground arith)))
          (ground arith) f
  ]

  interrupt_register_ext_irq_in :
      (n h : ℕ)
      → n < plic_intnum
      → interrupt_register_ext_irq n h s
        ≡ done (tt, record s { ext_interrupts = set s.ext_interrupts n h })
  unfolding interrupt_register_ext_irq
  interrupt_register_ext_irq_in n h lt = ground (arith, f.1.0)

  interrupt_register_ext_irq_out :
      (n h : ℕ) → plic_intnum < n → interrupt_register_ext_irq n h s ≡ done (tt, s)
  unfolding interrupt_register_ext_irq
  interrupt_register_ext_irq_out n h lt = ground arith

  pub register_ext-Meets : (n h : ℕ) → n ≢ plic_intnum → Meets default (register_ext n h) s a
  unfolding perform spec interrupt_register_ext_irq
  register_ext-Meets n h ne = elim (Bool-cases (ltb n plic_intnum)) [
    | inl small ↦
        meets default (register_ext n h) s a 0 _ _
          (>>=-done (interrupt_register_ext_irq n h) (λ _. pure 0) s
            (interrupt_register_ext_irq_in n h (ground arith)))
          (ground arith) (ext_set s a f n h)
    | inr large ↦
        meets default (register_ext n h) s a 0 _ _
          (>>=-done (interrupt_register_ext_irq n h) (λ _. pure 0) s
            (interrupt_register_ext_irq_out n h (ground arith)))
          (ground arith) f
  ]

  interrupt_register_core_irq_in :
      (n h : ℕ)
      → n < core_intnum
      → interrupt_register_core_irq n h s
        ≡ done (tt, record s { core_interrupts = set s.core_interrupts n h })
  unfolding interrupt_register_core_irq
  interrupt_register_core_irq_in n h lt = ground (arith, f.2.0)

  interrupt_register_core_irq_out :
      (n h : ℕ) → core_intnum < n → interrupt_register_core_irq n h s ≡ done (tt, s)
  unfolding interrupt_register_core_irq
  interrupt_register_core_irq_out n h lt = ground arith

  pub register_core-Meets : (n h : ℕ) → n ≢ core_intnum → Meets default (register_core n h) s a
  unfolding perform spec interrupt_register_core_irq
  register_core-Meets n h ne = elim (Bool-cases (ltb n core_intnum)) [
    | inl small ↦
        meets default (register_core n h) s a 0 _ _
          (>>=-done (interrupt_register_core_irq n h) (λ _. pure 0) s
            (interrupt_register_core_irq_in n h (ground arith)))
          (ground arith) (core_set s a f n h)
    | inr large ↦
        meets default (register_core n h) s a 0 _ _
          (>>=-done (interrupt_register_core_irq n h) (λ _. pure 0) s
            (interrupt_register_core_irq_out n h (ground arith)))
          (ground arith) f
  ]

  pub get_exc-Meets : (n : ℕ) → Meets default (get_exc n) s a
  unfolding perform spec exception_get_exc
  get_exc-Meets n = elim (Bool-cases (ltb n max_system_exception_num)) [
    | inl small ↦
        meets default (get_exc n) s a (a.exception n) s a (ground (arith, f.0.1 n)) (ground arith) f
    | inr large ↦ rw large (refl, f)
  ]

  pub get_ext-Meets : (n : ℕ) → n ≢ plic_intnum → Meets default (get_ext n) s a
  unfolding perform spec interrupt_get_ext_irq
  get_ext-Meets n ne = elim (Bool-cases (ltb n plic_intnum)) [
    | inl small ↦
        meets default (get_ext n) s a (a.ext n) s a (ground (arith, f.1.1 n)) (ground arith) f
    | inr large ↦ meets default (get_ext n) s a 0 s a (ground arith) (ground arith) f
  ]

  pub get_core-Meets : (n : ℕ) → n ≢ core_intnum → Meets default (get_core n) s a
  unfolding perform spec interrupt_get_core_irq
  get_core-Meets n ne = elim (Bool-cases (ltb n core_intnum)) [
    | inl small ↦
        meets default (get_core n) s a (a.core n) s a (ground (arith, f.2.1 n)) (ground arith) f
    | inr large ↦ meets default (get_core n) s a 0 s a (ground arith) (ground arith) f
  ]
