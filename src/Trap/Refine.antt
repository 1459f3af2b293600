-- ===== src/Trap/Refine.antt =====
-- The tables and the dispatch do what their specification says, for any sequence of operations.
use mathlib.Core.List.{append_assoc}
use rep_vgg_acc.Base.{
  ℕ, ◌%◌, ◌^◌, ◌≡◌, ◌≢◌, refl, sym, ap, ap₂, ◌⊎◌, inl, inr, List, [], ◌∷◌, ◌++◌, ltb, leb, ◌==◌,
  ==_iff, Bool-cases, if◌then◌else◌, minus_one, arith,
}
use rep_vgg_acc.Machine.{Returns}
use rep_vgg_acc.Machine.Logic.{Returns->>=}
use rep_vgg_acc.Trap.{
  System, Event, calls, claim, complete, set_priority, enable_interrupt, enable_ext_irq, irq_m_ext,
  max_system_exception_num, plic_intnum, core_intnum,
}
use rep_vgg_acc.Trap.Step.{
  core_register_irq_lem, core_register_irq_null, core_register_irq_high, plic_register_irq_lem,
  plic_register_irq_null, plic_register_irq_high, HandledBy,
}
use rep_vgg_acc.Trap.Dispatch.{core_dispatch, ext_dispatch, ext_spurious, exception_dispatch}
use rep_vgg_acc.Trap.Spec.{
  Handlers, Op, register_exc, register_core, register_ext, get_exc, get_core, get_ext, core_irq,
  plic_irq, trap, enables, emits, invoked, perform, run, spec_run, All, spec, InBounds, Refines,
}
use rep_vgg_acc.Trap.Meets.{
  Meets, meets, logged, core_set, ext_set, register_exc-Meets, register_ext-Meets,
  register_core-Meets, get_exc-Meets, get_ext-Meets, get_core-Meets, calls-invoked,
}

module _ (default : ℕ) (s : System) (a : Handlers) (f : Refines s a) where
  core_irq-Meets : (n h : ℕ) → (n ≢ core_intnum) ⊎ (h ≡ 0) → Meets default (core_irq n h) s a
  unfolding perform spec
  core_irq-Meets n h c = elim (Bool-cases (leb n core_intnum)) [
    | inl small ↦ elim (Bool-cases (h == 0)) [
      | inl null ↦
          meets default (core_irq n h) s a 0 _ _
            (rw ((==_iff h 0).0 null) (core_register_irq_null n s (ground arith)))
            (rw (small, null) refl) (logged s a f (enables n) _ refl)
      | inr given ↦
          meets default (core_irq n h) s a 0 _ _
            (core_register_irq_lem n h s (ground (arith, f.2.0)) (ground arith) (ground arith))
            (rw (small, given) refl) (logged _ _ (core_set s a f n h) (enables n) _ refl)
    ]
    | inr large ↦
        meets default (core_irq n h) s a minus_one s a (core_register_irq_high n h s (ground arith))
          (rw large refl) f
  ]

  plic_irq-Meets : (n priority h : ℕ) → Meets default (plic_irq n priority h) s a
  unfolding perform spec
  plic_irq-Meets n priority h =
      let es : List Event = set_priority n priority ∷ enable_interrupt n ∷ enable_ext_irq ∷ [] in
      elim (Bool-cases (ltb n plic_intnum)) [
        | inl small ↦ elim (Bool-cases (h == 0)) [
          | inl null ↦
              meets default (plic_irq n priority h) s a 0 _ _
                (plic_register_irq_null n priority h s (ground arith) (ground arith))
                (rw (small, null) refl) (logged s a f es _ (simp append_assoc))
          | inr given ↦
              meets default (plic_irq n priority h) s a 0 _ _
                (plic_register_irq_lem n priority h s (ground (arith, f.1.0)) (ground arith)
                  (ground arith))
                (rw (small, given) refl) (logged _ _ (ext_set s a f n h) es _ (simp append_assoc))
        ]
        | inr large ↦
            meets default (plic_irq n priority h) s a minus_one s a
              (plic_register_irq_high n priority h s (ground arith)) (rw large refl) f
      ]

  handled :
      (n : ℕ)
      → HandledBy default n s (if ltb n max_system_exception_num then a.exception n else default)
  handled n = elim (Bool-cases (ltb n max_system_exception_num)) [
    | inl small ↦ rw small (f.0.1 n (ground arith))
    | inr large ↦ rw large refl
  ]

  -- The handler that the dispatch calls is the one that the specification calls.
  spec_calls :
      (f : List Event → List Event) (h mcause sp : ℕ)
      → ◌≡◌ {A = ℕ × Handlers}
          (0, emits (f (invoked h mcause sp)) a)
          (0, emits (f (calls h mcause sp)) a)
  spec_calls f h mcause sp = ap (λ es. (0, emits (f es) a)) (sym (calls-invoked h mcause sp))

  trap-Meets :
      (claimed mcause sp : ℕ)
      → InBounds (trap claimed mcause sp)
      → Meets default (trap claimed mcause sp) s a
  unfolding perform spec
  trap-Meets claimed mcause sp (w, c) = elim (Bool-cases (ltb mcause (2 ^ 31))) [
    | inl low ↦
        let h : ℕ =
          if ltb (mcause % 2 ^ 12) max_system_exception_num
          then a.exception (mcause % 2 ^ 12)
          else default in
        meets default (trap claimed mcause sp) s a 0 _ _
          (exception_dispatch default claimed mcause sp h s (ground arith)
            (handled (mcause % 2 ^ 12)))
          (rw low (spec_calls (λ es. es) h mcause sp)) (logged s a f (calls h mcause sp) _ refl)
    | inr high ↦ elim (Bool-cases (mcause % 2 ^ 12 == irq_m_ext)) [
      | inl ext ↦ elim (Bool-cases (ltb claimed plic_intnum)) [
        | inl small ↦
            meets default (trap claimed mcause sp) s a 0 _ _
              (ext_dispatch default claimed mcause sp (a.ext claimed) s (ground arith)
                (ground arith) (ground arith) (f.1.1 claimed (ground arith)))
              (rw (high, ext, small)
                (spec_calls (λ es. claim claimed ∷ es ++ complete claimed ∷ []) (a.ext claimed)
                  mcause sp))
              (logged s a f
                (claim claimed ∷ calls (a.ext claimed) mcause sp ++ complete claimed ∷ []) _
                (simp append_assoc))
        | inr large ↦
            meets default (trap claimed mcause sp) s a 0 _ _
              (ext_spurious default claimed mcause sp s (ground arith) (ground arith)
                (ground arith))
              (rw (high, ext, large) refl) (logged s a f (claim claimed ∷ []) _ refl)
      ]
      | inr core ↦
          meets default (trap claimed mcause sp) s a 0 _ _
            (core_dispatch default claimed mcause sp (a.core (mcause % 2 ^ 12)) s (ground arith)
              (ground arith) (f.2.1 _ (ground arith)))
            (rw (high, core) (spec_calls (λ es. es) (a.core (mcause % 2 ^ 12)) mcause sp))
            (logged s a f (calls (a.core (mcause % 2 ^ 12)) mcause sp) _ refl)
    ]
  ]

  perform-Meets : (op : Op) → InBounds op → Meets default op s a
  perform-Meets (register_exc n h) c = register_exc-Meets default s a f n h
  perform-Meets (register_ext n h) c = register_ext-Meets default s a f n h c
  perform-Meets (register_core n h) c = register_core-Meets default s a f n h c
  perform-Meets (get_exc n) c = get_exc-Meets default s a f n
  perform-Meets (get_ext n) c = get_ext-Meets default s a f n c
  perform-Meets (get_core n) c = get_core-Meets default s a f n c
  perform-Meets (core_irq n h) c = core_irq-Meets n h c
  perform-Meets (plic_irq n priority h) c = plic_irq-Meets n priority h
  perform-Meets (trap claimed mcause sp) c = trap-Meets claimed mcause sp c

-- Any sequence of operations and traps that stays in the arrays, on tables that hold the handlers: it
-- returns the results that the specification gives, and the tables and the calls made follow it.
pub run-Refines :
    (default : ℕ) (ops : List Op) (s : System) (a : Handlers)
    → All InBounds ops
    → Refines s a
    → Returns
        (run default ops s)
        λ rs t. (rs ≡ (spec_run default ops a).0) × Refines t (spec_run default ops a).1
unfolding run spec_run
run-Refines default [] s a c f = (refl, f)
run-Refines default (op ∷ ops) s a (c, cs) f =
    let (r, b) = spec default op a in
    Returns->>= _ _ (perform default op) _ s (perform-Meets default s a f op c) λ r' t (e, g).
      Returns->>= _ _ (run default ops) _ t (run-Refines default ops t b cs g)
        λ rs u (es, h). (ap₂ ◌∷◌ e es, h)
