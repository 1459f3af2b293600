-- ===== src/Trap/Spec.antt =====
-- What the handler tables and the dispatch promise, with the tables as functions from numbers.
use rep_vgg_acc.Base.{
  ℕ, zero, suc, ◌%◌, ◌^◌, ◌<◌, ◌≡◌, ◌≢◌, ◌⊎◌, List, [], ◌∷◌, ◌++◌, some, get_elem?, length, ltb,
  leb, ◌==◌, if◌then◌else◌, minus_one,
}
use rep_vgg_acc.Machine.{Prog, pure, ◌>>=◌, ◌>>◌, update}
use rep_vgg_acc.Trap.{
  System, Event, call, claim, complete, set_priority, enable_interrupt, enable_ext_irq,
  enable_sw_irq, enable_timer_irq, exception_register_exc, exception_get_exc,
  interrupt_register_core_irq, interrupt_get_core_irq, interrupt_register_ext_irq,
  interrupt_get_ext_irq, core_register_irq, plic_register_irq, core_trap_handler,
}

-- The handler of every number, and the calls made.
pub record Handlers : Type 0 where
  pub exception : ℕ → ℕ
  pub ext : ℕ → ℕ
  pub core : ℕ → ℕ
  pub log : List Event

-- The operations of the module, and a trap: its claimed source, mcause and sp.
pub data Op : Type 0 where
  register_exc register_core register_ext : ℕ → ℕ → Op
  get_exc get_core get_ext : ℕ → Op
  core_irq : ℕ → ℕ → Op
  plic_irq : ℕ → ℕ → ℕ → Op
  trap : ℕ → ℕ → ℕ → Op

unfoldable pub perform : ℕ → Op → Prog System ℕ
perform default (register_exc n h) = exception_register_exc n h >> pure 0
perform default (register_core n h) = interrupt_register_core_irq n h >> pure 0
perform default (register_ext n h) = interrupt_register_ext_irq n h >> pure 0
perform default (get_exc n) = exception_get_exc n
perform default (get_core n) = interrupt_get_core_irq n
perform default (get_ext n) = interrupt_get_ext_irq n
perform default (core_irq n h) = core_register_irq n h
perform default (plic_irq n priority h) = plic_register_irq n priority h
perform default (trap claimed mcause sp) = core_trap_handler default claimed mcause sp

abbrev pub emits : List Event → Handlers → Handlers
emits es a = record a { log = a.log ++ es }

-- A registered handler is called with the cause and the stack pointer; NULL is not called.
unfoldable pub invoked : ℕ → ℕ → ℕ → List Event
invoked zero mcause sp = []
invoked (suc h) mcause sp = call (suc h) mcause sp ∷ []

-- The software interrupt has number 3 and the timer interrupt number 7.
abbrev pub enables : ℕ → List Event
enables n = if n == 3 then enable_sw_irq ∷ [] else if n == 7 then enable_timer_irq ∷ [] else []

-- The result of an operation and what it does to the handlers. There are handlers for the exceptions 0 to
-- 10, the sources 0 to 16 and the core interrupts 0 to 9; exception 11, an environment call, is not among
-- them, so that it cannot be registered and goes to the default handler.
unfoldable pub spec : ℕ → Op → Handlers → ℕ × Handlers
spec default (register_exc n h) a =
    (0, if ltb n 11 then record a { exception = update a.exception n h } else a)
spec default (register_core n h) a =
    (0, if ltb n 10 then record a { core = update a.core n h } else a)
spec default (register_ext n h) a = (0, if ltb n 17 then record a { ext = update a.ext n h } else a)
spec default (get_exc n) a = (if ltb n 11 then a.exception n else 0, a)
spec default (get_core n) a = (if ltb n 10 then a.core n else 0, a)
spec default (get_ext n) a = (if ltb n 17 then a.ext n else 0, a)
spec default (core_irq n h) a =
    if leb n 10
    then (0, emits (enables n) (if h == 0 then a else record a { core = update a.core n h }))
    else (minus_one, a)
spec default (plic_irq n priority h) a =
    if ltb n 17
    then (
      0,
      emits (set_priority n priority ∷ enable_interrupt n ∷ enable_ext_irq ∷ [])
          (if h == 0 then a else record a { ext = update a.ext n h }),
    )
    else (minus_one, a)
spec default (trap claimed mcause sp) a = (
  0,
  if ltb mcause (2 ^ 31)
      then emits
          (invoked (if ltb (mcause % 2 ^ 12) 11 then a.exception (mcause % 2 ^ 12) else default)
            mcause sp)
          a
      else if mcause % 2 ^ 12 == 11
      then emits
          (if ltb claimed 17
            then claim claimed ∷ invoked (a.ext claimed) mcause sp ++ complete claimed ∷ []
            else claim claimed ∷ [])
          a
      else emits (invoked (a.core (mcause % 2 ^ 12)) mcause sp) a,
)

-- A sequence of operations, with the list of their results.
unfoldable pub run : ℕ → List Op → Prog System (List ℕ)
run default [] = pure []
run default (op ∷ ops) = do r ← perform default op; rs ← run default ops; pure (r ∷ rs)

unfoldable pub spec_run : ℕ → List Op → Handlers → List ℕ × Handlers
spec_run default [] a = ([], a)
spec_run default (op ∷ ops) a =
    let (r, b) = spec default op a in let (rs, c) = spec_run default ops b in (r ∷ rs, c)

abbrev pub All {ℓ κ} : {A : Type ℓ} → (A → Type κ) → List A → Type κ
All P [] = Unit
All P (x ∷ xs) = P x × All P xs

-- When an operation stays in the arrays: not at their length, which the tests let pass, and no core
-- interrupt beyond its table.
abbrev pub InBounds : Op → Type 0
InBounds (register_core n h) = n ≢ 10
InBounds (register_ext n h) = n ≢ 17
InBounds (get_core n) = n ≢ 10
InBounds (get_ext n) = n ≢ 17
InBounds (core_irq n h) = (n ≢ 10) ⊎ (h ≡ 0)
InBounds (trap claimed mcause sp) =
    (mcause < 2 ^ 32) × ((mcause < 2 ^ 31) ⊎ (mcause % 2 ^ 12 ≡ 11) ⊎ (mcause % 2 ^ 12 < 10))
InBounds _ = Unit

-- An array of `n` elements holds the function.
abbrev pub Table : ℕ → List ℕ → (ℕ → ℕ) → Type 0
Table n xs f = (length xs ≡ n) × ((i : ℕ) → i < n → get_elem? xs i ≡ some (f i))

-- The arrays have their declared lengths and hold the handlers, and the same calls were made.
abbrev pub Refines : System → Handlers → Type 0
Refines s a =
    Table 11 s.exceptions a.exception
    × Table 17 s.ext_interrupts a.ext
    × Table 10 s.core_interrupts a.core
    × (s.log ≡ a.log)
