-- ===== src/Trap/Table.antt =====
-- The handler tables: their sizes, and what initialisation puts into them.
use rep_vgg_acc.Base.{
  ℕ, zero, suc, ◌+◌, ◌≤◌, ◌<◌, ◌≡◌, refl, ◌∙◌, some, List, [], ◌∷◌, ◌++◌, length, get_elem?, set,
  length-set, get_elem?-set_self, get_elem?-set_ne, lt→ltb, arith,
}
use rep_vgg_acc.Machine.{Returns, done}
use rep_vgg_acc.Trap.{
  System, plic_init, fill, premain_tables, max_system_exception_num, plic_intnum, core_intnum,
}

-- The arrays have the lengths of their declarations.
pub record IsSized (s : System) : Type 0 where
  pub exceptions_size : length s.exceptions ≡ max_system_exception_num
  pub ext_size : length s.ext_interrupts ≡ plic_intnum
  pub core_size : length s.core_interrupts ≡ core_intnum

-- `xs` after a loop that stores `h` at the indices from `i` up to `hi`.
record Filled (i hi h : ℕ) (xs ys : List ℕ) : Type 0 where
  same_length : length ys ≡ length xs
  inside : (j : ℕ) → i ≤ j → j < hi → get_elem? ys j ≡ some h
  below : (j : ℕ) → j < i → get_elem? ys j ≡ get_elem? xs j

fill-Filled :
    (left i hi h : ℕ) (xs : List ℕ)
    → i + left ≡ hi
    → hi ≤ length xs
    → (ys : List ℕ) × (fill left i h xs ≡ some ys) × Filled i hi h xs ys
unfolding fill
fill-Filled zero i hi h xs e fits = (
  xs,
  refl,
  record { same_length = refl; inside = λ j p q. absurd (omega arith); below = λ j p. refl },
)
fill-Filled (suc left) i hi h xs e fits =
    let (ys, eq, f) =
      fill-Filled left (i + 1) hi h (set xs i h) (omega arith) (omega (arith, length-set xs i h)) in
    (
      ys,
      rw (lt→ltb i (length xs) (omega arith)) eq,
      record {
        same_length = f.same_length ∙ length-set xs i h;
        inside = λ j p q. ground (arith, f.inside j, f.below j, get_elem?-set_self xs i h);
        below = λ j p. ground (arith, f.below j, get_elem?-set_ne xs i j h);
      },
    )

-- Every entry of the table is `h`.
abbrev pub AllAre : ℕ → ℕ → List ℕ → Type 0
AllAre n h xs = (j : ℕ) → j < n → get_elem? xs j ≡ some h

fill_all :
    (n h : ℕ) (xs : List ℕ)
    → length xs ≡ n
    → (ys : List ℕ) × (fill n 0 h xs ≡ some ys) × (length ys ≡ n) × AllAre n h ys
fill_all n h xs e =
    let (ys, eq, f) = fill-Filled n 0 n h xs (omega arith) (omega arith) in
    (ys, eq, omega (arith, f.same_length), λ j p. f.inside j (omega arith) p)

tables_done :
    (de di : ℕ) (s : System) (xs ys zs : List ℕ)
    → fill 11 0 de s.exceptions ≡ some xs
    → fill 17 0 di s.ext_interrupts ≡ some ys
    → fill 10 0 di s.core_interrupts ≡ some zs
    → premain_tables de di s
      ≡ done (
        tt,
        record {
          exceptions = xs;
          ext_interrupts = ys;
          core_interrupts = zs;
          log = s.log ++ plic_init plic_intnum ∷ [];
        },
      )
unfolding premain_tables
tables_done de di s xs ys zs ex ey ez = ground arith

-- The table part of `_premain_init` runs in bounds, keeps the sizes, and leaves the default handler
-- in every entry of the three tables.
premain_tables-AllAre :
    (default_exception default_interrupt : ℕ) (s : System)
    → IsSized s
    → Returns (premain_tables default_exception default_interrupt s) λ r s'.
      IsSized s'
      × AllAre max_system_exception_num default_exception s'.exceptions
      × AllAre plic_intnum default_interrupt s'.ext_interrupts
      × AllAre core_intnum default_interrupt s'.core_interrupts
premain_tables-AllAre de di s z =
    let (xs, ex, lx, ax) = fill_all 11 de s.exceptions z.exceptions_size in
    let (ys, ey, ly, ay) = fill_all 17 di s.ext_interrupts z.ext_size in
    let (zs, ez, lz, az) = fill_all 10 di s.core_interrupts z.core_size in
    rw (tables_done de di s xs ys zs ex ey ez)
      (record { exceptions_size = lx; ext_size = ly; core_size = lz }, ax, ay, az)
