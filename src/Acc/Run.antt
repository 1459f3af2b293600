-- ===== src/Acc/Run.antt =====
-- A run of the accelerator, from the start command of the driver to its acknowledged end.
use rep_vgg_acc.Base.{ℕ, ◌+◌, ◌≡◌, refl, true, false, some, List, [], ◌∷◌, ◌++◌}
use rep_vgg_acc.Machine.{Prog, Returns, ◌>>=◌}
use rep_vgg_acc.Acc.{acc_cfg_base, acc_start, check_acc_status}
use rep_vgg_acc.Acc.Slave.{clock, slave_write, slave_read}
use rep_vgg_acc.Acc.Fsm.{
  State, idle, wsetup, isetup, conv, Answers, next_state, fsm_edge, Accelerator, edge, edge_write,
  edges, acc_bus,
}

abbrev pub AllOf : (Answers → Type 0) → List Answers → Type 0
AllOf P [] = Unit
AllOf P (u ∷ us) = P u × AllOf P us

-- The machine is at a state of a run that is not over.
pub record In (s : State) (a : Accelerator) : Type 0 where
  pub at_state : a.fsm.state ≡ s
  pub not_done : a.fsm.acc_done ≡ false
  pub no_start : a.regs.start ≡ 0
  pub unfinished : a.regs.finished ≡ 0

edge-In :
    (s t : State) (u : Answers) (a : Accelerator)
    → next_state s false u ≡ t
    → u.conv_done ≡ false
    → In s a
    → In t (edge u a)
unfolding edge fsm_edge clock
edge-In s t u a e c h = record {
  at_state = rw (h.at_state, h.no_start) e;
  not_done = rw (h.not_done, c) refl;
  no_start = rw h.no_start refl;
  unfinished = rw (h.not_done, h.unfinished) refl;
}

edges-append : (us vs : List Answers) (a : Accelerator) → edges (us ++ vs) a ≡ edges vs (edges us a)
unfolding edges
edges-append [] vs a = refl
edges-append (u ∷ us) vs a = edges-append us vs (edge u a)

-- A unit does not answer for any number of edges, and then answers.
stage :
    (s t : State) (us : List Answers) (u : Answers) (a : Accelerator)
    → AllOf (λ v. (next_state s false v ≡ s) × (v.conv_done ≡ false)) us
    → next_state s false u ≡ t
    → u.conv_done ≡ false
    → In s a
    → In t (edges (us ++ u ∷ []) a)
unfolding edges
stage s t [] u a w e c h = edge-In s t u a e c h
stage s t (v ∷ us) u a (w, ws) e c h = stage s t us u (edge v a) ws e c (edge-In s s v a w.0 w.1 h)

-- What the units answer in a run: each one nothing for any number of edges, and then once that it is
-- done.
pub record Work : Type 0 where
  pub loading : List Answers
  pub loaded : Answers
  pub mapping : List Answers
  pub mapped : Answers
  pub convolving : List Answers
  pub convolved : Answers

-- The weights are answered for after some edges, then the map, then the convolution, which is not
-- answered for before.
pub record IsWork (w : Work) : Type 0 where
  pub loads : AllOf (λ u. (u.weight_done ≡ false) × (u.conv_done ≡ false)) w.loading
  pub has_loaded : (w.loaded.weight_done ≡ true) × (w.loaded.conv_done ≡ false)
  pub maps : AllOf (λ u. (u.imap_done ≡ false) × (u.conv_done ≡ false)) w.mapping
  pub has_mapped : (w.mapped.imap_done ≡ true) × (w.mapped.conv_done ≡ false)
  pub convolves : AllOf (λ u. u.conv_done ≡ false) w.convolving
  pub has_convolved : w.convolved.conv_done ≡ true

abbrev pub work : Work → Accelerator → Accelerator
work w a =
    edge w.convolved (
      edges w.convolving
        (edges (w.mapping ++ w.mapped ∷ []) (edges (w.loading ++ w.loaded ∷ []) a)))

AllOf-mono :
    {P Q : Answers → Type 0} (us : List Answers)
    → ((u : Answers) → P u → Q u)
    → AllOf P us
    → AllOf Q us
AllOf-mono [] f h = tt
AllOf-mono (u ∷ us) f (h, hs) = (f u h, AllOf-mono us f hs)

convolving-In :
    (us : List Answers) (a : Accelerator)
    → AllOf (λ u. u.conv_done ≡ false) us
    → In conv a
    → In conv (edges us a)
unfolding edges next_state
convolving-In [] a h i = i
convolving-In (u ∷ us) a (h, hs) i =
    convolving-In us (edge u a) hs (edge-In conv conv u a (rw h refl) h i)

until_convolved :
    (w : Work) (a : Accelerator)
    → IsWork w
    → In wsetup a
    → In conv (
        edges w.convolving
          (edges (w.mapping ++ w.mapped ∷ []) (edges (w.loading ++ w.loaded ∷ []) a)))
unfolding next_state
until_convolved w a h i = convolving-In w.convolving _ h.convolves (
    stage isetup conv w.mapping w.mapped _ (AllOf-mono w.mapping (λ u p. (rw p.0 refl, p.1)) h.maps)
      (rw h.has_mapped.0 refl) h.has_mapped.1
      (stage wsetup isetup w.loading w.loaded a
        (AllOf-mono w.loading (λ u p. (rw p.0 refl, p.1)) h.loads) (rw h.has_loaded.0 refl)
        h.has_loaded.1 i))

-- The driver starts the accelerator, the units work, and the driver asks for the status.
abbrev pub run : Answers → Work → Prog Accelerator ℕ
run quiet w = acc_start (acc_bus quiet) (some acc_cfg_base) >>= λ s a.
    check_acc_status (acc_bus quiet) (some acc_cfg_base) (edge quiet (work w (edge quiet a)))

-- The register holds that the accelerator has finished, and the machine is idle.
pub record Finished (a : Accelerator) : Type 0 where
  pub is_idle : a.fsm.state ≡ idle
  pub no_signal : a.fsm.acc_done ≡ false
  pub finished_set : a.regs.finished ≡ 1
  pub no_restart : a.regs.start ≡ 0

work-Finished :
    (quiet u : Answers) (a : Accelerator)
    → quiet.conv_done ≡ false
    → u.conv_done ≡ true
    → In conv a
    → Finished (edge quiet (edge u a))
unfolding edge fsm_edge next_state clock
work-Finished quiet u a q e i = record {
  is_idle = rw (i.at_state, i.no_start, e) refl;
  no_signal = rw (i.not_done, e) refl;
  finished_set = rw (i.not_done, e) refl;
  no_restart = rw i.no_start refl;
}

started-In :
    (quiet : Answers) (a : Accelerator)
    → quiet.conv_done ≡ false
    → In idle a
    → In wsetup (edge quiet (edge_write quiet (acc_cfg_base + 0x10) 1 a))
unfolding edge edge_write fsm_edge next_state clock slave_write
started-In quiet a q i = record {
  at_state = rw (i.at_state, i.no_start) refl;
  not_done = rw (i.not_done, q) refl;
  no_start = refl;
  unfinished = rw (i.not_done, q, i.unfinished) refl;
}

acknowledged-In :
    (quiet : Answers) (a : Accelerator)
    → quiet.conv_done ≡ false
    → Finished a
    → Returns (check_acc_status (acc_bus quiet) (some acc_cfg_base) a) λ r b. (r ≡ 1) × In idle b
unfolding check_acc_status edge edge_write fsm_edge next_state clock slave_write slave_read
acknowledged-In quiet a q h = rw h.finished_set (
  refl,
  record {
    at_state = rw (h.is_idle, h.no_restart) refl;
    not_done = rw (h.no_signal, q) refl;
    no_start = rw h.no_restart refl;
    unfinished = refl;
  },
)

-- From an idle accelerator, `acc_start` begins a run. Once the weights and the map have been loaded and
-- the convolution is done, after any numbers of edges, `check_acc_status` returns 1, and its
-- acknowledgement leaves the accelerator idle, unfinished and with START at 0, ready for another run.
pub run-finish :
    (quiet : Answers) (w : Work) (a : Accelerator)
    → quiet.conv_done ≡ false
    → IsWork w
    → In idle a
    → Returns (run quiet w a) λ r b. (r ≡ 1) × In idle b
unfolding acc_start
run-finish quiet w a q h i = acknowledged-In quiet _ q (
    work-Finished quiet w.convolved _ q h.has_convolved
      (until_convolved w _ h (started-In quiet a q i)))
