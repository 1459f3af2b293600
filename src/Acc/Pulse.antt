-- ===== src/Acc/Pulse.antt =====
-- The start signals that the main state machine gives to the units.
use rep_vgg_acc.Base.{
  ℕ, zero, suc, ◌≡◌, refl, sym, ap, ◌∙◌, Bool-cases, arith, ◌⊎◌, inl, inr, Bool, true, false, List,
  [], ◌∷◌,
}
use rep_vgg_acc.Acc.Fsm.{
  State, idle, wsetup, isetup, conv, code, Answers, MainFsm, fsm_reset, goes, pulse, fsm_edge,
}

-- The machine after edges with these values of `acc_start` and these answers.
unfoldable pub fsm_edges : List (Bool × Answers) → MainFsm → MainFsm
fsm_edges [] f = f
fsm_edges ((s, u) ∷ us) f = fsm_edges us (fsm_edge s u f)

-- A signal is given at one state only.
abbrev pub GivenIn : State → Bool → State → Type 0
GivenIn s true state = state ≡ s
GivenIn s false state = Unit

pub record Inv (f : MainFsm) : Type 0 where
  pub imap_given : GivenIn isetup f.imap_start f.state
  pub conv_given : GivenIn conv f.conv_start f.state

-- A trigger that fires only on the way into `s`.
given :
    (s state t next : State) (old : Bool)
    → GivenIn s (goes state next t s) next
    → GivenIn s (pulse old (goes state next t s)) next
given s state t next true h = tt
given s state t next false h = fires (goes state next t s) h
  where
    fires : (b : Bool) → GivenIn s b next → GivenIn s (pulse false b) next
    fires true k = k
    fires false k = tt

decode : ℕ → State
decode zero = idle
decode (suc zero) = wsetup
decode (suc (suc zero)) = isetup
decode (suc (suc (suc n))) = conv

decode-code : (s : State) → decode (code s) ≡ s
unfolding decode
decode-code idle = refl
decode-code wsetup = refl
decode-code isetup = refl
decode-code conv = refl

code_inj : (s t : State) → code s ≡ code t → s ≡ t
code_inj s t e = sym (decode-code s) ∙ ap decode e ∙ decode-code t

goes-GivenIn : (state next t s : State) → GivenIn s (goes state next t s) next
goes-GivenIn state next t s = elim (Bool-cases (goes state next t s)) [
  | inl e ↦ rw e (code_inj next s (ground arith))
  | inr e ↦ rw e tt
]

edge-Inv : (s : Bool) (u : Answers) (f : MainFsm) → Inv (fsm_edge s u f)
unfolding fsm_edge
edge-Inv s u f = record {
  imap_given = given isetup f.state wsetup _ f.imap_start (goes-GivenIn f.state _ wsetup isetup);
  conv_given = given conv f.state isetup _ f.conv_start (goes-GivenIn f.state _ isetup conv);
}

edges-Inv : (us : List (Bool × Answers)) (f : MainFsm) → Inv f → Inv (fsm_edges us f)
unfolding fsm_edges
edges-Inv [] f h = h
edges-Inv ((s, u) ∷ us) f h = edges-Inv us (fsm_edge s u f) (edge-Inv s u f)

falls : (old trigger : Bool) → (old ≡ false) ⊎ (pulse old trigger ≡ false)
falls true trigger = inr refl
falls false trigger = inl refl

-- After reset and any inputs: the map unit is started only at the state isetup and the convolution only
-- at conv, and none of the three start signals and the finish signal is given at two edges in a row.
pub fsm_edges-Inv :
    (us : List (Bool × Answers)) (s : Bool) (u : Answers)
    → let f = fsm_edges us fsm_reset in
      let g = fsm_edge s u f in
      Inv f
      × ((f.weight_start ≡ false) ⊎ (g.weight_start ≡ false))
      × ((f.imap_start ≡ false) ⊎ (g.imap_start ≡ false))
      × ((f.conv_start ≡ false) ⊎ (g.conv_start ≡ false))
      × ((f.acc_done ≡ false) ⊎ (g.acc_done ≡ false))
unfolding fsm_edge
fsm_edges-Inv us s u = (
  edges-Inv us fsm_reset (record { imap_given = tt; conv_given = tt }),
  falls _ _,
  falls _ _,
  falls _ _,
  falls _ _,
)
