-- ===== src/Mac/Arbiter/Grant.antt =====
-- Who has the bus.
use rep_vgg_acc.Base.{◌≡◌, refl, ◌∙◌, ap, true, false, and_true, List, [], ◌∷◌, if◌then◌else◌}
use rep_vgg_acc.Mac.Arbiter.{idle, weight, ArbIn, next_state, grants, answers, command}

-- The unit of the weights asks at all these edges.
abbrev pub Asks : List ArbIn → Type 0
Asks [] = Unit
Asks (u ∷ us) = (u.weight_biu.req ≡ true) × Asks us

kept : (us : List ArbIn) → Asks us → grants us weight ≡ weight
unfolding grants next_state
kept [] h = refl
kept (u ∷ us) h = ap (λ b. grants us (if b then weight else idle)) h.0 ∙ kept us h.1

granted :
    (u : ArbIn) (us : List ArbIn)
    → u.omap_biu.req ≡ false
    → u.weight_biu.req ≡ true
    → Asks us
    → grants (u ∷ us) idle ≡ weight
unfolding grants next_state
granted u us free asks asking = rw (free, asks) (kept us asking)

-- When the bus is free and the unit of the weights asks for it and that of the output map does not, it has the bus
-- from the next edge for as long as it asks, whatever the other units do: its commands are the ones on the bus, and
-- each answer goes to it alone.
pub grants-weight :
    (u : ArbIn) (us : List ArbIn) (v : ArbIn)
    → u.omap_biu.req ≡ false
    → u.weight_biu.req ≡ true
    → Asks us
    → let s = grants (u ∷ us) idle in
      ((command v s).cmd_valid ≡ v.weight_biu.vld)
      × ((command v s).cmd_addr ≡ v.weight_biu.addr)
      × ((command v s).cmd_read ≡ true)
      × ((answers v s).arb2weight_biu_vld ≡ v.rsp_valid)
      × ((answers v s).arb2weight_biu_data ≡ (if v.rsp_valid then v.rsp_rdata else 0))
      × ((answers v s).arb2imap_biu_vld ≡ false)
      × ((answers v s).arb2omap_biu_vld ≡ false)
unfolding command answers
grants-weight u us v free asks asking =
    rw (granted u us free asks asking, and_true) (refl, refl, refl, refl, refl, refl, refl)
