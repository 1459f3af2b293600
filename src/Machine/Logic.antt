-- ===== src/Machine/Logic.antt =====
-- Total correctness: weakening a postcondition, and sequencing.
use rep_vgg_acc.Base.{◌≡◌, refl}
use rep_vgg_acc.Machine.{Outcome, done, spinning, fault, Prog, Returns, ◌>>=◌}

pub Returns_mono :
    {D A : Type 0} (P Q : A → D → Type 0) (o : Outcome (A × D))
    → Returns o P
    → ((a : A) (d : D) → P a d → Q a d)
    → Returns o Q
Returns_mono P Q (done (a, d)) p f = f a d p
Returns_mono P Q spinning p f = absurd p
Returns_mono P Q fault p f = absurd p

pub Returns->>= :
    {D A B : Type 0} (P : A → D → Type 0) (Q : B → D → Type 0) (m : Prog D A) (f : A → Prog D B)
    (d : D)
    → Returns (m d) P
    → ((a : A) (d' : D) → P a d' → Returns (f a d') Q)
    → Returns ((m >>= f) d) Q
Returns->>= {D} {A} {B} P Q m f d p k = go (m d) p
  where
    go :
        (o : Outcome (A × D))
        → Returns o P
        → Returns (elim o [ done (a, d') ↦ f a d' | spinning ↦ spinning | fault ↦ fault ]) Q
    go (done (a, d')) p = k a d' p
    go spinning p = absurd p
    go fault p = absurd p

-- Running the first program of a sequence.
module _ {D A B : Type 0} (m : Prog D A) (f : A → Prog D B) (d : D) where
  pub >>=-done : {a : A} {d' : D} → m d ≡ done (a, d') → (m >>= f) d ≡ f a d'
  >>=-done e = rw (e, ◌>>=◌) refl

  pub >>=-fault : m d ≡ fault → (m >>= f) d ≡ fault
  >>=-fault e = rw (e, ◌>>=◌) refl
