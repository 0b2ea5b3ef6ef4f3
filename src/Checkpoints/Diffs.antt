-- ===== src/Checkpoints/Diffs.antt =====
-- Checkpoints kept as differences: each level holds what brings the state back to its beginning.
use simple_p2p_blockchain.Common.{List, [], ◌∷◌, ◌≡◌, ◌∙◌}

-- `undo d v` takes the changes of the level `d` back; `IsGood` is what a level keeps true.
module _ {D V : Type 0} (undo : D → V → V) (IsGood : D → Type 0) where
  -- The levels, the latest first, lead from what is shown to the views at the checkpoints. The first
  -- level of all belongs to no checkpoint.
  abbrev pub Leads : V → List D → List V → Type 0
  Leads v [] us = ⊥
  Leads v (d ∷ []) [] = IsGood d
  Leads v (d ∷ []) (u ∷ us) = ⊥
  Leads v (d ∷ e ∷ ds) [] = ⊥
  Leads v (d ∷ e ∷ ds) (u ∷ us) = IsGood d × (undo d v ≡ u) × Leads u (e ∷ ds) us

  pub Leads-IsGood : (v : V) (d : D) (ds : List D) (us : List V) → Leads v (d ∷ ds) us → IsGood d
  Leads-IsGood v d [] [] h = h
  Leads-IsGood v d [] (u ∷ us) h = absurd h
  Leads-IsGood v d (e ∷ ds) [] h = absurd h
  Leads-IsGood v d (e ∷ ds) (u ∷ us) h = h.0

  -- A change that the latest level records.
  pub Leads-change :
      (v v' : V) (d d' : D) (ds : List D) (us : List V)
      → Leads v (d ∷ ds) us
      → IsGood d'
      → undo d' v' ≡ undo d v
      → Leads v' (d' ∷ ds) us
  Leads-change v v' d d' [] [] h good e = good
  Leads-change v v' d d' [] (u ∷ us) h good e = h
  Leads-change v v' d d' (f ∷ ds) [] h good e = h
  Leads-change v v' d d' (f ∷ ds) (u ∷ us) h good e = (good, e ∙ h.1, h.2)

  pub Leads-checkpoint :
      (v : V) (d : D) (ds : List D) (us : List V)
      → Leads v ds us
      → IsGood d
      → undo d v ≡ v
      → Leads v (d ∷ ds) (v ∷ us)
  Leads-checkpoint v d [] us h good e = absurd h
  Leads-checkpoint v d (f ∷ ds) us h good e = (good, e, h)

  -- Two levels merged into one.
  pub Leads-commit :
      (v u : V) (d e m : D) (ds : List D) (us : List V)
      → Leads v (d ∷ e ∷ ds) (u ∷ us)
      → IsGood m
      → undo m v ≡ undo e (undo d v)
      → Leads v (m ∷ ds) us
  Leads-commit v u d e m [] [] h good eq = good
  Leads-commit v u d e m [] (w ∷ us) h good eq = h.2
  Leads-commit v u d e m (f ∷ ds) [] h good eq = h.2
  Leads-commit v u d e m (f ∷ ds) (w ∷ us) h good eq = (good, eq ∙ (rw h.1 h.2.1), h.2.2)
