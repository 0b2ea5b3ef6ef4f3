-- ===== src/Evm/Journal/Levels.antt =====
-- Items marked with heights: a level of calls is a run of items, back to the first lower height.
use simple_p2p_blockchain.Common.{
  ℕ, zero, suc, ◌≤◌, List, [], ◌∷◌, ◌≡◌, refl, ap, ◌∙◌, arith, sym, lt→ltb, le→ltb, ltb,
  if◌then◌else◌, Bool-cases, inl, inr,
}

module _ {D : Type 0} where
  -- The items of the latest level, and those below it.
  unfoldable pub above : ℕ → List (ℕ × D) → List D
  above h [] = []
  above h ((k, d) ∷ ds) = let rest = above h ds in if ltb k h then [] else d ∷ rest

  unfoldable pub below : ℕ → List (ℕ × D) → List (ℕ × D)
  below h [] = []
  below h ((k, d) ∷ ds) = let rest = below h ds in if ltb k h then (k, d) ∷ ds else rest

  -- The latest item has this height.
  abbrev pub IsAt : ℕ → List (ℕ × D) → Type 0
  IsAt h [] = ⊥
  IsAt h ((k, d) ∷ ds) = k ≡ h

  abbrev pub AllItems : (D → Type 0) → List (ℕ × D) → Type 0
  AllItems IsGood [] = Unit
  AllItems IsGood ((k, d) ∷ ds) = IsGood d × AllItems IsGood ds

  above-in : (h k : ℕ) (d : D) (ds : List (ℕ × D)) → h ≤ k → above h ((k, d) ∷ ds) ≡ d ∷ above h ds
  unfolding above
  above-in h k d ds le = rw (le→ltb k h le) refl

  below-in : (h k : ℕ) (d : D) (ds : List (ℕ × D)) → h ≤ k → below h ((k, d) ∷ ds) ≡ below h ds
  unfolding below
  below-in h k d ds le = rw (le→ltb k h le) refl

  above-out : (h : ℕ) (ds : List (ℕ × D)) → IsAt h ds → above (suc h) ds ≡ []
  unfolding above
  above-out h [] at = absurd at
  above-out h ((k, d) ∷ ds) at = rw (lt→ltb k (suc h) (omega (arith, at))) refl

  below-out : (h : ℕ) (ds : List (ℕ × D)) → IsAt h ds → below (suc h) ds ≡ ds
  unfolding below
  below-out h [] at = absurd at
  below-out h ((k, d) ∷ ds) at = rw (lt→ltb k (suc h) (omega (arith, at))) refl

  pub below-AllItems :
      (IsGood : D → Type 0) (h : ℕ) (ds : List (ℕ × D))
      → AllItems IsGood ds
      → AllItems IsGood (below h ds)
  unfolding below
  below-AllItems IsGood h [] good = tt
  below-AllItems IsGood h ((k, d) ∷ ds) good = elim (Bool-cases (ltb k h)) [
    | inl lower ↦ rw lower good
    | inr higher ↦ rw higher (below-AllItems IsGood h ds good.1)
  ]

module _ {D V : Type 0} (undo : D → V → V) where
  abbrev pub undo_all : List D → V → V
  undo_all [] v = v
  undo_all (d ∷ ds) v = undo_all ds (undo d v)

  -- The items lead from what is shown at a height to the views at the checkpoints, one for each
  -- height above 0.
  abbrev pub Leads : ℕ → V → List (ℕ × D) → List V → Type 0
  Leads zero v ds [] = IsAt zero ds
  Leads zero v ds (u ∷ us) = ⊥
  Leads (suc h) v ds [] = ⊥
  Leads (suc h) v ds (u ∷ us) =
      IsAt (suc h) ds × (undo_all (above (suc h) ds) v ≡ u) × Leads h u (below (suc h) ds) us

  pub Leads-IsAt : (h : ℕ) (v : V) (ds : List (ℕ × D)) (us : List V) → Leads h v ds us → IsAt h ds
  Leads-IsAt zero v ds [] leads = leads
  Leads-IsAt zero v ds (u ∷ us) leads = absurd leads
  Leads-IsAt (suc h) v ds [] leads = absurd leads
  Leads-IsAt (suc h) v ds (u ∷ us) leads = leads.0

  -- A change that the latest item records.
  pub Leads-change :
      (h k : ℕ) (v v' : V) (d d' : D) (ds : List (ℕ × D)) (us : List V)
      → Leads h v ((k, d) ∷ ds) us
      → undo d' v' ≡ undo d v
      → Leads h v' ((k, d') ∷ ds) us
  unfolding above below
  Leads-change zero k v v' d d' ds [] leads e = leads
  Leads-change zero k v v' d d' ds (u ∷ us) leads e = leads
  Leads-change (suc h) k v v' d d' ds [] leads e = leads
  Leads-change (suc h) k v v' d d' ds (u ∷ us) (at, back, leads) e =
      let le : suc h ≤ k = omega (arith, at) in
      (
        at,
        ap (λ l. undo_all l v') (above-in (suc h) k d' ds le)
            ∙ ap (undo_all (above (suc h) ds)) e
            ∙ sym (ap (λ l. undo_all l v) (above-in (suc h) k d ds le))
            ∙ back,
        rw (below-in (suc h) k d' ds le) (rw (below-in (suc h) k d ds le) at leads),
      )

  undo_all-below :
      (h : ℕ) (v : V) (ds : List (ℕ × D))
      → undo_all (above h (below (suc h) ds)) (undo_all (above (suc h) ds) v)
        ≡ undo_all (above h ds) v
  unfolding above below
  undo_all-below h v [] = refl
  undo_all-below h v ((k, d) ∷ ds) = ground (arith, undo_all-below h (undo d v) ds)

  below-below : (h : ℕ) (ds : List (ℕ × D)) → below h (below (suc h) ds) ≡ below h ds
  unfolding below
  below-below h [] = refl
  below-below h ((k, d) ∷ ds) = ground (arith, below-below h ds)

  pub Leads-checkpoint :
      (h : ℕ) (v : V) (e : D) (ds : List (ℕ × D)) (us : List V)
      → Leads h v ds us
      → undo e v ≡ v
      → Leads (suc h) v ((suc h, e) ∷ ds) (v ∷ us)
  Leads-checkpoint h v e ds us leads eq =
      let at = Leads-IsAt h v ds us leads in
      (
        refl,
        rw (above-in (suc h) (suc h) e ds (omega arith), above-out h ds at) eq,
        rw (below-in (suc h) (suc h) e ds (omega arith), below-out h ds at) leads,
      )

  pub Leads-commit :
      (h : ℕ) (v u : V) (e : D) (ds : List (ℕ × D)) (us : List V)
      → Leads (suc h) v ds (u ∷ us)
      → undo e v ≡ v
      → Leads h v ((h, e) ∷ ds) us
  Leads-commit zero v u e ds [] leads eq = refl
  Leads-commit zero v u e ds (w ∷ us) leads eq = absurd leads.2
  Leads-commit (suc h) v u e ds [] leads eq = absurd leads.2
  Leads-commit (suc h) v u e ds (w ∷ us) (at, back, (at', back', leads)) eq = (
    refl,
    ap (λ l. undo_all l v) (above-in (suc h) (suc h) e ds (omega arith))
        ∙ ap (undo_all (above (suc h) ds)) eq
        ∙ sym (undo_all-below (suc h) v ds)
        ∙ ap (undo_all (above (suc h) (below (suc (suc h)) ds))) back
        ∙ back',
    rw (below-in (suc h) (suc h) e ds (omega arith), sym (below-below (suc h) ds)) leads,
  )
