-- ===== src/Evm/Journal/Reverting.antt =====
-- Checkpoints of the journal: what `checkpoint`, `commit` and `revert` keep.
use simple_p2p_blockchain.Common.{
  ℕ, zero, suc, List, [], ◌∷◌, ◌≡◌, refl, sym, ap, ◌∙◌, fun_ext, ltb, some, subst, Text, Bool-cases,
  inl, inr,
}
use simple_p2p_blockchain.Common.Maps
use simple_p2p_blockchain.Common.Maps.{Map}
use simple_p2p_blockchain.Evm.Journal.{
  TextSet, DiffItem, Journal, empty_diff, undo_item, undo_down, checkpoint, commit, revert,
}
use simple_p2p_blockchain.Evm.Journal.Views.{
  Fact, warm_address, warm_storage, touched, View, view, undo, view-undo_item,
}
use simple_p2p_blockchain.Evm.Journal.Levels.{
  above, below, IsAt, AllItems, below-AllItems, undo_all, Leads, Leads-IsAt, Leads-checkpoint,
  Leads-commit,
}
use simple_p2p_blockchain.Evm.Journal.Tracking.{Tracks, IsItem}

undo_empty : (v : View) → undo empty_diff v ≡ v
unfolding Maps.get
undo_empty v = fun_ext at
  where
    at : (x : Fact) → undo empty_diff v x ≡ v x
    at (warm_address b) = refl
    at (warm_storage b k) = refl
    at (touched b) = refl

pub checkpoint_law :
    (w : Map Text TextSet) (j : Journal) (v : View) (us : List View)
    → Tracks w j v us
    → Tracks w (checkpoint j) v (v ∷ us)
unfolding checkpoint
checkpoint_law w j v us (no_list, always, shown, items, leads) = (
  no_list,
  always,
  shown,
  (tt, items),
  Leads-checkpoint undo j.height v empty_diff j.diffs us leads (undo_empty v),
)

commit_at :
    (h : ℕ) (j : Journal)
    → j.height ≡ suc h
    → commit j ≡ some (record j { diffs = (h, empty_diff) ∷ j.diffs; height = h })
unfolding commit
commit_at h j e = rw e refl

revert_at :
    (h : ℕ) (j : Journal)
    → j.height ≡ suc h
    → revert j ≡ some (record (undo_down (suc h) j.diffs j) { height = h })
unfolding revert
revert_at h j e = rw e refl

-- Where a checkpoint is open, the height is above 0.
height-cases :
    (h : ℕ) (v u : View) (diffs : List (ℕ × DiffItem)) (us : List View)
    → Leads undo h v diffs (u ∷ us)
    → (g : ℕ) × (h ≡ suc g) × Leads undo (suc g) v diffs (u ∷ us)
height-cases zero v u diffs us leads = absurd leads
height-cases (suc g) v u diffs us leads = (g, refl, leads)

pub commit_law :
    (w : Map Text TextSet) (j : Journal) (v u : View) (us : List View)
    → Tracks w j v (u ∷ us)
    → (i : Journal) × (commit j ≡ some i) × Tracks w i v us
commit_law w j v u us (no_list, always, shown, items, leads) =
    let (h, e, leads') = height-cases j.height v u j.diffs us leads in
    (
      record j { diffs = (h, empty_diff) ∷ j.diffs; height = h },
      commit_at h j e,
      (
        no_list,
        always,
        shown,
        (tt, items),
        Leads-commit undo h v u empty_diff j.diffs us leads' (undo_empty v),
      ),
    )

-- The loop of `revert` takes the items of the latest level back, and keeps the others.
abbrev Undone : ℕ → List (ℕ × DiffItem) → Journal → Journal → Type 0
Undone h ds j i =
    (i.diffs ≡ below h ds)
    × (view i.journal i.touched ≡ undo_all undo (above h ds) (view j.journal j.touched))
    × (i.always_warm ≡ j.always_warm)
    × (i.access_list ≡ j.access_list)

undo_item-fields :
    (d : DiffItem) (j : Journal)
    → IsItem d
    → (view (undo_item d j).journal (undo_item d j).touched ≡ undo d (view j.journal j.touched))
      × ((undo_item d j).always_warm ≡ j.always_warm)
      × ((undo_item d j).access_list ≡ j.access_list)
unfolding undo_item
undo_item-fields d j item = (view-undo_item d j.journal j.touched item, refl, refl)

undo_down_lem :
    (h g : ℕ) (ds : List (ℕ × DiffItem)) (j : Journal)
    → AllItems IsItem ds
    → IsAt g (below h ds)
    → Undone h ds j (undo_down h ds j)
unfolding undo_down above below
undo_down_lem h g [] j items at = absurd at
undo_down_lem h g ((k, d) ∷ []) j items at = elim (Bool-cases (ltb k h)) [
  | inl lower ↦ rw lower (refl, refl, refl, refl)
  | inr higher ↦ absurd (rw higher at at)
]
undo_down_lem h g ((k, d) ∷ e ∷ ds) j items at = elim (Bool-cases (ltb k h)) [
  | inl lower ↦ rw lower (refl, refl, refl, refl)
  | inr higher ↦
      let (shown, always, list) = undo_item-fields d j items.0 in
      let (diffs, shown', always', list') =
        undo_down_lem h g (e ∷ ds) (undo_item d j) items.1 (rw higher at at) in
      rw higher (
        diffs,
        shown' ∙ ap (undo_all undo (above h (e ∷ ds))) shown,
        always' ∙ always,
        list' ∙ list,
      )
]

pub revert_law :
    (w : Map Text TextSet) (j : Journal) (v u : View) (us : List View)
    → Tracks w j v (u ∷ us)
    → (i : Journal) × (revert j ≡ some i) × Tracks w i u us
revert_law w j v u us (no_list, always, shown, items, leads) =
    let (h, e, (at, back, leads')) = height-cases j.height v u j.diffs us leads in
    let (diffs, shown', always', list') =
      undo_down_lem (suc h) h j.diffs j items
        (Leads-IsAt undo h u (below (suc h) j.diffs) us leads') in
    (
      record (undo_down (suc h) j.diffs j) { height = h },
      revert_at h j e,
      (
        list' ∙ no_list,
        always' ∙ always,
        shown' ∙ ap (undo_all undo (above (suc h) j.diffs)) shown ∙ back,
        subst (AllItems IsItem) (sym diffs) (below-AllItems IsItem (suc h) j.diffs items),
        subst (λ l. Leads undo h u l us) (sym diffs) leads',
      ),
    )
