-- ===== src/Evm/Journal/Tracking.antt =====
-- The operations of the journal keep what it shows, and the way back to its checkpoints.
use simple_p2p_blockchain.Common.{
  ℕ, List, [], ◌∷◌, ◌≡◌, refl, sym, ap, ◌∙◌, arith, fun_ext, true, false, none, some, subst, Text,
  Text-discrete, Option-cases, Bool-cases, inl, inr,
}
use simple_p2p_blockchain.Common.Maps
use simple_p2p_blockchain.Common.Maps.{
  Map, same, same→eq, same_refl, get-set, DistinctKeys, set-DistinctKeys,
}
use simple_p2p_blockchain.Evm.Journal.{
  TextSet, has, add, DiffItem, Journal, touch_account, change_last,
}
use simple_p2p_blockchain.Evm.Journal.Views.{
  Fact, warm_address, warm_storage, touched, View, view, undo,
}
use simple_p2p_blockchain.Evm.Journal.Changes.{touch, view-touch, undo-touch}
use simple_p2p_blockchain.Evm.Journal.Levels.{IsAt, AllItems, Leads, Leads-IsAt, Leads-change}

abbrev pub IsItem : DiffItem → Type 0
IsItem d = DistinctKeys Text-discrete d.slots

-- No access list is reported, the addresses that are always warm are `w`, the journal shows the view, and
-- its items lead back to the views at its checkpoints; the latest item has the height of the journal.
abbrev pub Tracks : Map Text TextSet → Journal → View → List View → Type 0
Tracks w j v us =
    (j.access_list ≡ none)
    × (j.always_warm ≡ w)
    × (view j.journal j.touched ≡ v)
    × AllItems IsItem j.diffs
    × Leads undo j.height v j.diffs us

abbrev pub journal_of : Map Text TextSet → TextSet → List (ℕ × DiffItem) → Journal → Journal
journal_of m t diffs j = record j { journal = m; touched = t; diffs = diffs }

-- A change of what is shown that the latest item records.
pub changed :
    (w : Map Text TextSet) (j : Journal) (m : Map Text TextSet) (t : TextSet) (k : ℕ)
    (d d' : DiffItem) (ds : List (ℕ × DiffItem)) (f : View → View) (v : View) (us : List View)
    → j.diffs ≡ (k, d) ∷ ds
    → Tracks w j v us
    → IsItem d'
    → view m t ≡ f (view j.journal j.touched)
    → undo d' (f (view j.journal j.touched)) ≡ undo d (view j.journal j.touched)
    → Tracks w (journal_of m t ((k, d') ∷ ds) j) (f v) us
changed w j m t k d d' ds f v us eq (no_list, always, shown, items, leads) item now back = (
  no_list,
  always,
  now ∙ ap f shown,
  (item, (subst (AllItems IsItem) eq items).1),
  Leads-change undo j.height k v (f v) d d' ds us (subst (λ l. Leads undo j.height v l us) eq leads)
      (subst (λ u. undo d' (f u) ≡ undo d u) shown back),
)

pub unchanged :
    (w : Map Text TextSet) (j : Journal) (v : View) (us : List View) (f : View → View)
    → Tracks w j v us
    → f (view j.journal j.touched) ≡ view j.journal j.touched
    → Tracks w j (f v) us
unchanged w j v us f (no_list, always, shown, items, leads) same_view =
    subst (λ u. Tracks w j u us) (sym (ap f (sym shown) ∙ same_view ∙ shown))
      (no_list, always, shown, items, leads)

-- There is a latest item.
pub diffs-cases :
    (w : Map Text TextSet) (j : Journal) (v : View) (us : List View)
    → Tracks w j v us
    → (k : ℕ) × (d : DiffItem) × (ds : List (ℕ × DiffItem)) × (j.diffs ≡ (k, d) ∷ ds) × IsItem d
diffs-cases w j v us (no_list, always, shown, items, leads) =
    go j.diffs items (Leads-IsAt undo j.height v j.diffs us leads)
  where
    go :
        (diffs : List (ℕ × DiffItem))
        → AllItems IsItem diffs
        → IsAt j.height diffs
        → (k : ℕ) × (d : DiffItem) × (ds : List (ℕ × DiffItem)) × (diffs ≡ (k, d) ∷ ds) × IsItem d
    go [] items at = absurd at
    go ((k, d) ∷ ds) items at = (k, d, ds, refl, items.0)

pub has-get :
    {V : Type 0} (a : Text) (m : Map Text V)
    → has a m ≡ true
    → (x : V) × (Maps.get Text-discrete a m ≡ some x)
has-get a m h = elim (Option-cases (Maps.get Text-discrete a m)) [
  | inl miss ↦ absurd (ground (arith, miss, h))
  | inr (x, hit) ↦ (x, hit)
]

pub has-set_self :
    (a : Text) (s : TextSet) (m : Map Text TextSet) → has a (Maps.set Text-discrete a s m) ≡ true
has-set_self a s m = ground (arith, get-set Text-discrete a a s m, same_refl Text-discrete a)

module _ (w : Map Text TextSet) (j : Journal) (v : View) (us : List View) where
  touch_hot : (a : Text) → has a j.touched ≡ true → touch_account a j ≡ some j
  unfolding touch_account
  touch_hot a hot = ground (arith, hot)

  touch_cold :
      (a : Text) (k : ℕ) (d : DiffItem) (ds : List (ℕ × DiffItem))
      → has a j.touched ≡ false
      → j.diffs ≡ (k, d) ∷ ds
      → touch_account a j
        ≡ some (
            journal_of j.journal
              (add a j.touched)
              ((k, record d { touched = add a d.touched }) ∷ ds)
              j)
  unfolding touch_account change_last
  touch_cold a k d ds cold eq = ground (arith, cold, eq)

  touch-hot_view :
      (a : Text)
      → has a j.touched ≡ true
      → touch a (view j.journal j.touched) ≡ view j.journal j.touched
  touch-hot_view a hot = fun_ext at
    where
      at : (x : Fact) → touch a (view j.journal j.touched) x ≡ view j.journal j.touched x
      at (warm_address b) = refl
      at (warm_storage b k) = refl
      at (touched b) = ground (arith, same→eq Text-discrete a b, hot)

  pub touch_law :
      (a : Text)
      → Tracks w j v us
      → (i : Journal) × (touch_account a j ≡ some i) × Tracks w i (touch a v) us
  touch_law a h = elim (Bool-cases (has a j.touched)) [
    | inl hot ↦ (j, touch_hot a hot, unchanged w j v us (touch a) h (touch-hot_view a hot))
    | inr cold ↦
        let (k, d, ds, eq, item) = diffs-cases w j v us h in
        (
          _,
          touch_cold a k d ds cold eq,
          changed w j j.journal (add a j.touched) k d _ ds (touch a) v us eq h item
              (view-touch j.journal j.touched d a) (undo-touch j.journal j.touched d a cold),
        )
  ]
