-- ===== src/Evm/Journal/Changes.antt =====
-- What each operation of the journal does to what it shows.
use simple_p2p_blockchain.Common.{
  [], ◌≡◌, refl, arith, fun_ext, true, false, if◌then◌else◌, some, Text, Text-discrete,
}
use simple_p2p_blockchain.Common.Maps
use simple_p2p_blockchain.Common.Maps.{
  Map, same, same→eq, same_refl, get-nil, get-set, get-delete, set-DistinctKeys,
}
use simple_p2p_blockchain.Evm.Journal.{TextSet, has, add, or_new, DiffItem, ripemd}
use simple_p2p_blockchain.Evm.Journal.Views.{
  Fact, warm_address, warm_storage, touched, View, view, undo, has_slot,
}

-- The operations, on what the journal shows.
abbrev pub warm : Text → View → View
warm a f (warm_address b) = if same Text-discrete a b then true else f (warm_address b)
warm a f (warm_storage b k) = f (warm_storage b k)
warm a f (touched b) = f (touched b)

abbrev pub warm_slot_of : Text → Text → View → View
warm_slot_of a k f (warm_address b) = f (warm_address b)
warm_slot_of a k f (warm_storage b j) =
    if same Text-discrete a b
    then (if same Text-discrete k j then true else f (warm_storage b j))
    else f (warm_storage b j)
warm_slot_of a k f (touched b) = f (touched b)

abbrev pub touch : Text → View → View
touch a f (warm_address b) = f (warm_address b)
touch a f (warm_storage b k) = f (warm_storage b k)
touch a f (touched b) =
    if same Text-discrete b ripemd
    then f (touched b)
    else if same Text-discrete a b
    then true
    else f (touched b)

has-add :
    (a b : Text) (s : TextSet)
    → has b (add a s) ≡ (if same Text-discrete a b then true else has b s)
has-add a b s = ground (arith, get-set Text-discrete a b tt s)

has_slot-set :
    (a : Text) (s : TextSet) (m : Map Text TextSet) (b k : Text)
    → has_slot b k (Maps.set Text-discrete a s m)
      ≡ (if same Text-discrete a b then has k s else has_slot b k m)
has_slot-set a s m b k = ground (arith, get-set Text-discrete a b s m)

has-set :
    (a : Text) (s : TextSet) (m : Map Text TextSet) (b : Text)
    → has b (Maps.set Text-discrete a s m) ≡ (if same Text-discrete a b then true else has b m)
has-set a s m b = ground (arith, get-set Text-discrete a b s m)

-- A change of what is shown that the latest item records.
abbrev pub Records : View → View → DiffItem → DiffItem → Type 0
Records v v' d d' = undo d' v' ≡ undo d v

module _ (m : Map Text TextSet) (t : TextSet) (d : DiffItem) (a : Text) where
  pub view-warm : has a m ≡ false → view (Maps.set Text-discrete a [] m) t ≡ warm a (view m t)
  view-warm cold = fun_ext at
    where
      at : (x : Fact) → view (Maps.set Text-discrete a [] m) t x ≡ warm a (view m t) x
      at (warm_address b) = has-set a [] m b
      at (warm_storage b k) = ground (
        arith,
        has_slot-set a [] m b k,
        get-nil {V = Unit {0}} Text-discrete k,
        same→eq Text-discrete a b,
        cold,
      )
      at (touched b) = refl

  pub undo-warm :
      has a m ≡ false
      → Records (view m t) (warm a (view m t)) d (record d { addresses = add a d.addresses })
  undo-warm cold = fun_ext at
    where
      at :
          (x : Fact)
          → undo (record d { addresses = add a d.addresses }) (warm a (view m t)) x
            ≡ undo d (view m t) x
      at (warm_address b) = ground (arith, has-add a b d.addresses, same→eq Text-discrete a b, cold)
      at (warm_storage b k) = ground (
        arith,
        has-add a b d.addresses,
        same→eq Text-discrete a b,
        get-nil {V = Unit {0}} Text-discrete k,
        cold,
      )
      at (touched b) = refl

  pub view-touch : view m (add a t) ≡ touch a (view m t)
  view-touch = fun_ext at
    where
      at : (x : Fact) → view m (add a t) x ≡ touch a (view m t) x
      at (warm_address b) = refl
      at (warm_storage b k) = refl
      at (touched b) = ground (arith, has-add a b t)

  pub undo-touch :
      has a t ≡ false
      → Records (view m t) (touch a (view m t)) d (record d { touched = add a d.touched })
  undo-touch cold = fun_ext at
    where
      at :
          (x : Fact)
          → undo (record d { touched = add a d.touched }) (touch a (view m t)) x
            ≡ undo d (view m t) x
      at (warm_address b) = refl
      at (warm_storage b k) = refl
      at (touched b) = ground (arith, has-add a b d.touched, same→eq Text-discrete a b, cold)

  -- What the item is after the slot became warm.
  abbrev pub with_slot : Text → DiffItem
  with_slot k = record d {
    slots = Maps.set Text-discrete a (add k (or_new (Maps.get Text-discrete a d.slots))) d.slots;
  }

  pub view-warm_slot :
      (k : Text) (slots : TextSet)
      → Maps.get Text-discrete a m ≡ some slots
      → view (Maps.set Text-discrete a (add k slots) m) t ≡ warm_slot_of a k (view m t)
  view-warm_slot k slots here = fun_ext at
    where
      at :
          (x : Fact)
          → view (Maps.set Text-discrete a (add k slots) m) t x ≡ warm_slot_of a k (view m t) x
      at (warm_address b) =
          ground (arith, has-set a (add k slots) m b, same→eq Text-discrete a b, here)
      at (warm_storage b j) = ground (
        arith,
        has_slot-set a (add k slots) m b j,
        has-add k j slots,
        same→eq Text-discrete a b,
        here,
      )
      at (touched b) = refl

  pub undo-warm_slot :
      (k : Text)
      → has_slot a k m ≡ false
      → Records (view m t) (warm_slot_of a k (view m t)) d (with_slot k)
  undo-warm_slot k cold = fun_ext at
    where
      at : (x : Fact) → undo (with_slot k) (warm_slot_of a k (view m t)) x ≡ undo d (view m t) x
      at (warm_address b) = refl
      at (warm_storage b j) = ground (
        arith,
        has_slot-set a (add k (or_new (Maps.get Text-discrete a d.slots))) d.slots b j,
        has-add k j (or_new (Maps.get Text-discrete a d.slots)),
        same→eq Text-discrete a b,
        same→eq Text-discrete k j,
        cold,
      )
      at (touched b) = refl
