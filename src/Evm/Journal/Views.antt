-- ===== src/Evm/Journal/Views.antt =====
-- What the journal shows, and what an item of its differences takes back.
use simple_p2p_blockchain.Common.{
  [], ◌∷◌, ◌≡◌, refl, arith, fun_ext, Bool, false, if◌then◌else◌, none, some, Text, Text-discrete,
  Option-cases, inl, inr, ◌⊎◌,
}
use simple_p2p_blockchain.Common.Maps
use simple_p2p_blockchain.Common.Maps.{Map, same, same→eq, same_refl, get-nil, get-set, get-delete}
use simple_p2p_blockchain.Evm.Journal.{
  TextSet, has, or_new, DiffItem, delete_all, delete_slots, untouch, ripemd,
}

-- What is asked of the journal. The touched precompile 0x3 stays touched, and is left out.
pub data Fact : Type 0 where
  warm_address : Text → Fact
  warm_storage : Text → Text → Fact
  touched : Text → Fact

abbrev pub View : Type 0
View = Fact → Bool

-- A slot of a map of sets.
abbrev pub has_slot : Text → Text → Map Text TextSet → Bool
has_slot a k m = has k (or_new (Maps.get Text-discrete a m))

abbrev pub view : Map Text TextSet → TextSet → View
view m t (warm_address a) = has a m
view m t (warm_storage a k) = has_slot a k m
view m t (touched a) = if same Text-discrete a ripemd then false else has a t

abbrev pub undo : DiffItem → View → View
undo d f (warm_address a) = if has a d.addresses then false else f (warm_address a)
undo d f (warm_storage a k) =
    if has a d.addresses
    then false
    else if has_slot a k d.slots
    then false
    else f (warm_storage a k)
undo d f (touched a) = if has a d.touched then false else f (touched a)

get-delete_all :
    {V : Type 0} (s : TextSet) (m : Map Text V) (a : Text)
    → Maps.get Text-discrete a (delete_all s m)
      ≡ (if has a s then none else Maps.get Text-discrete a m)
unfolding delete_all Maps.get
get-delete_all [] m a = refl
get-delete_all ((k, u) ∷ s) m a =
    ground
      (arith, get-delete_all s (Maps.delete Text-discrete k m) a, get-delete Text-discrete k a m)

has-untouch :
    (s t : TextSet) (a : Text)
    → (if same Text-discrete a ripemd then false else has a (untouch s t))
      ≡ (if has a s then false else if same Text-discrete a ripemd then false else has a t)
unfolding untouch Maps.get
has-untouch [] t a = refl
has-untouch ((k, u) ∷ s) t a = ground (
  arith,
  has-untouch s (if same Text-discrete k ripemd then t else Maps.delete Text-discrete k t) a,
  get-delete Text-discrete k a t,
  same→eq Text-discrete k a,
)

-- One round of the loop over the slots.
delete_slots-cases :
    (address : Text) (gone : TextSet) (m : Map Text TextSet)
    → ((Maps.get Text-discrete address m ≡ none)
        × ((rest : Map Text TextSet)
            → delete_slots ((address, gone) ∷ rest) m ≡ delete_slots rest m))
      ⊎ ((slots : TextSet) × (Maps.get Text-discrete address m ≡ some slots)
          × ((rest : Map Text TextSet)
              → delete_slots ((address, gone) ∷ rest) m
                ≡ delete_slots rest (Maps.set Text-discrete address (delete_all gone slots) m)))
unfolding delete_slots
delete_slots-cases address gone m = elim (Option-cases (Maps.get Text-discrete address m)) [
  | inl miss ↦ inl (miss, λ rest. rw miss)
  | inr (slots, hit) ↦ inr (slots, hit, λ rest. rw hit)
]

has-delete_slots : (ss m : Map Text TextSet) (a : Text) → has a (delete_slots ss m) ≡ has a m
has-delete_slots [] m a = unfold delete_slots in refl
has-delete_slots ((address, gone) ∷ ss) m a = elim (delete_slots-cases address gone m) [
  | inl (miss, e) ↦ rw (e ss) (has-delete_slots ss m a)
  | inr (slots, hit, e) ↦ ground (
    arith,
    e ss,
    hit,
    has-delete_slots ss (Maps.set Text-discrete address (delete_all gone slots) m) a,
    get-set Text-discrete address a (delete_all gone slots) m,
    same→eq Text-discrete address a,
  )
]

has_slot-delete_slots :
    (ss m : Map Text TextSet)
    → Maps.DistinctKeys Text-discrete ss
    → (a k : Text)
    → has_slot a k (delete_slots ss m) ≡ (if has_slot a k ss then false else has_slot a k m)
unfolding Maps.get
has_slot-delete_slots [] m h a k = unfold delete_slots in refl
has_slot-delete_slots ((address, gone) ∷ ss) m h a k = elim (delete_slots-cases address gone m) [
  | inl (miss, e) ↦
      ground (
        arith,
        e ss,
        miss,
        h.0,
        has_slot-delete_slots ss m h.1 a k,
        same→eq Text-discrete address a,
      )
  | inr (slots, hit, e) ↦ ground (
    arith,
    e ss,
    hit,
    h.0,
    has_slot-delete_slots ss (Maps.set Text-discrete address (delete_all gone slots) m) h.1 a k,
    get-set Text-discrete address a (delete_all gone slots) m,
    get-delete_all gone slots k,
    same→eq Text-discrete address a,
  )
]

-- `revert` of one item.
pub view-undo_item :
    (d : DiffItem) (m : Map Text TextSet) (t : TextSet)
    → Maps.DistinctKeys Text-discrete d.slots
    → view (delete_slots d.slots (delete_all d.addresses m)) (untouch d.touched t)
      ≡ undo d (view m t)
view-undo_item d m t h = fun_ext at
  where
    at :
        (x : Fact)
        → view (delete_slots d.slots (delete_all d.addresses m)) (untouch d.touched t) x
          ≡ undo d (view m t) x
    at (warm_address a) = ground (
      arith,
      has-delete_slots d.slots (delete_all d.addresses m) a,
      get-delete_all d.addresses m a,
    )
    at (warm_storage a k) = ground (
      arith,
      has_slot-delete_slots d.slots (delete_all d.addresses m) h a k,
      get-delete_all d.addresses m a,
      get-nil {V = Unit {0}} Text-discrete k,
    )
    at (touched a) = has-untouch d.touched t a
