-- ===== src/Evm/TransientStorage/Views.antt =====
-- What the storage shows at each address and key, and what a change does to it.
use simple_p2p_blockchain.Common.{
  ℕ, List, ◌≡◌, ◌&&◌, none, some, if◌then◌else◌, ok, arith, fun_ext, Bool-cases, inl, inr,
}
use simple_p2p_blockchain.Common.Maps
use simple_p2p_blockchain.Common.Maps.{Map, same, get-set, get-nil, same→eq}
use simple_p2p_blockchain.Evm.TransientStorage.{
  Text, Text-discrete, Storage, Modification, zero_word, or_zero, map_of, undo,
}

abbrev pub View : Type 0
View = Text → Text → List ℕ

unfoldable pub view : Storage → View
view storage addr key = elim (Maps.get Text-discrete addr storage) [
  | none ↦ zero_word
  | some map ↦ or_zero (Maps.get Text-discrete key map)
]

unfoldable pub update : Text → Text → List ℕ → View → View
update addr key v f a k = if same Text-discrete addr a && same Text-discrete key k then v else f a k

-- A write at one address and key.
pub view-set :
    (addr key : Text) (v : List ℕ) (storage : Storage) (a k : Text)
    → view
        (Maps.set Text-discrete addr (Maps.set Text-discrete key v (map_of addr storage)) storage)
        a
        k
      ≡ update addr key v (view storage) a k
unfolding view update map_of
view-set addr key v storage a k = ground (
  arith,
  get-set Text-discrete addr a (Maps.set Text-discrete key v (map_of addr storage)) storage,
  get-set Text-discrete key k v (map_of addr storage),
  get-nil {V = List ℕ} Text-discrete k,
  same→eq Text-discrete addr a,
)

map_of-some :
    (addr : Text) (storage : Storage) (m : Map Text (List ℕ))
    → Maps.get Text-discrete addr storage ≡ some m
    → map_of addr storage ≡ m
unfolding map_of
map_of-some addr storage m e = ground arith

-- Every change of the journal is at an address that has a map.
abbrev pub Mapped : Storage → Modification → Type 0
Mapped storage c = (m : Map Text (List ℕ)) × (Maps.get Text-discrete c.addr storage ≡ some m)

pub Mapped-set :
    (addr : Text) (m : Map Text (List ℕ)) (storage : Storage) (d : Modification)
    → Mapped storage d
    → Mapped (Maps.set Text-discrete addr m storage) d
Mapped-set addr m storage d (n, at_d) = elim (Bool-cases (same Text-discrete addr d.addr)) [
  | inl hit ↦ (m, rw (get-set, hit))
  | inr miss ↦ (n, rw (get-set, miss) at_d)
]

pub undo_lem :
    (c : Modification) (storage : Storage)
    → Mapped storage c
    → (next : Storage) × (undo c storage ≡ ok next)
      × (view next ≡ update c.addr c.key c.prev_value (view storage))
      × ((e : Modification) → Mapped storage e → Mapped next e)
unfolding undo
undo_lem c storage (m, e) = (
  Maps.set Text-discrete c.addr (Maps.set Text-discrete c.key c.prev_value m) storage,
  rw (e, undo),
  fun_ext λ a.
      fun_ext λ k.
        rw (map_of-some c.addr storage m e) at (view-set c.addr c.key c.prev_value storage a k),
  λ d at_d. Mapped-set c.addr _ storage d at_d,
)
