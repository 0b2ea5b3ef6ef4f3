-- ===== src/Evm/Journal.antt =====
-- packages/evm/src/journal.ts: warm addresses and slots, touched accounts, and what reverts them.
pub mod Views
pub mod Changes
pub mod Tracking
pub mod Warming
pub mod Reverting
pub mod Levels
pub mod Calls
use simple_p2p_blockchain.Common.{
  ℕ, zero, suc, ◌+◌, List, [], ◌∷◌, ◌++◌, Bool, true, false, ◌||◌, ltb, if◌then◌else◌, Option, none,
  some, replicate, Text, Text-discrete,
}
use simple_p2p_blockchain.Common.Maps
use simple_p2p_blockchain.Common.Maps.{Map, same}
use simple_p2p_blockchain.Checkpoints.{◌>>=◌}

-- A `Set` of texts. Addresses and slots are hexadecimal without a prefix, as in the source's maps.
abbrev pub TextSet : Type 0
TextSet = Map Text (Unit {0})

-- `map.has(k)`
abbrev pub has : {V : Type 0} → Text → Map Text V → Bool
has k m = elim (Maps.get Text-discrete k m) [ none ↦ false | some v ↦ true ]

abbrev pub add : Text → TextSet → TextSet
add k s = Maps.set Text-discrete k tt s

-- `map.get(k)!` read only after it was set, or a new `Set`.
abbrev pub or_new : Option TextSet → TextSet
or_new none = []
or_new (some s) = s

-- `JournalDiffItem`: the addresses and slots that became warm, and the accounts that became touched.
pub record DiffItem : Type 0 where
  pub addresses : TextSet
  pub slots : Map Text TextSet
  pub touched : TextSet

abbrev pub empty_diff : DiffItem
empty_diff = record { addresses = []; slots = []; touched = [] }

-- `journalDiff` has the latest item first.
pub record Journal : Type 0 where
  pub journal : Map Text TextSet
  pub always_warm : Map Text TextSet
  pub touched : TextSet
  pub diffs : List (ℕ × DiffItem)
  pub height : ℕ
  pub access_list : Option (Map Text TextSet)

abbrev pub new_journal : Journal
new_journal = record {
  journal = [];
  always_warm = [];
  touched = [];
  diffs = (0, empty_diff) ∷ [];
  height = 0;
  access_list = none;
}

unfoldable pub clean_journal : Journal → Journal
clean_journal j = record j {
  journal = [];
  always_warm = [];
  touched = [];
  diffs = (0, empty_diff) ∷ [];
  height = 0;
}

unfoldable pub start_reporting_access_list : Journal → Journal
start_reporting_access_list j = record j { access_list = some [] }

-- A change of `this.journalDiff[this.journalDiff.length - 1][1]`.
unfoldable pub change_last :
    (DiffItem → DiffItem) → List (ℕ × DiffItem) → Option (List (ℕ × DiffItem))
change_last change [] = none
change_last change ((k, d) ∷ diffs) = some ((k, change d) ∷ diffs)

-- `touchAccount`, where preimages are not reported.
unfoldable pub touch_account : Text → Journal → Option Journal
touch_account address j = elim (has address j.touched) [
  | true ↦ some j
  | false ↦ change_last (λ d. record d { touched = add address d.touched }) j.diffs >>= λ diffs.
      some (record j { touched = add address j.touched; diffs = diffs })
]

-- The part of `addWarmedAddress` for the access list.
unfoldable pub list_address : Text → Journal → Journal
list_address address j = elim j.access_list [
  | none ↦ j
  | some list ↦ record j { access_list = some (Maps.set_absent Text-discrete address [] list) }
]

unfoldable pub add_warmed_address : Text → Journal → Option Journal
add_warmed_address address j = do
  i ← elim (has address j.journal) [
    | true ↦ some j
    | false ↦
        change_last (λ d. record d { addresses = add address d.addresses }) j.diffs >>= λ diffs.
        some (record j { journal = Maps.set Text-discrete address [] j.journal; diffs = diffs })
  ]
  some (list_address address i)

-- The middle of `addWarmedStorage`, from `const slotStr` on.
unfoldable pub warm_slot : Text → Text → Journal → Option Journal
warm_slot address slot j = elim (Maps.get Text-discrete address j.journal) [
  | none ↦ none
  | some slots ↦ elim (has slot slots) [
    | true ↦ some j
    | false ↦
        change_last
          (λ d. record d {
            slots =
                Maps.set Text-discrete address
                  (add slot (or_new (Maps.get Text-discrete address d.slots))) d.slots;
          })
          j.diffs
        >>= λ diffs. some (record j {
          journal = Maps.set Text-discrete address (add slot slots) j.journal;
          diffs = diffs;
        })
  ]
]

-- The part of `addWarmedStorage` for the access list.
unfoldable pub list_slot : Text → Text → Journal → Option Journal
list_slot address slot j = elim j.access_list [
  | none ↦ some j
  | some list ↦ elim (Maps.get Text-discrete address list) [
    | none ↦ none
    | some slots ↦
        some
          (record j { access_list = some (Maps.set Text-discrete address (add slot slots) list) })
  ]
]

unfoldable pub add_warmed_storage : Text → Text → Journal → Option Journal
add_warmed_storage address slot j = do
  i ← elim (has address j.journal) [ true ↦ some j | false ↦ add_warmed_address address j ]
  h ← warm_slot address slot i
  list_slot address slot h

unfoldable pub is_warmed_address : Text → Journal → Bool
is_warmed_address address j = has address j.journal || has address j.always_warm

unfoldable pub is_warmed_storage : Text → Text → Journal → Bool
is_warmed_storage address slot j =
    let always = elim (Maps.get Text-discrete address j.always_warm) as (λ o. Bool) [
      | none ↦ false
      | some slots ↦ has slot slots
    ] in
    elim (Maps.get Text-discrete address j.journal) [
      | none ↦ always
      | some slots ↦ if has slot slots then true else always
    ]

-- Both on texts without a prefix, of which `stripHexPrefix` takes nothing off.
unfoldable pub add_always_warm_address : Text → Bool → Journal → Journal
add_always_warm_address address to_list j =
    let i = record j { always_warm = Maps.set_absent Text-discrete address [] j.always_warm } in
    if to_list then list_address address i else i

unfoldable pub add_always_warm_slot : Text → Text → Bool → Journal → Option Journal
add_always_warm_slot address slot to_list j =
    let i = add_always_warm_address address to_list j in
    let slots = or_new (Maps.get Text-discrete address i.always_warm) in
    let h = record i {
      always_warm = Maps.set Text-discrete address (add slot slots) i.always_warm;
    } in
    if to_list then list_slot address slot h else some h

unfoldable pub checkpoint : Journal → Journal
checkpoint j = record j { diffs = (suc j.height, empty_diff) ∷ j.diffs; height = suc j.height }

-- `none`: without a checkpoint the state manager throws.
unfoldable pub commit : Journal → Option Journal
commit j = elim j.height [
  | zero ↦ none
  | suc h ↦ some (record j { diffs = (h, empty_diff) ∷ j.diffs; height = h })
]

-- The loops of `revert` over one item.
unfoldable pub delete_all : {V : Type 0} → TextSet → Map Text V → Map Text V
delete_all [] m = m
delete_all ((k, u) ∷ s) m = delete_all s (Maps.delete Text-discrete k m)

unfoldable pub delete_slots : Map Text TextSet → Map Text TextSet → Map Text TextSet
delete_slots [] m = m
delete_slots ((address, del_slots) ∷ rest) m =
    delete_slots rest (elim (Maps.get Text-discrete address m) [
      | none ↦ m
      | some slots ↦ Maps.set Text-discrete address (delete_all del_slots slots) m
    ])

-- `RIPEMD160_ADDRESS_STRING`, 39 digits 0 and a 3.
abbrev pub ripemd : Text
ripemd = replicate 39 48 ++ (51 ∷ [])

unfoldable pub untouch : TextSet → TextSet → TextSet
untouch [] t = t
untouch ((address, u) ∷ s) t =
    untouch s (if same Text-discrete address ripemd then t else Maps.delete Text-discrete address t)

unfoldable pub undo_item : DiffItem → Journal → Journal
undo_item d j = record j {
  journal = delete_slots d.slots (delete_all d.addresses j.journal);
  touched = untouch d.touched j.touched;
}

-- The loop of `revert` and the `slice` after it: at the first item the loop ends in any case.
unfoldable pub undo_down : ℕ → List (ℕ × DiffItem) → Journal → Journal
undo_down h [] j = record j { diffs = [] }
undo_down h ((k, d) ∷ []) j = record (if ltb k h then j else undo_item d j) { diffs = (k, d) ∷ [] }
undo_down h ((k, d) ∷ e ∷ ds) j =
    let rest = undo_down h (e ∷ ds) (undo_item d j) in
    if ltb k h then record j { diffs = (k, d) ∷ e ∷ ds } else rest

unfoldable pub revert : Journal → Option Journal
revert j = elim j.height [
  | zero ↦ none
  | suc h ↦ some (record (undo_down (suc h) j.diffs j) { height = h })
]

-- The loop of `cleanup`: the touched accounts that are missing or empty, which `is_gone` tells, are
-- deleted. They are touched already, so that the deletion touches nothing more.
unfoldable pub deleted_accounts : (Text → Bool) → TextSet → List Text
deleted_accounts is_gone [] = []
deleted_accounts is_gone ((address, u) ∷ touched) =
    let rest = deleted_accounts is_gone touched in if is_gone address then address ∷ rest else rest

-- The flag is `gteHardfork(Hardfork.SpuriousDragon)`.
unfoldable pub cleanup : Bool → (Text → Bool) → Journal → List Text × Journal
cleanup spurious_dragon is_gone j = (
  if spurious_dragon then deleted_accounts is_gone j.touched else [],
  record (clean_journal j) { access_list = none },
)
