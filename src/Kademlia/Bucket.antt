-- ===== src/Kademlia/Bucket.antt =====
-- packages/kademlia/src/bucket.ts: the tree of buckets.
pub mod Bits
pub mod Leaves
pub mod Lookup
pub mod Depth
pub mod OneLeaf
pub mod Adding
pub mod Answers
pub mod Ends
use simple_p2p_blockchain.Common.{
  ℕ, zero, suc, ◌+◌, ◌-◌, ◌/◌, ◌%◌, ◌^◌, bit_and, Bool, true, false, not, ◌&&◌, List, [], ◌∷◌, ◌++◌,
  Option, none, some, ltb, leb, ◌==◌, if◌then◌else◌, length, get_or, get_elem?, take,
}
use simple_p2p_blockchain.Kademlia.{Contact}

-- `KBucketNode`: `contacts` is null in an inner node, and `left` and `right` are in a leaf.
pub data Node : Type 0 where
  leaf : List Contact → Bool → Node
  inner : Node → Node → Node

unfoldable pub create_node : Node
create_node = leaf [] false

pub data Event : Type 0 where
  added : Contact → Event
  removed : Contact → Event
  updated : Contact → Contact → Event
  ping : List Contact → Contact → Event

pub record KBucket : Type 0 where
  pub local_node_id : List ℕ
  pub nodes_per_bucket : ℕ
  pub nodes_to_ping : ℕ
  pub root : Node

-- The constructor, with the options given; the defaults are 16 and 6.
unfoldable pub new_bucket : List ℕ → ℕ → ℕ → KBucket
unfolding create_node
new_bucket local_id per_bucket to_ping = record {
  local_node_id = local_id;
  nodes_per_bucket = per_bucket;
  nodes_to_ping = to_ping;
  root = create_node;
}

-- `incumbent.vectorClock > candidate.vectorClock`, which is false where one is undefined.
unfoldable pub newer : Contact → Contact → Bool
newer incumbent candidate = elim incumbent.vector_clock [
  | none ↦ false
  | some m ↦ elim candidate.vector_clock [ none ↦ false | some n ↦ ltb n m ]
]

unfoldable pub arbiter : Contact → Contact → Contact
arbiter incumbent candidate = if newer incumbent candidate then incumbent else candidate

-- `_determineNode`: whether the right child is meant. A byte past the end is undefined, and has no
-- bit set.
unfoldable pub goes_right : List ℕ → ℕ → Bool
goes_right id bit_index =
    if leb (length id) (bit_index / 8) && not (bit_index % 8 == 0)
    then false
    else not (bit_and (get_or id (bit_index / 8) 0) (2 ^ (7 - bit_index % 8)) == 0)

-- The loop `while (node.contacts === null)`: the contacts, `noSplit` and the bit index at the end.
unfoldable pub find_leaf : List ℕ → ℕ → Node → List Contact × Bool × ℕ
find_leaf id bit (leaf contacts no_split) = (contacts, no_split, bit)
find_leaf id bit (inner left right) =
    let l = find_leaf id (bit + 1) left in
    let r = find_leaf id (bit + 1) right in if goes_right id bit then r else l

-- A change of the node that this loop finds.
unfoldable pub at_leaf : (List Contact → Bool → ℕ → Node) → List ℕ → ℕ → Node → Node
at_leaf f id bit (leaf contacts no_split) = f contacts no_split bit
at_leaf f id bit (inner left right) =
    let l = at_leaf f id (bit + 1) left in
    let r = at_leaf f id (bit + 1) right in
    if goes_right id bit then inner left r else inner l right

-- `contacts.splice(index, 1)`
unfoldable pub remove_at : List Contact → ℕ → List Contact
remove_at [] i = []
remove_at (c ∷ cs) zero = cs
remove_at (c ∷ cs) (suc i) = c ∷ remove_at cs i

-- The contacts that `_split` hands to one of the two new nodes.
unfoldable pub redistribute : Bool → ℕ → List Contact → List Contact
redistribute side bit [] = []
redistribute side bit (c ∷ cs) =
    let rest = redistribute side bit cs in
    if goes_right c.id bit
    then (if side then c ∷ rest else rest)
    else (if side then rest else c ∷ rest)

-- `_split`: the node on the other side than the local one is not split again.
unfoldable pub split : List ℕ → List Contact → ℕ → Node
unfolding redistribute
split local_id contacts bit =
    let local_right = goes_right local_id bit in
    inner (leaf (redistribute false bit contacts) local_right)
      (leaf (redistribute true bit contacts) (not local_right))

-- `toArray`, `toIterable` and `count`: the contacts from left to right.
unfoldable pub to_array : Node → List Contact
to_array (leaf contacts no_split) = contacts
to_array (inner left right) = to_array left ++ to_array right

unfoldable pub count : Node → ℕ
count (leaf contacts no_split) = length contacts
count (inner left right) = count left + count right

-- `equals` is `equalsBytes` of ethereum-cryptography.
module _ (equals : List ℕ → List ℕ → Bool) where
  -- `_indexOf`; `none` is -1.
  unfoldable pub index_of : List Contact → List ℕ → Option ℕ
  index_of [] id = none
  index_of (c ∷ cs) id =
      if equals c.id id
      then some 0
      else elim (index_of cs id) [ none ↦ none | some i ↦ some (suc i) ]

  unfoldable pub get : List ℕ → KBucket → Option Contact
  get id kb =
      let (contacts, no_split, bit) = find_leaf id 0 kb.root in
      elim (index_of contacts id) [ none ↦ none | some i ↦ get_elem? contacts i ]

  -- `_update`, whose two guards hold where `add` calls it: the index is that of the id, in a leaf. That
  -- the arbiter chose the incumbent, and not the same object as the contact, is that
  -- the incumbent's clock is newer.
  unfoldable pub update_contact : List Contact → ℕ → Contact → List Contact × List Event
  update_contact contacts index contact = elim (get_elem? contacts index) [
    | none ↦ (contacts, [])
    | some incumbent ↦ if newer incumbent contact then (contacts, []) else (
      remove_at contacts index ++ arbiter incumbent contact ∷ [],
      updated incumbent (arbiter incumbent contact) ∷ [],
    )
  ]

  -- `add` with the contacts at the node, its `noSplit`, what the call after a split returns, and
  -- the index that was found.
  unfoldable pub add_at :
      Contact
      → KBucket
      → List Contact
      → Bool
      → Option (KBucket × List Event)
      → Option ℕ
      → Option (KBucket × List Event)
  add_at contact kb contacts no_split again (some index) =
      let (new_contacts, events) = update_contact contacts index contact in
      some (
        record kb { root = at_leaf (λ cs ns b. leaf new_contacts ns) contact.id 0 kb.root },
        events,
      )
  add_at contact kb contacts no_split again none =
      if ltb (length contacts) kb.nodes_per_bucket
      then some (
        record kb {
          root = at_leaf (λ cs ns b. leaf (contacts ++ contact ∷ []) ns) contact.id 0 kb.root;
        },
        added contact ∷ [],
      )
      else if no_split
      then some (kb, ping (take kb.nodes_to_ping contacts) contact ∷ [])
      else again

  -- `add`, of a contact with an id; one round of fuel for each call of itself after a split, `none` if it runs out.
  unfoldable pub add : ℕ → Contact → KBucket → Option (KBucket × List Event)
  add zero contact kb = none
  add (suc fuel) contact kb =
      let (contacts, no_split, bit) = find_leaf contact.id 0 kb.root in
      let again = add fuel contact (record kb {
        root = at_leaf (λ cs ns b. split kb.local_node_id cs b) contact.id 0 kb.root;
      }) in
      add_at contact kb contacts no_split again (index_of contacts contact.id)

  unfoldable pub remove : List ℕ → KBucket → KBucket × List Event
  remove id kb =
      let (contacts, no_split, bit) = find_leaf id 0 kb.root in
      elim (index_of contacts id) [
        | none ↦ (kb, [])
        | some index ↦ (
          record kb { root = at_leaf (λ cs ns b. leaf (remove_at contacts index) ns) id 0 kb.root },
          elim (get_elem? contacts index) [ none ↦ [] | some c ↦ removed c ∷ [] ],
        )
      ]
