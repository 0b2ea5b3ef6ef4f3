-- ===== src/Kademlia/Bucket/Answers.antt =====
-- `add` and `remove` on a tree in order: what each id is answered afterwards.
use simple_p2p_blockchain.Common.{
  ℕ, zero, suc, ◌<◌, ◌≤◌, ◌≡◌, ◌⊎◌, refl, sym, ap, ◌∙◌, subst, arith, Bool, true, false, List, [],
  ◌∷◌, ◌++◌, Option, none, some, ltb, ltb→lt, if◌then◌else◌, length, take, get_elem?, Bool-cases,
  inl, inr, All, All-append, length-append,
}
use simple_p2p_blockchain.Kademlia.{Contact}
use simple_p2p_blockchain.Kademlia.Bucket.{
  leaf, find_leaf, at_leaf, split, KBucket, Event, added, ping, removed, arbiter, index_of, get,
  add, add_at, remove, remove_at, update_contact,
}
use simple_p2p_blockchain.Kademlia.Bucket.Leaves.{
  DecidesEquality, find, Distinct, index_of-cases, length-remove_at, All-remove_at,
}
use simple_p2p_blockchain.Kademlia.Bucket.Lookup.{
  find_leaf-WellPlaced, get_in-at_leaf_other, at_leaf-WellPlaced,
}
use simple_p2p_blockchain.Kademlia.Bucket.OneLeaf.{
  Changes, append-Changes, remove_at-Changes, update_contact-Changes, update_contact-length,
  update_contact-All,
}
use simple_p2p_blockchain.Kademlia.Bucket.Adding.{
  AnyId, IsValid, get-eq-get_in, replaced_self, replaced_other, replaced-WellPlaced, get_in-split,
  split-WellPlaced,
}

module _ (equals : List ℕ → List ℕ → Bool) (fuel : ℕ) (contact : Contact) (kb : KBucket) where
  abbrev pub now : List Contact
  now = (find_leaf contact.id 0 kb.root).0

  abbrev with_leaf : List Contact → KBucket
  with_leaf new = record kb { root = at_leaf (λ cs ns b. leaf new ns) contact.id 0 kb.root }

  abbrev pub after_split : KBucket
  after_split = record kb {
    root = at_leaf (λ cs ns b. split kb.local_node_id cs b) contact.id 0 kb.root;
  }

  pub add-found :
      (i : ℕ)
      → index_of equals now contact.id ≡ some i
      → add equals (suc fuel) contact kb
        ≡ some (
          with_leaf (update_contact equals now i contact).0,
          (update_contact equals now i contact).1,
        )
  unfolding add add_at
  add-found i e = rw e

  module _ (e : index_of equals now contact.id ≡ none) where
    pub add-room :
        ltb (length now) kb.nodes_per_bucket ≡ true
        → add equals (suc fuel) contact kb
          ≡ some (with_leaf (now ++ contact ∷ []), added contact ∷ [])
    unfolding add add_at
    add-room t = rw e (rw t)

    module _ (t : ltb (length now) kb.nodes_per_bucket ≡ false) where
      pub add-ping :
          (find_leaf contact.id 0 kb.root).1 ≡ true
          → add equals (suc fuel) contact kb
            ≡ some (kb, ping (take kb.nodes_to_ping now) contact ∷ [])
      unfolding add add_at
      add-ping u = rw e (rw (t, u))

      pub add-split :
          (find_leaf contact.id 0 kb.root).1 ≡ false
          → add equals (suc fuel) contact kb ≡ add equals fuel contact after_split
      unfolding add add_at
      add-split u = rw e (rw (t, u))

module _ (equals : List ℕ → List ℕ → Bool) (kb : KBucket) where
  remove-found :
      (id : List ℕ) (i : ℕ) (c : Contact)
      → index_of equals (find_leaf id 0 kb.root).0 id ≡ some i
      → get_elem? (find_leaf id 0 kb.root).0 i ≡ some c
      → remove equals id kb ≡ (
        record kb {
          root = at_leaf (λ cs ns b. leaf (remove_at (find_leaf id 0 kb.root).0 i) ns) id 0 kb.root;
        },
        removed c ∷ [],
      )
  unfolding remove
  remove-found id i c e g = ground arith

  remove-missing :
      (id : List ℕ)
      → index_of equals (find_leaf id 0 kb.root).0 id ≡ none
      → remove equals id kb ≡ (kb, [])
  unfolding remove
  remove-missing id e = ground arith

module _ (equals : List ℕ → List ℕ → Bool) (spec : DecidesEquality equals) where
  -- The tree is in order, and no other id is answered differently.
  abbrev Elsewhere : List ℕ → KBucket → KBucket → Type 0
  Elsewhere id kb kb' =
      IsValid equals spec kb'
      × ((j : List ℕ) → equals id j ≡ false → get equals j kb' ≡ get equals j kb)

  -- The same in one equation.
  abbrev pub OthersSame : List ℕ → KBucket → KBucket → Type 0
  OthersSame id kb kb' =
      IsValid equals spec kb'
      × ((j : List ℕ)
          → get equals j kb' ≡ (if equals id j then get equals id kb' else get equals j kb))

  Elsewhere-OthersSame :
      (id : List ℕ) (kb kb' : KBucket) → Elsewhere id kb kb' → OthersSame id kb kb'
  Elsewhere-OthersSame id kb kb' (valid, others) = (
    valid,
    λ j. elim (Bool-cases (equals id j)) [
      | inl e ↦ rw e (ap (λ i. get equals i kb') (sym ((spec id j).0 e)))
      | inr e ↦ rw e (others j e)
    ],
  )

  module _ (id : List ℕ) (kb : KBucket) (valid : IsValid equals spec kb) (new : List Contact) where
    abbrev old_contacts : List Contact
    old_contacts = (find_leaf id 0 kb.root).0

    abbrev new_kb : KBucket
    new_kb = record kb { root = at_leaf (λ cs ns b. leaf new ns) id 0 kb.root }

    -- A change of one leaf at one id.
    changed_leaf :
        (contact : Contact) (answer : Option Contact)
        → contact.id ≡ id
        → Changes equals spec contact old_contacts new answer
        → length new ≤ kb.nodes_per_bucket
        → ((Q : List ℕ → Type 0) → Q id → All (λ c. Q c.id) old_contacts → All (λ c. Q c.id) new)
        → Elsewhere id kb new_kb × (get equals id new_kb ≡ answer)
    changed_leaf contact answer same change size keep = (
      (
        replaced-WellPlaced equals spec kb.nodes_per_bucket kb.root id (λ cs. new) size change.0
            keep valid,
        λ j ne.
            get-eq-get_in equals spec j new_kb
            ∙ replaced_other equals spec kb.nodes_per_bucket kb.root id (λ cs. new) j
                (change.2 j (rw same ne))
            ∙ sym (get-eq-get_in equals spec j kb),
      ),
      get-eq-get_in equals spec id new_kb
          ∙ replaced_self equals spec kb.nodes_per_bucket kb.root id (λ cs. new)
          ∙ (rw same at change.1),
    )

  module _ (contact : Contact) where
    -- What `add` promises, by what the bucket held.
    abbrev pub Added : KBucket → KBucket → List Event → Type 0
    Added kb kb' events =
        ((old : Contact) × (get equals contact.id kb ≡ some old)
          × (get equals contact.id kb' ≡ some (arbiter old contact)))
        ⊎ ((get equals contact.id kb ≡ none)
            × (get equals contact.id kb' ≡ some contact)
            × (events ≡ added contact ∷ []))
        ⊎ ((get equals contact.id kb ≡ none)
            × (get equals contact.id kb' ≡ none)
            × ((asked : List Contact) × (events ≡ ping asked contact ∷ [])))

    -- The three ways `add` ends, and its call of itself, at the tree that it finds.
    module _ (kb : KBucket) (valid : IsValid equals spec kb) where
      abbrev stands : List Contact
      stands = (find_leaf contact.id 0 kb.root).0

      stands-Distinct : (length stands ≤ kb.nodes_per_bucket) × Distinct equals stands
      stands-Distinct =
          find_leaf-WellPlaced equals kb.nodes_per_bucket contact.id 0 kb.root AnyId valid

      update_Elsewhere :
          (i : ℕ) (old : Contact)
          → get_elem? stands i ≡ some old
          → find equals stands contact.id ≡ some old
          → old.id ≡ contact.id
          → i < length stands
          → let new = (update_contact equals stands i contact).0 in
            Elsewhere contact.id kb (new_kb contact.id kb valid new)
            × (get equals contact.id (new_kb contact.id kb valid new) ≡ some (arbiter old contact))
      update_Elsewhere i old at_i found same lt =
          changed_leaf contact.id kb valid (update_contact equals stands i contact).0 contact
            (some (arbiter old contact)) refl
            (update_contact-Changes equals spec contact stands i old at_i same stands-Distinct.1
              found)
            (omega (
              arith,
              update_contact-length equals spec contact stands i old at_i same stands-Distinct.1 lt,
              stands-Distinct.0,
            ))
            (update_contact-All equals spec contact stands i old at_i same stands-Distinct.1)

      append_Elsewhere :
          find equals stands contact.id ≡ none
          → ltb (length stands) kb.nodes_per_bucket ≡ true
          → Elsewhere contact.id kb (new_kb contact.id kb valid (stands ++ contact ∷ []))
            × (get equals contact.id (new_kb contact.id kb valid (stands ++ contact ∷ []))
                ≡ some contact)
      append_Elsewhere missing room =
          changed_leaf contact.id kb valid (stands ++ contact ∷ []) contact (some contact) refl
            (append-Changes equals spec contact stands stands-Distinct.1 missing)
            (rw length-append (omega (arith, ltb→lt (length stands) kb.nodes_per_bucket room)))
            (λ Q q h. All-append (λ c. Q c.id) stands (contact ∷ []) h (q, tt))

      pub split_same :
          IsValid equals spec (after_split equals zero contact kb)
          × ((j : List ℕ) → get equals j (after_split equals zero contact kb) ≡ get equals j kb)
      split_same = (
        at_leaf-WellPlaced equals (λ cs ns b. split kb.local_node_id cs b) contact.id
            kb.nodes_per_bucket 0 kb.root AnyId tt
            (λ Q q w.
              split-WellPlaced equals spec kb.nodes_per_bucket kb.local_node_id stands
                (find_leaf contact.id 0 kb.root).2 (find_leaf contact.id 0 kb.root).1 Q w)
            valid,
        λ j.
            get-eq-get_in equals spec j (after_split equals zero contact kb)
            ∙ get_in-at_leaf_other equals (λ cs ns b. split kb.local_node_id cs b) contact.id j 0
                kb.root
                (get_in-split equals spec kb.local_node_id j stands
                  (find_leaf contact.id 0 kb.root).2)
            ∙ sym (get-eq-get_in equals spec j kb),
      )

    abbrev Promise : KBucket → KBucket × List Event → Type 0
    Promise kb r = Elsewhere contact.id kb r.0 × Added kb r.0 r.1

    promised :
        (kb : KBucket) (x r : KBucket × List Event) → some x ≡ some r → Promise kb x → Promise kb r
    promised kb x r e p = let ends : x ≡ r = cc in subst (Promise kb) ends p

    answer_before :
        (kb : KBucket) (valid : IsValid equals spec kb) (x : Option Contact)
        → find equals (stands kb valid) contact.id ≡ x
        → get equals contact.id kb ≡ x
    answer_before kb valid x e = get-eq-get_in equals spec contact.id kb ∙ e

    -- What a call after the split promises is promised of the tree before it.
    Promise-after_split :
        (kb : KBucket) (valid : IsValid equals spec kb) (r : KBucket × List Event)
        → Promise (after_split equals zero contact kb) r
        → Promise kb r
    Promise-after_split kb valid r ((well, others), answers) =
        let same = (split_same kb valid).1 in
        (
          (well, λ j ne. others j ne ∙ same j),
          elim answers [
            | inl (old, was, is) ↦ inl (old, sym (same contact.id) ∙ was, is)
            | inr (inl (was, is, ev)) ↦ inr (inl (sym (same contact.id) ∙ was, is, ev))
            | inr (inr (was, is, ev)) ↦ inr (inr (sym (same contact.id) ∙ was, is, ev))
          ],
        )

    add-Promise :
        (fuel : ℕ) (kb : KBucket) (r : KBucket × List Event)
        → IsValid equals spec kb
        → add equals fuel contact kb ≡ some r
        → Promise kb r
    add-Promise zero kb r valid e = absurd (unfold add in cc)
    add-Promise (suc fuel) kb r valid e =
        elim (index_of-cases equals spec (stands kb valid) contact.id) [
          | inr (i, old, hit, at_i, found, same, lt) ↦
              let (there, answer) = update_Elsewhere kb valid i old at_i found same lt in
              promised kb _ r (sym (add-found equals fuel contact kb i hit) ∙ e)
                (there, inl (old, answer_before kb valid (some old) found, answer))
          | inl (miss, missing) ↦
              let before = answer_before kb valid none missing in
              elim (Bool-cases (ltb (length (stands kb valid)) kb.nodes_per_bucket)) [
                | inl room ↦
                    let (there, answer) = append_Elsewhere kb valid missing room in
                    promised kb _ r (sym (add-room equals fuel contact kb miss room) ∙ e)
                      (there, inr (inl (before, answer, refl)))
                | inr full ↦ elim (Bool-cases (find_leaf contact.id 0 kb.root).1) [
                  | inl no_split ↦
                      promised kb _ r (sym (add-ping equals fuel contact kb miss full no_split) ∙ e)
                        ((valid, λ j ne. refl), inr (inr (before, before, (_, refl))))
                  | inr may ↦ Promise-after_split kb valid r (
                      add-Promise fuel (after_split equals zero contact kb) r
                        (split_same kb valid).0
                        (sym (add-split equals fuel contact kb miss full may) ∙ e))
                ]
              ]
        ]

    -- Where equality of ids is decided and the tree is in order, a run of `add` that ends, after
    -- however many splits, leaves a tree in order in which every other id is answered as before.
    -- An id that was there is answered by the arbiter's choice; one that was not is answered by
    -- the contact and reported added, or stays unanswered and a ping is asked for.
    pub add_lem :
        (fuel : ℕ) (kb kb' : KBucket) (events : List Event)
        → IsValid equals spec kb
        → add equals fuel contact kb ≡ some (kb', events)
        → OthersSame contact.id kb kb' × Added kb kb' events
    add_lem fuel kb kb' events valid e =
        let (there, answers) = add-Promise fuel kb (kb', events) valid e in
        (Elsewhere-OthersSame contact.id kb kb' there, answers)

  -- Where equality of ids is decided and the tree is in order, `remove` leaves a tree in order in
  -- which the id is not answered and every other id is answered as before, and it reports the
  -- contact that was there, if any.
  pub remove_lem :
      (id : List ℕ) (kb : KBucket)
      → IsValid equals spec kb
      → OthersSame id kb (remove equals id kb).0
        × (get equals id (remove equals id kb).0 ≡ none)
        × ((remove equals id kb).1
            ≡ elim (get equals id kb) as (λ x. List Event) [ none ↦ [] | some c ↦ removed c ∷ [] ])
  remove_lem id kb valid =
      let cs = (find_leaf id 0 kb.root).0 in
      let order = find_leaf-WellPlaced equals kb.nodes_per_bucket id 0 kb.root AnyId valid in
      elim (index_of-cases equals spec cs id) [
        | inl (miss, missing) ↦
            let before : get equals id kb ≡ none = get-eq-get_in equals spec id kb ∙ missing in
            rw (remove-missing equals kb id miss)
              (Elsewhere-OthersSame id kb kb (valid, λ j ne. refl), before, rw before)
        | inr (i, c, hit, at_i, found, same, lt) ↦
            let before : get equals id kb ≡ some c = get-eq-get_in equals spec id kb ∙ found in
            let (there, answer) =
              changed_leaf id kb valid (remove_at cs i) c none same
                (remove_at-Changes equals spec c cs i c at_i refl order.1)
                (omega (arith, length-remove_at equals spec cs i lt, order.0))
                (λ Q q h. All-remove_at (λ d. Q d.id) cs i h) in
            rw (remove-found equals kb id i c hit at_i)
              (Elsewhere-OthersSame id kb _ there, answer, rw before)
      ]
