-- ===== src/Kademlia/Bucket/OneLeaf.antt =====
-- What `_update` and `add` do to one bucket's list of contacts.
use simple_p2p_blockchain.Common.{
  ℕ, ◌<◌, ◌≤◌, ◌≡◌, ◌⊎◌, refl, ◌∙◌, arith, subst, Bool, true, false, List, [], ◌∷◌, ◌++◌, Option,
  none, some, length, get_elem?, Bool-cases, inl, inr, All, All-append, length-append,
}
use simple_p2p_blockchain.Kademlia.{Contact}
use simple_p2p_blockchain.Kademlia.Bucket.{newer, arbiter, remove_at, update_contact, updated}
use simple_p2p_blockchain.Kademlia.Bucket.Leaves.{
  DecidesEquality, find, Distinct, find-append, find-append_ne, Distinct-append, find-remove_at_ne,
  find-remove_at_self, Distinct-remove_at, length-remove_at, All-remove_at,
}

module _ (equals : List ℕ → List ℕ → Bool) (spec : DecidesEquality equals) (contact : Contact) where
  -- A list that stands for another after a change at one id.
  abbrev pub Changes : List Contact → List Contact → Option Contact → Type 0
  Changes before after answer =
      Distinct equals after
      × (find equals after contact.id ≡ answer)
      × ((j : List ℕ) → equals contact.id j ≡ false → find equals after j ≡ find equals before j)

  pub find-append_self :
      (cs : List Contact)
      → find equals cs contact.id ≡ none
      → find equals (cs ++ contact ∷ []) contact.id ≡ some contact
  find-append_self cs h =
      find-append equals spec cs contact contact.id h ∙ rw ((spec contact.id contact.id).1 refl)

  pub append-Changes :
      (cs : List Contact)
      → Distinct equals cs
      → find equals cs contact.id ≡ none
      → Changes cs (cs ++ contact ∷ []) (some contact)
  append-Changes cs h n = (
    Distinct-append equals spec cs contact h n,
    find-append_self cs n,
    λ j e. find-append_ne equals spec cs contact j e,
  )

  module _ (cs : List Contact) (i : ℕ) (old : Contact) (at_i : get_elem? cs i ≡ some old)
      (same : old.id ≡ contact.id) (once : Distinct equals cs) where
    pub remove_at-Changes : Changes cs (remove_at cs i) none
    remove_at-Changes = (
      Distinct-remove_at equals spec cs i once,
      subst (λ id. find equals (remove_at cs i) id ≡ none) same
          (find-remove_at_self equals spec cs i old once at_i),
      λ j e. find-remove_at_ne equals spec cs i old j at_i (rw same e),
    )

    -- The incumbent stays in its place, or the contact goes to the end.
    pub update_contact-cases :
        (update_contact equals cs i contact ≡ (cs, [])) × (newer old contact ≡ true)
        ⊎ (update_contact equals cs i contact
            ≡ (remove_at cs i ++ contact ∷ [], updated old contact ∷ []))
          × (newer old contact ≡ false)
    unfolding update_contact arbiter
    update_contact-cases = elim (Bool-cases (newer old contact)) [
      | inl e ↦ inl (ground arith, e)
      | inr e ↦ inr (ground arith, e)
    ]

    pub update_contact-Changes :
        find equals cs contact.id ≡ some old
        → Changes cs (update_contact equals cs i contact).0 (some (arbiter old contact))
    unfolding arbiter
    update_contact-Changes found = elim update_contact-cases [
      | inl (e, n) ↦ rw (e, n) (once, found, λ j ne. refl)
      | inr (e, n) ↦
          rw (e, n)
            (
              Distinct-append equals spec (remove_at cs i) contact remove_at-Changes.0
                  remove_at-Changes.1,
              find-append_self (remove_at cs i) remove_at-Changes.1,
              λ j ne.
                  find-append_ne equals spec (remove_at cs i) contact j ne
                  ∙ remove_at-Changes.2 j ne,
            )
    ]

    pub update_contact-length :
        i < length cs → length (update_contact equals cs i contact).0 ≤ length cs
    update_contact-length lt = elim update_contact-cases [
      | inl (e, n) ↦ rw e (omega arith)
      | inr (e, n) ↦ rw (e, length-append) (omega (arith, length-remove_at equals spec cs i lt))
    ]

    pub update_contact-All :
        (Q : List ℕ → Type 0)
        → Q contact.id
        → All (λ c. Q c.id) cs
        → All (λ c. Q c.id) (update_contact equals cs i contact).0
    update_contact-All Q q h = elim update_contact-cases [
      | inl (e, n) ↦ rw e h
      | inr (e, n) ↦ rw e (
          All-append (λ c. Q c.id) (remove_at cs i) (contact ∷ [])
            (All-remove_at (λ c. Q c.id) cs i h) (q, tt))
    ]
