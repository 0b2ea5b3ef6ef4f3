-- ===== src/Kademlia/Bucket/Leaves.antt =====
-- The contacts of one leaf: what `_indexOf`, `splice`, `push` and `_split` do to a lookup by id.
use simple_p2p_blockchain.Common.{
  ℕ, zero, suc, ◌+◌, ◌<◌, ◌≤◌, ◌≡◌, ◌≢◌, ◌↔◌, ◌⊎◌, refl, arith, Bool, true, false, not, List, [],
  ◌∷◌, ◌++◌, Option, none, some, if◌then◌else◌, length, get_elem?, Bool-cases, inl, inr, All,
}
use simple_p2p_blockchain.Kademlia.{Contact}
use simple_p2p_blockchain.Kademlia.Bucket.{remove_at, redistribute, goes_right, index_of}

unfoldable pub same_side : Bool → Bool → Bool
same_side true b = b
same_side false b = not b

-- What `equalsBytes` is relied on for.
abbrev pub DecidesEquality : (List ℕ → List ℕ → Bool) → Type 0
DecidesEquality equals = (a b : List ℕ) → (equals a b ≡ true) ↔ (a ≡ b)

module _ (equals : List ℕ → List ℕ → Bool) where
  unfoldable pub find : List Contact → List ℕ → Option Contact
  find [] id = none
  find (c ∷ cs) id = if equals c.id id then some c else find cs id

  -- No two contacts have one id.
  abbrev pub Distinct : List Contact → Type 0
  Distinct [] = Unit
  Distinct (c ∷ cs) = (find cs c.id ≡ none) × Distinct cs

module _ (equals : List ℕ → List ℕ → Bool) (spec : DecidesEquality equals) where
  pub index_of-cases :
      (cs : List Contact) (id : List ℕ)
      → ((index_of equals cs id ≡ none) × (find equals cs id ≡ none))
        ⊎ ((i : ℕ) × (c : Contact) × (index_of equals cs id ≡ some i)
            × (get_elem? cs i ≡ some c)
            × (find equals cs id ≡ some c)
            × (c.id ≡ id)
            × (i < length cs))
  unfolding index_of find
  index_of-cases [] id = inl (refl, refl)
  index_of-cases (c ∷ cs) id = elim (Bool-cases (equals c.id id)) [
    | inl hit ↦ inr (0, c, rw hit, refl, rw hit, (spec c.id id).0 hit, omega arith)
    | inr miss ↦ elim (index_of-cases cs id) [
      | inl (e, f) ↦ inl (rw (miss, e), rw miss f)
      | inr (i, d, e, g, f, same, lt) ↦
          inr (suc i, d, rw (miss, e), g, rw miss f, same, omega arith)
    ]
  ]

  pub equals-false : (a b : List ℕ) → a ≢ b → equals a b ≡ false
  equals-false a b ne = elim (Bool-cases (equals a b)) [
    | inl e ↦ absurd (ne ((spec a b).0 e))
    | inr e ↦ e
  ]

  pub find-append :
      (cs : List Contact) (c : Contact) (id : List ℕ)
      → find equals cs id ≡ none
      → find equals (cs ++ c ∷ []) id ≡ (if equals c.id id then some c else none)
  unfolding find
  find-append [] c id h = refl
  find-append (d ∷ cs) c id h = ground (arith, find-append cs c id)

  pub find-append_ne :
      (cs : List Contact) (c : Contact) (id : List ℕ)
      → equals c.id id ≡ false
      → find equals (cs ++ c ∷ []) id ≡ find equals cs id
  unfolding find
  find-append_ne [] c id h = rw h
  find-append_ne (d ∷ cs) c id h = ground (arith, find-append_ne cs c id h)

  pub Distinct-append :
      (cs : List Contact) (c : Contact)
      → Distinct equals cs
      → find equals cs c.id ≡ none
      → Distinct equals (cs ++ c ∷ [])
  Distinct-append [] c h n = (unfold find in refl, tt)
  Distinct-append (d ∷ cs) c h n = (
    unfold find in
        ground (
          arith,
          find-append cs c d.id h.0,
          spec d.id c.id,
          spec c.id d.id,
          equals-false d.id c.id,
        ),
    Distinct-append cs c h.1 (unfold find in ground arith),
  )

  -- Removing a contact leaves the lookups of other ids.
  pub find-remove_at_ne :
      (cs : List Contact) (i : ℕ) (d : Contact) (id : List ℕ)
      → get_elem? cs i ≡ some d
      → equals d.id id ≡ false
      → find equals (remove_at cs i) id ≡ find equals cs id
  unfolding find remove_at
  find-remove_at_ne [] i d id g h = refl
  find-remove_at_ne (c ∷ cs) zero d id g h = ground arith
  find-remove_at_ne (c ∷ cs) (suc i) d id g h = ground (arith, find-remove_at_ne cs i d id)

  -- The lookup on either side of a split.
  pub find-redistribute :
      (side : Bool) (bit : ℕ) (cs : List Contact) (id : List ℕ)
      → find equals (redistribute side bit cs) id
        ≡ (if same_side side (goes_right id bit) then find equals cs id else none)
  unfolding find redistribute same_side
  find-redistribute side bit [] id = ground arith
  find-redistribute true bit (c ∷ cs) id =
      ground (arith, find-redistribute true bit cs id, spec c.id id)
  find-redistribute false bit (c ∷ cs) id =
      ground (arith, find-redistribute false bit cs id, spec c.id id)

  pub length-redistribute :
      (side : Bool) (bit : ℕ) (cs : List Contact) → length (redistribute side bit cs) ≤ length cs
  unfolding redistribute
  length-redistribute side bit [] = omega arith
  length-redistribute side bit (c ∷ cs) = ground (arith, length-redistribute side bit cs)

  pub get_elem?-find :
      (cs : List Contact) (i : ℕ) (d : Contact) (id : List ℕ)
      → get_elem? cs i ≡ some d
      → find equals cs id ≡ none
      → equals d.id id ≡ false
  unfolding find
  get_elem?-find [] i d id g h = cc
  get_elem?-find (c ∷ cs) zero d id g h = ground arith
  get_elem?-find (c ∷ cs) (suc i) d id g h = ground (arith, get_elem?-find cs i d id)

  pub find-remove_at_self :
      (cs : List Contact) (i : ℕ) (d : Contact)
      → Distinct equals cs
      → get_elem? cs i ≡ some d
      → find equals (remove_at cs i) d.id ≡ none
  unfolding find remove_at
  find-remove_at_self [] i d h g = refl
  find-remove_at_self (c ∷ cs) zero d h g = ground arith
  find-remove_at_self (c ∷ cs) (suc i) d h g = ground (
    arith,
    find-remove_at_self cs i d h.1 g,
    get_elem?-find cs i d c.id g h.0,
    spec c.id d.id,
    spec d.id c.id,
  )

  pub find-remove_at-none :
      (cs : List Contact) (i : ℕ) (id : List ℕ)
      → find equals cs id ≡ none
      → find equals (remove_at cs i) id ≡ none
  unfolding find remove_at
  find-remove_at-none [] i id h = refl
  find-remove_at-none (c ∷ cs) zero id h = ground arith
  find-remove_at-none (c ∷ cs) (suc i) id h = ground (arith, find-remove_at-none cs i id)

  pub Distinct-remove_at :
      (cs : List Contact) (i : ℕ) → Distinct equals cs → Distinct equals (remove_at cs i)
  unfolding remove_at
  Distinct-remove_at [] i h = tt
  Distinct-remove_at (c ∷ cs) zero h = h.1
  Distinct-remove_at (c ∷ cs) (suc i) h =
      (find-remove_at-none cs i c.id h.0, Distinct-remove_at cs i h.1)

  pub length-remove_at :
      (cs : List Contact) (i : ℕ) → i < length cs → length (remove_at cs i) + 1 ≡ length cs
  unfolding remove_at
  length-remove_at [] i h = absurd (omega arith)
  length-remove_at (c ∷ cs) zero h = omega arith
  length-remove_at (c ∷ cs) (suc i) h = omega (arith, length-remove_at cs i (omega arith))

  pub Distinct-redistribute :
      (side : Bool) (bit : ℕ) (cs : List Contact)
      → Distinct equals cs
      → Distinct equals (redistribute side bit cs)
  unfolding redistribute
  Distinct-redistribute side bit [] h = tt
  Distinct-redistribute side bit (c ∷ cs) h =
      let absent : find equals (redistribute side bit cs) c.id ≡ none =
        rw (find-redistribute side bit cs c.id, h.0) (if_same _) in
      let rest = Distinct-redistribute side bit cs h.1 in
      elim (Bool-cases (goes_right c.id bit)) [
        | inl right ↦ rw right (kept side _ absent rest)
        | inr left ↦ rw left (kept' side _ absent rest)
      ]
    where
      if_same : (b : Bool) → ◌≡◌ {A = Option Contact} (if b then none else none) none
      if_same true = refl
      if_same false = refl

      kept :
          (side : Bool) (rest : List Contact)
          → find equals rest c.id ≡ none
          → Distinct equals rest
          → Distinct equals (if side then c ∷ rest else rest)
      kept true rest a r = (a, r)
      kept false rest a r = r

      kept' :
          (side : Bool) (rest : List Contact)
          → find equals rest c.id ≡ none
          → Distinct equals rest
          → Distinct equals (if side then rest else c ∷ rest)
      kept' true rest a r = r
      kept' false rest a r = (a, r)

module _ (P : Contact → Type 0) where
  pub All-remove_at : (cs : List Contact) (i : ℕ) → All P cs → All P (remove_at cs i)
  unfolding remove_at
  All-remove_at [] i h = tt
  All-remove_at (c ∷ cs) zero h = h.1
  All-remove_at (c ∷ cs) (suc i) h = (h.0, All-remove_at cs i h.1)

-- A side of a split holds contacts whose bit is that side's.
pub All-redistribute :
    (P : Contact → Type 0) (side : Bool) (bit : ℕ) (cs : List Contact)
    → All P cs
    → All (λ c. P c × (goes_right c.id bit ≡ side)) (redistribute side bit cs)
unfolding redistribute
All-redistribute P side bit [] h = tt
All-redistribute P true bit (c ∷ cs) h = elim (Bool-cases (goes_right c.id bit)) [
  | inl right ↦ rw right ((h.0, right), All-redistribute P true bit cs h.1)
  | inr left ↦ rw left (All-redistribute P true bit cs h.1)
]
All-redistribute P false bit (c ∷ cs) h = elim (Bool-cases (goes_right c.id bit)) [
  | inl right ↦ rw right (All-redistribute P false bit cs h.1)
  | inr left ↦ rw left ((h.0, left), All-redistribute P false bit cs h.1)
]
