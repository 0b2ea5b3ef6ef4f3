-- ===== src/Evm/Memory/Contents.antt =====
-- The memory as an unbounded array of bytes that are 0 until they are written.
use Prim.Native.Nat.add
use simple_p2p_blockchain.Common.{
  ℕ, zero, suc, ◌+◌, ◌-◌, ◌%◌, ◌<◌, ◌≤◌, List, [], ◌∷◌, ◌++◌, leb, ltb, ◌&&◌, if◌then◌else◌, length,
  take, drop, replicate, get_or, ok, ◌≡◌, refl, arith, length-append, length-take, length-drop,
  length-replicate, ap, ap₂, ◌∙◌,
}
use simple_p2p_blockchain.Evm.Memory.{
  Memory, extend, ceil, expand_by, container_size, write, set_bytes,
}

-- The byte at an address.
unfoldable pub byte_at : Memory → ℕ → ℕ
byte_at m i = get_or m.store i 0

-- Whole containers, whole words among them.
pub record IsValid (m : Memory) : Type 0 where
  pub whole : length m.store % container_size ≡ 0

pub get_or-append :
    (xs ys : List ℕ) (i : ℕ)
    → get_or (xs ++ ys) i 0
      ≡ (if ltb i (length xs) then get_or xs i 0 else get_or ys (i - length xs) 0)
get_or-append [] ys i = ground arith
get_or-append (x ∷ xs) ys zero = ground arith
get_or-append (x ∷ xs) ys (suc i) = ground (arith, get_or-append xs ys i)

pub get_or-replicate : (n i : ℕ) → get_or {A = ℕ} (replicate n 0) i 0 ≡ 0
get_or-replicate zero i = refl
get_or-replicate (suc n) zero = refl
get_or-replicate (suc n) (suc i) = get_or-replicate n i

pub get_or_beyond : (xs : List ℕ) (i : ℕ) → length xs ≤ i → get_or xs i 0 ≡ 0
get_or_beyond [] i h = refl
get_or_beyond (x ∷ xs) zero h = absurd (omega arith)
get_or_beyond (x ∷ xs) (suc i) h = get_or_beyond xs i (omega arith)

-- Growing changes no byte.
pub byte_at-extend :
    (offset size : ℕ) (m : Memory) (i : ℕ) → byte_at (extend offset size m) i ≡ byte_at m i
unfolding byte_at extend
byte_at-extend offset size m i = ground (
  arith,
  get_or-append m.store (replicate (expand_by (ceil (offset + size) 32 - length m.store)) 0) i,
  get_or-replicate (expand_by (ceil (offset + size) 32 - length m.store)) (i - length m.store),
  get_or_beyond m.store i,
)

ceil_bounds : (n : ℕ) → (n ≤ ceil n 32) × (ceil n 32 < n + 32)
unfolding ceil
ceil_bounds n = ground arith

-- What was asked for is there afterwards.
pub length-extend :
    (offset size : ℕ) (m : Memory)
    → 0 < size
    → (offset + size ≤ length (extend offset size m).store)
      × (length m.store ≤ length (extend offset size m).store)
unfolding extend expand_by ceil
length-extend offset size m h = ground (
  arith,
  length-append m.store (replicate (expand_by (ceil (offset + size) 32 - length m.store)) 0),
  length-replicate {A = ℕ} (expand_by (ceil (offset + size) 32 - length m.store)) 0,
)

pub extend-IsValid : (offset size : ℕ) (m : Memory) → IsValid m → IsValid (extend offset size m)
unfolding extend expand_by ceil
extend-IsValid offset size m v = ground (
  arith,
  length-append m.store (replicate (expand_by (ceil (offset + size) 32 - length m.store)) 0),
  length-replicate {A = ℕ} (expand_by (ceil (offset + size) 32 - length m.store)) 0,
  v.whole,
)

pub get_or-drop : (n i : ℕ) (xs : List ℕ) → get_or (drop n xs) i 0 ≡ get_or xs (n + i) 0
get_or-drop zero i xs = ground arith
get_or-drop (suc n) i [] = refl
get_or-drop (suc n) i (x ∷ xs) = rw add.suc (get_or-drop n i xs)

pub get_or-take :
    (n i : ℕ) (xs : List ℕ) → get_or (take n xs) i 0 ≡ (if ltb i n then get_or xs i 0 else 0)
get_or-take zero i xs = ground arith
get_or-take (suc n) i [] = ground arith
get_or-take (suc n) zero (x ∷ xs) = ground arith
get_or-take (suc n) (suc i) (x ∷ xs) = ground (arith, get_or-take n i xs)

-- Lists of one length that agree at every place are equal.
pub eq_of_get_or :
    (xs ys : List ℕ) → length xs ≡ length ys → ((i : ℕ) → get_or xs i 0 ≡ get_or ys i 0) → xs ≡ ys
eq_of_get_or [] [] e h = refl
eq_of_get_or [] (y ∷ ys) e h = absurd (omega arith)
eq_of_get_or (x ∷ xs) [] e h = absurd (omega arith)
eq_of_get_or (x ∷ xs) (y ∷ ys) e h =
    ap₂ ◌∷◌ (h 0) (eq_of_get_or xs ys (omega arith) (λ i. h (suc i)))

-- A byte of the store after `set`.
pub get_or-set_bytes :
    (store value : List ℕ) (offset i : ℕ)
    → offset + length value ≤ length store
    → get_or (set_bytes store value offset) i 0 ≡ (
        if leb offset i && ltb i (offset + length value)
        then get_or value (i - offset) 0
        else get_or store i 0)
unfolding set_bytes
get_or-set_bytes store value offset i h = ground (
  arith,
  get_or-append (take offset store) (value ++ drop (offset + length value) store) i,
  get_or-append value (drop (offset + length value) store) (i - offset),
  length-take offset store,
  get_or-take offset i store,
  get_or-drop (offset + length value) (i - offset - length value) store,
)

pub length-set_bytes :
    (store value : List ℕ) (offset : ℕ)
    → offset + length value ≤ length store
    → length (set_bytes store value offset) ≡ length store
unfolding set_bytes
length-set_bytes store value offset h = omega (
  arith,
  length-append (take offset store) (value ++ drop (offset + length value) store),
  length-append value (drop (offset + length value) store),
  length-take offset store,
  length-drop (offset + length value) store,
)

-- On a valid memory `write` of a value of the stated size does not throw; it sets the bytes from
-- the offset on to the value, leaves every other byte, and the memory stays valid.
pub write_lem :
    (offset : ℕ) (value : List ℕ) (m : Memory)
    → IsValid m
    → (n : Memory) × (write offset (length value) value m ≡ ok n)
      × IsValid n
      × ((i : ℕ)
          → byte_at n i ≡ (
              if leb offset i && ltb i (offset + length value)
              then get_or value (i - offset) 0
              else byte_at m i))
unfolding write
write_lem offset [] m v = (m, refl, v, λ i. ground arith)
write_lem offset (x ∷ xs) m v =
    let value : List ℕ = x ∷ xs in
    let e = extend offset (length value) m in
    let room = (length-extend offset (length value) m (omega arith)).0 in
    (
      record { store = set_bytes e.store value offset },
      ground (arith, room),
      record {
        whole =
            rw (length-set_bytes e.store value offset room)
              (extend-IsValid offset (length value) m v).whole;
      },
      λ i.
          unfold byte_at in
          get_or-set_bytes e.store value offset i room
          ∙ ap
              (λ z.
                if leb offset i && ltb i (offset + length value)
                then get_or value (i - offset) 0
                else z)
              (byte_at-extend offset (length value) m i),
    )
