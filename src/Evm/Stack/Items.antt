-- ===== src/Evm/Stack/Items.antt =====
-- What a client sees of a stack: its items, the top first.
use simple_p2p_blockchain.Common.{
  ℕ, zero, suc, ◌-◌, ◌<◌, ◌≤◌, List, [], ◌∷◌, ◌≡◌, refl, length, get_or, take, drop, arith, ok,
  if◌then◌else◌, ◌==◌, Bool-cases, inl, inr, ap,
}
use simple_p2p_blockchain.Evm.Stack.{Stack, store_at, pop_loop, peek_loop}

unfoldable pub items_of : List ℕ → ℕ → List ℕ
items_of store zero = []
items_of store (suc n) = get_or store n 0 ∷ items_of store n

unfoldable pub items : Stack → List ℕ
items s = items_of s.store s.len

-- The array reaches to the length, and the height keeps to its bound.
pub record IsValid (s : Stack) : Type 0 where
  pub stored : s.len ≤ length s.store
  pub bounded : s.len ≤ s.max_height

pub length-items_of : (store : List ℕ) (n : ℕ) → length (items_of store n) ≡ n
unfolding items_of
length-items_of store zero = refl
length-items_of store (suc n) = ap suc (length-items_of store n)

pub get_or-store_at :
    (xs : List ℕ) (i j v : ℕ) → get_or (store_at xs i v) j 0 ≡ (if i == j then v else get_or xs j 0)
unfolding store_at
get_or-store_at [] zero zero v = refl
get_or-store_at [] zero (suc j) v = ground arith
get_or-store_at [] (suc i) zero v = ground arith
get_or-store_at [] (suc i) (suc j) v = ground (arith, get_or-store_at [] i j v)
get_or-store_at (x ∷ xs) zero zero v = refl
get_or-store_at (x ∷ xs) zero (suc j) v = ground arith
get_or-store_at (x ∷ xs) (suc i) zero v = ground arith
get_or-store_at (x ∷ xs) (suc i) (suc j) v = ground (arith, get_or-store_at xs i j v)

pub length-store_at : (xs : List ℕ) (i v : ℕ) → i < length xs → length (store_at xs i v) ≡ length xs
unfolding store_at
length-store_at [] i v h = absurd (omega arith)
length-store_at (x ∷ xs) zero v h = refl
length-store_at (x ∷ xs) (suc i) v h = ap suc (length-store_at xs i v (omega arith))

pub length-store_at-ge :
    (xs : List ℕ) (i v : ℕ)
    → (length xs ≤ length (store_at xs i v)) × (i < length (store_at xs i v))
unfolding store_at
length-store_at-ge [] zero v = omega arith
length-store_at-ge [] (suc i) v = omega (arith, length-store_at-ge [] i v)
length-store_at-ge (x ∷ xs) zero v = omega arith
length-store_at-ge (x ∷ xs) (suc i) v = omega (arith, length-store_at-ge xs i v)

-- A write above the top is not seen.
pub items_of-store_at_above :
    (xs : List ℕ) (i v n : ℕ) → n ≤ i → items_of (store_at xs i v) n ≡ items_of xs n
unfolding items_of
items_of-store_at_above xs i v zero h = refl
items_of-store_at_above xs i v (suc n) h =
    ground (arith, get_or-store_at xs i n v, items_of-store_at_above xs i v n)

-- A write outside the list changes nothing.
abbrev pub set {ℓ} : {A : Type ℓ} → List A → ℕ → A → List A
set [] i v = []
set (x ∷ xs) zero v = v ∷ xs
set (x ∷ xs) (suc i) v = x ∷ set xs i v

pub set_pred : (x : ℕ) (xs : List ℕ) (k v : ℕ) → 0 < k → set (x ∷ xs) k v ≡ x ∷ set xs (k - 1) v
set_pred x xs zero v h = absurd (omega arith)
set_pred x xs (suc k) v h = ground arith

-- A write at a position counted from the bottom is one counted from the top.
pub items_of-store_at :
    (xs : List ℕ) (i v n : ℕ)
    → i < n
    → items_of (store_at xs i v) n ≡ set (items_of xs n) (n - 1 - i) v
unfolding items_of
items_of-store_at xs i v zero h = absurd (omega arith)
items_of-store_at xs i v (suc n) h = elim (Bool-cases (i == n)) [
  | inl last ↦ ground (arith, get_or-store_at xs i n v, items_of-store_at_above xs i v n)
  | inr below ↦ ground (
    arith,
    get_or-store_at xs i n v,
    items_of-store_at xs i v n,
    set_pred (get_or xs n 0) (items_of xs n) (n - i) v,
  )
]

pub get_or_pred : (x : ℕ) (xs : List ℕ) (k : ℕ) → 0 < k → get_or (x ∷ xs) k 0 ≡ get_or xs (k - 1) 0
get_or_pred x xs zero h = absurd (omega arith)
get_or_pred x xs (suc k) h = ground arith

pub get_or-items_of :
    (xs : List ℕ) (k n : ℕ) → k < n → get_or (items_of xs n) k 0 ≡ get_or xs (n - 1 - k) 0
unfolding items_of
get_or-items_of xs k zero h = absurd (omega arith)
get_or-items_of xs zero (suc n) h = ground arith
get_or-items_of xs (suc k) (suc n) h = ground (arith, get_or-items_of xs k n)

pub pop_loop-items :
    (store : List ℕ) (num len : ℕ)
    → num ≤ len
    → pop_loop store num len ≡ (take num (items_of store len), len - num)
unfolding pop_loop items_of
pop_loop-items store zero len h = ground arith
pop_loop-items store (suc num) zero h = absurd (omega arith)
pop_loop-items store (suc num) (suc len) h = ground (arith, pop_loop-items store num len)

pub items_of-drop :
    (store : List ℕ) (num len : ℕ)
    → num ≤ len
    → items_of store (len - num) ≡ drop num (items_of store len)
unfolding items_of
items_of-drop store zero len h = ground arith
items_of-drop store (suc num) zero h = absurd (omega arith)
items_of-drop store (suc num) (suc len) h = ground (arith, items_of-drop store num len)

pub peek_loop-items :
    (store : List ℕ) (num len : ℕ)
    → num ≤ len
    → peek_loop store num len ≡ ok (take num (items_of store len))
unfolding peek_loop items_of
peek_loop-items store zero len h = refl
peek_loop-items store (suc num) zero h = absurd (omega arith)
peek_loop-items store (suc num) (suc len) h = rw (peek_loop-items store num len (omega arith))
