-- ===== src/Evm/Stack/Refinement.antt =====
-- The stack of the source against a plain list of items with a bound on its length.
use mathlib.Core.List.{reverse, reverse-append}
use simple_p2p_blockchain.Common.{
  ℕ, zero, suc, ◌-◌, ◌<◌, ◌≤◌, List, [], ◌∷◌, ◌++◌, ◌≡◌, refl, length, get_or, take, drop, arith,
  Result, ok, err, ◌>>=◌, if◌then◌else◌, ◌||◌, leb, ltb, Bool-cases, inl, inr, subst, ap,
}
use simple_p2p_blockchain.Evm.{EvmError, stack_overflow, stack_underflow}
use simple_p2p_blockchain.Evm.Stack
use simple_p2p_blockchain.Evm.Stack.{Stack, store_at}
use simple_p2p_blockchain.Evm.Stack.Items.{
  items, items_of, IsValid, length-items_of, set, length-store_at, length-store_at-ge,
  items_of-store_at, items_of-store_at_above, get_or-store_at, get_or-items_of, pop_loop-items,
  items_of-drop, peek_loop-items,
}

-- The calls that the interpreter makes. `dup n` is DUP(n + 1): its position counts from 1.
pub data Call : Type 0 where
  push pop_n peek swap dup : ℕ → Call
  pop : Call
  exchange : ℕ → ℕ → Call

-- A call of the source: the values that it returns, and the new stack.
unfoldable pub run : Call → Stack → Result EvmError (List ℕ × Stack)
run (Call.push v) s = do t ← Stack.push v s; ok ([], t)
run Call.pop s = do (v, t) ← Stack.pop s; ok (v ∷ [], t)
run (Call.pop_n n) s = Stack.pop_n n s
run (Call.peek n) s = do vs ← Stack.peek n s; ok (vs, s)
run (Call.swap n) s = do t ← Stack.swap n s; ok ([], t)
run (Call.dup n) s = do t ← Stack.dup (suc n) s; ok ([], t)
run (Call.exchange i j) s = do t ← Stack.exchange i j s; ok ([], t)

-- The same call on the items alone.
unfoldable pub step : ℕ → Call → List ℕ → Result EvmError (List ℕ × List ℕ)
step max (Call.push v) xs = if leb max (length xs) then err stack_overflow else ok ([], v ∷ xs)
step max Call.pop [] = err stack_underflow
step max Call.pop (x ∷ xs) = ok (x ∷ [], xs)
step max (Call.pop_n n) xs =
    if ltb (length xs) n then err stack_underflow else ok (take n xs, drop n xs)
step max (Call.peek n) xs = if ltb (length xs) n then err stack_underflow else ok (take n xs, xs)
step max (Call.swap n) xs =
    if leb (length xs) n
    then err stack_underflow
    else ok ([], set (set xs 0 (get_or xs n 0)) n (get_or xs 0 0))
step max (Call.dup n) xs =
    if leb (length xs) n
    then err stack_underflow
    else if leb max (length xs)
    then err stack_overflow
    else ok ([], get_or xs n 0 ∷ xs)
step max (Call.exchange i j) xs =
    if leb (length xs) i || leb (length xs) j
    then err stack_underflow
    else ok ([], set (set xs j (get_or xs i 0)) i (get_or xs j 0))

-- What the source's result and that on the items have in common.
abbrev pub Agrees :
    ℕ → Result EvmError (List ℕ × Stack) → Result EvmError (List ℕ × List ℕ) → Type 0
Agrees max (ok (vs, t)) (ok (ws, xs)) =
    (vs ≡ ws) × (items t ≡ xs) × IsValid t × (t.max_height ≡ max)
Agrees max (err e) (err f) = e ≡ f
Agrees max (ok r) (err f) = ⊥
Agrees max (err e) (ok r) = ⊥

items_of_pos :
    (store : List ℕ) (n : ℕ)
    → 0 < n
    → items_of store n ≡ get_or store (n - 1) 0 ∷ items_of store (n - 1)
unfolding items_of
items_of_pos store zero h = absurd (omega arith)
items_of_pos store (suc n) h = ground arith

items_of_none : (store : List ℕ) (n : ℕ) → n < 1 → items_of store n ≡ []
unfolding items_of
items_of_none store zero h = refl
items_of_none store (suc n) h = absurd (omega arith)

peek_loop_short :
    (store : List ℕ) (num len : ℕ) → len < num → Stack.peek_loop store num len ≡ err stack_underflow
unfolding Stack.peek_loop
peek_loop_short store zero len h = absurd (omega arith)
peek_loop_short store (suc num) zero h = refl
peek_loop_short store (suc num) (suc len) h = rw (peek_loop_short store num len (omega arith))

-- Two writes below the top, as `swap` and `exchange` make them.
two_writes :
    (store : List ℕ) (len i j a b : ℕ)
    → len ≤ length store
    → i < len
    → j < len
    → (items_of (store_at (store_at store (len - 1 - j) a) (len - 1 - i) b) len
        ≡ set (set (items_of store len) j a) i b)
      × (len ≤ length (store_at (store_at store (len - 1 - j) a) (len - 1 - i) b))
two_writes store len i j a b h hi hj = ground (
  arith,
  items_of-store_at store (len - 1 - j) a len,
  items_of-store_at (store_at store (len - 1 - j) a) (len - 1 - i) b len,
  length-store_at store (len - 1 - j) a,
  length-store_at (store_at store (len - 1 - j) a) (len - 1 - i) b,
)

module _ (s : Stack) (h : IsValid s) where
  abbrev Simulates : Call → Type 0
  Simulates c = Agrees s.max_height (run c s) (step s.max_height c (items s))

  push_lem : (v : ℕ) → Simulates (Call.push v)
  unfolding run step Stack.push items items_of
  push_lem v = ground (
    arith,
    length-items_of s.store s.len,
    items_of-store_at_above s.store s.len v s.len,
    get_or-store_at s.store s.len s.len v,
    length-store_at-ge s.store s.len v,
    h.stored,
    h.bounded,
  )

  pop_lem : Simulates Call.pop
  unfolding run step Stack.pop items
  pop_lem = elim (Bool-cases (ltb s.len 1)) [
    | inl empty ↦ ground (arith, items_of_none s.store s.len)
    | inr more ↦ ground (arith, items_of_pos s.store s.len, h.stored, h.bounded)
  ]

  pop_n_lem : (n : ℕ) → Simulates (Call.pop_n n)
  unfolding run step Stack.pop_n items
  pop_n_lem n = ground (
    arith,
    length-items_of s.store s.len,
    pop_loop-items s.store n s.len,
    items_of-drop s.store n s.len,
    h.stored,
    h.bounded,
  )

  swap_lem : (n : ℕ) → Simulates (Call.swap n)
  unfolding run step Stack.swap items
  swap_lem n = ground (
    arith,
    length-items_of s.store s.len,
    get_or-items_of s.store n s.len,
    get_or-items_of s.store 0 s.len,
    two_writes s.store s.len n 0 (get_or s.store (s.len - 1 - n) 0) (get_or s.store (s.len - 1) 0),
    h.stored,
    h.bounded,
  )

  peek_lem : (n : ℕ) → Simulates (Call.peek n)
  unfolding run step Stack.peek items
  peek_lem n = ground (
    arith,
    length-items_of s.store s.len,
    peek_loop-items s.store n s.len,
    peek_loop_short s.store n s.len,
    h.stored,
    h.bounded,
  )

  dup_lem : (n : ℕ) → Simulates (Call.dup n)
  unfolding run step Stack.dup items items_of
  dup_lem n = ground (
    arith,
    length-items_of s.store s.len,
    get_or-items_of s.store n s.len,
    items_of-store_at_above s.store s.len (get_or s.store (s.len - suc n) 0) s.len,
    get_or-store_at s.store s.len s.len (get_or s.store (s.len - suc n) 0),
    length-store_at-ge s.store s.len (get_or s.store (s.len - suc n) 0),
    h.stored,
    h.bounded,
  )

  exchange_lem : (i j : ℕ) → Simulates (Call.exchange i j)
  unfolding run step Stack.exchange items
  exchange_lem i j = ground (
    arith,
    length-items_of s.store s.len,
    get_or-items_of s.store i s.len,
    get_or-items_of s.store j s.len,
    two_writes s.store s.len i j (get_or s.store (s.len - 1 - i) 0)
        (get_or s.store (s.len - 1 - j) 0),
    h.stored,
    h.bounded,
  )

  -- Every call does to the array what it does to the list of items: the same values or the same
  -- error, the items of the new stack, and a stack that is valid again, of the same height.
  pub run-step : (c : Call) → Agrees s.max_height (run c s) (step s.max_height c (items s))
  run-step (Call.push v) = push_lem v
  run-step (Call.pop_n n) = pop_n_lem n
  run-step (Call.peek n) = peek_lem n
  run-step (Call.swap n) = swap_lem n
  run-step (Call.dup n) = dup_lem n
  run-step Call.pop = pop_lem
  run-step (Call.exchange i j) = exchange_lem i j

-- A sequence of calls; the values come out in order, and the first error ends it.
unfoldable pub run_all : List Call → Stack → Result EvmError (List ℕ × Stack)
run_all [] s = ok ([], s)
run_all (c ∷ cs) s = do (vs, t) ← run c s; (ws, u) ← run_all cs t; ok (vs ++ ws, u)

unfoldable pub step_all : ℕ → List Call → List ℕ → Result EvmError (List ℕ × List ℕ)
step_all max [] xs = ok ([], xs)
step_all max (c ∷ cs) xs = do
  (vs, ys) ← step max c xs
  (ws, zs) ← step_all max cs ys
  ok (vs ++ ws, zs)

Agrees-bind :
    (max : ℕ) (r : Result EvmError (List ℕ × Stack)) (q : Result EvmError (List ℕ × List ℕ))
    (f : List ℕ × Stack → Result EvmError (List ℕ × Stack))
    (g : List ℕ × List ℕ → Result EvmError (List ℕ × List ℕ))
    → Agrees max r q
    → ((vs : List ℕ) (t : Stack)
        → IsValid t
        → t.max_height ≡ max
        → Agrees max (f (vs, t)) (g (vs, items t)))
    → Agrees max (r >>= f) (q >>= g)
Agrees-bind max (ok (vs, t)) (ok (ws, xs)) f g (e, d, valid, m) k =
    subst (λ (y : List ℕ × List ℕ). Agrees max (f (vs, t)) (g y)) (λ i. (e i, d i)) (k vs t valid m)
Agrees-bind max (ok r) (err e) f g h k = absurd h
Agrees-bind max (err e) (ok q) f g h k = absurd h
Agrees-bind max (err e) (err e') f g h k = h

Agrees-append :
    (max : ℕ) (vs : List ℕ) (r : Result EvmError (List ℕ × Stack))
    (q : Result EvmError (List ℕ × List ℕ))
    → Agrees max r q
    → Agrees max (r >>= λ (ws, u). ok (vs ++ ws, u)) (q >>= λ (ws, zs). ok (vs ++ ws, zs))
Agrees-append max vs r q h = Agrees-bind max r q _ _ h (λ ws u valid m. (refl, refl, valid, m))

-- Any sequence of calls on a valid stack returns the values, or throws the error, that it does on
-- the plain list of its items, and leaves a valid stack with those items and the same maximal
-- height.
pub run_all-step_all :
    (cs : List Call) (s : Stack)
    → IsValid s
    → Agrees s.max_height (run_all cs s) (step_all s.max_height cs (items s))
unfolding run_all step_all
run_all-step_all [] s h = (refl, refl, h, refl)
run_all-step_all (c ∷ cs) s h =
    Agrees-bind s.max_height (run c s) (step s.max_height c (items s)) _ _ (run-step s h c)
      λ vs t valid m. Agrees-append s.max_height vs _ _ (
        subst (λ n. Agrees n (run_all cs t) (step_all n cs (items t))) m
          (run_all-step_all cs t valid))

take_next :
    (xs : List ℕ) (n : ℕ) → n < length xs → take (suc n) xs ≡ take n xs ++ (get_or xs n 0 ∷ [])
take_next [] n h = absurd (omega arith)
take_next (x ∷ xs) zero h = refl
take_next (x ∷ xs) (suc n) h = ap (λ l. x ∷ l) (take_next xs n (omega arith))

reverse-take : (xs : List ℕ) (n : ℕ) → n ≤ length xs → reverse (take n xs) ≡ items_of xs n
unfolding items_of
reverse-take xs zero h = refl
reverse-take xs (suc n) h =
    rw (take_next xs n h, reverse-append) (rw (reverse-take xs n (omega arith)))

-- On a valid stack `getStack` is the items from the bottom up.
pub reverse-get_stack : (s : Stack) → IsValid s → reverse (Stack.get_stack s) ≡ items s
unfolding Stack.get_stack items
reverse-get_stack s h = reverse-take s.store s.len h.stored

pub new_stack-IsValid : (n : ℕ) → IsValid (Stack.new_stack n)
unfolding Stack.new_stack
new_stack-IsValid n = omega arith
