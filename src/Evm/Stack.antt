-- ===== src/Evm/Stack.antt =====
-- packages/evm/src/stack.ts: the stack of the EVM over an array that never shrinks.
pub mod Items
pub mod Refinement
use simple_p2p_blockchain.Common.{
  ℕ, zero, suc, ◌+◌, ◌-◌, List, [], ◌∷◌, Bool, ◌||◌, leb, ltb, ◌==◌, if◌then◌else◌, get_or, take,
  Result, ok, err, ◌>>=◌,
}
use simple_p2p_blockchain.Evm.{EvmError, stack_overflow, stack_underflow}

-- `_store`, `_maxHeight` and `_len`. What stands above `len` is left over from earlier pops.
pub record Stack : Type 0 where
  pub store : List ℕ
  pub max_height : ℕ
  pub len : ℕ

-- `new Stack(maxHeight)`; 1024 without an argument.
unfoldable pub new_stack : ℕ → Stack
new_stack max_height = record { store = []; max_height = max_height; len = 0 }

-- `array[i] = v`. A write past the end would leave holes; none is made, since `len` is at most the
-- array's length.
unfoldable pub store_at : List ℕ → ℕ → ℕ → List ℕ
store_at [] zero v = v ∷ []
store_at [] (suc i) v = 0 ∷ store_at [] i v
store_at (x ∷ xs) zero v = v ∷ xs
store_at (x ∷ xs) (suc i) v = x ∷ store_at xs i v

unfoldable pub push : ℕ → Stack → Result EvmError Stack
push value s =
    if leb s.max_height s.len
    then err stack_overflow
    else ok (record s { store = store_at s.store s.len value; len = s.len + 1 })

unfoldable pub pop : Stack → Result EvmError (ℕ × Stack)
pop s =
    if ltb s.len 1
    then err stack_underflow
    else ok (get_or s.store (s.len - 1) 0, record s { len = s.len - 1 })

-- The loop of `popN`: what it has read, and the length that is left.
unfoldable pub pop_loop : List ℕ → ℕ → ℕ → List ℕ × ℕ
pop_loop store zero len = ([], len)
pop_loop store (suc num) len =
    let (arr, left) = pop_loop store num (len - 1) in (get_or store (len - 1) 0 ∷ arr, left)

unfoldable pub pop_n : ℕ → Stack → Result EvmError (List ℕ × Stack)
pop_n num s =
    if ltb s.len num
    then err stack_underflow
    else if num == 0
    then ok ([], s)
    else let (arr, left) = pop_loop s.store num s.len in ok (arr, record s { len = left })

-- The loop of `peek`; the test comes before each read.
unfoldable pub peek_loop : List ℕ → ℕ → ℕ → Result EvmError (List ℕ)
peek_loop store zero start = ok []
peek_loop store (suc num) zero = err stack_underflow
peek_loop store (suc num) (suc index) = do
  rest ← peek_loop store num index
  ok (get_or store index 0 ∷ rest)

unfoldable pub peek : ℕ → Stack → Result EvmError (List ℕ)
peek num s = peek_loop s.store num s.len

unfoldable pub swap : ℕ → Stack → Result EvmError Stack
swap position s =
    if leb s.len position
    then err stack_underflow
    else let head = s.len - 1 in
      let i = head - position in
      let tmp = get_or s.store head 0 in
      ok (record s { store = store_at (store_at s.store head (get_or s.store i 0)) i tmp })

unfoldable pub dup : ℕ → Stack → Result EvmError Stack
dup position s =
    if ltb s.len position
    then err stack_underflow
    else if leb s.max_height s.len
    then err stack_overflow
    else let i = s.len - position in
      ok (record s { store = store_at s.store s.len (get_or s.store i 0); len = s.len + 1 })

-- The indices are below 0 where the stack is no higher than the distance.
unfoldable pub exchange : ℕ → ℕ → Stack → Result EvmError Stack
exchange swap1 swap2 s =
    if leb s.len swap1 || leb s.len swap2
    then err stack_underflow
    else let index1 = s.len - 1 - swap1 in
      let index2 = s.len - 1 - swap2 in
      let cache = get_or s.store index2 0 in
      ok (record s {
        store = store_at (store_at s.store index2 (get_or s.store index1 0)) index1 cache;
      })

unfoldable pub get_stack : Stack → List ℕ
get_stack s = take s.len s.store
