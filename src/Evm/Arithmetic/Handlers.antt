-- ===== src/Evm/Arithmetic/Handlers.antt =====
-- The handlers on the stack: what they pop, what they push, and that words stay words.
use native.Mathlib.Nat.{mod-lt, lt_trans}
use simple_p2p_blockchain.Common.{
  ℕ, zero, suc, ◌+◌, ◌*◌, ◌/◌, ◌%◌, ◌^◌, ◌<◌, ◌≤◌, ◌≡◌, refl, ap, sym, some, none, ◌∙◌, arith, ltb,
  ◌==◌, if◌then◌else◌, Bool, true, false, Bool-cases, inl, inr, List, [], ◌∷◌, get_or, length, take,
  drop, Result, ok, err, ◌>>=◌, All, All-drop, All-take, length-drop, ltb→lt, ◌⊎◌, lt→ltb, le→ltb,
  lt→leb,
}
use simple_p2p_blockchain.Common.Int.{pos}
use simple_p2p_blockchain.Evm.{EvmError, stack_underflow}
use simple_p2p_blockchain.Evm.Stack.{Stack, push, pop_n}
use simple_p2p_blockchain.Evm.Stack.Items.{items, IsValid, length-items_of}
use simple_p2p_blockchain.Evm.Stack.Refinement.{Agrees, run, step, run-step, Call}
use simple_p2p_blockchain.Evm.Arithmetic
use simple_p2p_blockchain.Evm.Arithmetic.{
  two_pow256, IsWord, Opcode, op_add, op_mul, op_sub, op_div, op_sdiv, op_mod, op_smod, op_addmod,
  op_mulmod, op_exp, op_lt, op_gt, op_slt, op_sgt, op_eq, op_iszero, arity, result, handle, bit,
}
use simple_p2p_blockchain.Evm.Arithmetic.Power.{exp_op-pow}
use simple_p2p_blockchain.Evm.Arithmetic.Words.{stack_after, stack_after-result, stack_after_short}
use simple_p2p_blockchain.Evm.Arithmetic.Signed.{to_twos-IsWord, mod_of_pos, sub_lem}

arity_bounds : (op : Opcode) → (1 ≤ arity op) × (arity op ≤ 3)
unfolding arity
arity_bounds op_add = omega arith
arity_bounds op_mul = omega arith
arity_bounds op_sub = omega arith
arity_bounds op_div = omega arith
arity_bounds op_sdiv = omega arith
arity_bounds op_mod = omega arith
arity_bounds op_smod = omega arith
arity_bounds op_addmod = omega arith
arity_bounds op_mulmod = omega arith
arity_bounds op_exp = omega arith
arity_bounds op_lt = omega arith
arity_bounds op_gt = omega arith
arity_bounds op_slt = omega arith
arity_bounds op_sgt = omega arith
arity_bounds op_eq = omega arith
arity_bounds op_iszero = omega arith

bit-IsWord : (b : Bool) → IsWord (bit b)
bit-IsWord true = omega arith
bit-IsWord false = omega arith

mod-IsWord : (n : ℕ) → IsWord (n % two_pow256)
mod-IsWord n = omega arith

mod_of-IsWord : (a b : ℕ) → IsWord b → (b == 0) ≡ false → IsWord (Arithmetic.mod_of (pos a) b)
mod_of-IsWord a b h ne = rw mod_of_pos (lt_trans (mod-lt a (ground arith)) h)

mod_of-or_zero-IsWord :
    (n d z : ℕ) → IsWord d → IsWord z → IsWord (if d == 0 then z else Arithmetic.mod_of (pos n) d)
mod_of-or_zero-IsWord n d z hd hz = elim (Bool-cases (d == 0)) [
  | inl is_zero ↦ rw is_zero hz
  | inr more ↦ rw more (mod_of-IsWord n d hd more)
]

div-IsWord : (a b : ℕ) → IsWord a → IsWord (Arithmetic.div a b)
unfolding Arithmetic.div
div-IsWord a b ha = elim (Bool-cases (b == 0)) [
  | inl is_zero ↦ rw is_zero (omega arith)
  | inr more ↦ rw (more, mod_of_pos) (mod-IsWord (a / b))
]

sdiv-IsWord : (a b : ℕ) → IsWord (Arithmetic.sdiv a b)
unfolding Arithmetic.sdiv
sdiv-IsWord a b = elim (Bool-cases (b == 0)) [
  | inl is_zero ↦ rw is_zero (omega arith)
  | inr more ↦ rw more (to_twos-IsWord _)
]

-- Every handler pushes a word.
pub result-IsWord :
    (op : Opcode) (a b c : ℕ) → IsWord a → IsWord b → IsWord c → IsWord (result op a b c)
unfolding result
result-IsWord op_add a b c ha hb hc = unfold Arithmetic.add in rw mod_of_pos (mod-IsWord (a + b))
result-IsWord op_mul a b c ha hb hc = unfold Arithmetic.mul in rw mod_of_pos (mod-IsWord (a * b))
result-IsWord op_sub a b c ha hb hc = rw (sub_lem a b ha hb) (mod-IsWord _)
result-IsWord op_div a b c ha hb hc = div-IsWord a b ha
result-IsWord op_sdiv a b c ha hb hc = sdiv-IsWord a b
result-IsWord op_mod a b c ha hb hc = unfold Arithmetic.mod_op in mod_of-or_zero-IsWord a b b hb hb
result-IsWord op_smod a b c ha hb hc = unfold Arithmetic.smod in to_twos-IsWord _
result-IsWord op_addmod a b c ha hb hc =
    unfold Arithmetic.addmod in mod_of-or_zero-IsWord (a + b) c 0 hc (omega arith)
result-IsWord op_mulmod a b c ha hb hc =
    unfold Arithmetic.mulmod in mod_of-or_zero-IsWord (a * b) c 0 hc (omega arith)
result-IsWord op_exp a b c ha hb hc = rw exp_op-pow (mod-IsWord (a ^ b))
result-IsWord op_lt a b c ha hb hc = bit-IsWord _
result-IsWord op_gt a b c ha hb hc = bit-IsWord _
result-IsWord op_slt a b c ha hb hc = unfold Arithmetic.slt in bit-IsWord _
result-IsWord op_sgt a b c ha hb hc = unfold Arithmetic.slt in bit-IsWord _
result-IsWord op_eq a b c ha hb hc = bit-IsWord _
result-IsWord op_iszero a b c ha hb hc = bit-IsWord _

Agrees-ok :
    (max : ℕ) (r : Result EvmError (List ℕ × Stack)) (ws xs : List ℕ)
    → Agrees max r (ok (ws, xs))
    → (t : Stack) × (r ≡ ok (ws, t)) × (items t ≡ xs) × IsValid t × (t.max_height ≡ max)
Agrees-ok max (ok (vs, t)) ws xs (e, d, v, m) = (t, rw e, d, v, m)
Agrees-ok max (err e) ws xs h = absurd h

Agrees-err :
    (max : ℕ) (r : Result EvmError (List ℕ × Stack)) (e : EvmError)
    → Agrees max r (err e)
    → r ≡ err e
Agrees-err max (ok r) e h = absurd h
Agrees-err max (err e') e h = ap err h

pop_n_enough :
    (n : ℕ) (s : Stack)
    → IsValid s
    → n ≤ length (items s)
    → (t : Stack) × (pop_n n s ≡ ok (take n (items s), t))
      × (items t ≡ drop n (items s))
      × IsValid t
      × (t.max_height ≡ s.max_height)
unfolding run step
pop_n_enough n s v h =
    Agrees-ok s.max_height (pop_n n s) _ _
      (rw (le→ltb (length (items s)) n h) at (run-step s v (Call.pop_n n)))

pop_n_short :
    (n : ℕ) (s : Stack) → IsValid s → length (items s) < n → pop_n n s ≡ err stack_underflow
unfolding run step
pop_n_short n s v h =
    Agrees-err s.max_height (pop_n n s) _
      (rw (lt→ltb (length (items s)) n h) at (run-step s v (Call.pop_n n)))

push_room :
    (x : ℕ) (s : Stack)
    → IsValid s
    → length (items s) < s.max_height
    → (t : Stack) × (push x s ≡ ok t) × (items t ≡ x ∷ items s) × IsValid t
unfolding run step
push_room x s v h =
    let (t, e, i, w, m) =
      Agrees-ok s.max_height (push x s >>= λ t. ok ([], t)) [] (x ∷ items s)
        (rw (lt→leb s.max_height (length (items s)) h) at (run-step s v (Call.push x))) in
    (t, ground (arith, e), i, w)

length-items : (s : Stack) → length (items s) ≡ s.len
unfolding items
length-items s = length-items_of s.store s.len

get_or-IsWord : (xs : List ℕ) (i : ℕ) → All IsWord xs → IsWord (get_or xs i 0)
get_or-IsWord [] i h = omega arith
get_or-IsWord (x ∷ xs) zero h = h.0
get_or-IsWord (x ∷ xs) (suc i) h = get_or-IsWord xs i h.1

-- The value that a handler pushes on a stack with these items.
abbrev pub pushed : Opcode → List ℕ → ℕ
pushed op xs =
    let args = take (arity op) xs in result op (get_or args 0 0) (get_or args 1 0) (get_or args 2 0)

pushed-IsWord : (op : Opcode) (xs : List ℕ) → All IsWord xs → IsWord (pushed op xs)
pushed-IsWord op xs h =
    let args = All-take IsWord (arity op) xs h in
    result-IsWord op _ _ _ (get_or-IsWord _ 0 args) (get_or-IsWord _ 1 args)
      (get_or-IsWord _ 2 args)

-- On a valid stack of words an arithmetic handler throws a stack underflow if there are fewer
-- items than it pops, and otherwise replaces these by its result, the stack staying valid and all
-- its items words; what it leaves is what `stack_after` says of its opcode in plain arithmetic,
-- the operands in the order of the stack from the top.
pub handle_lem :
    (op : Opcode) (s : Stack)
    → IsValid s
    → All IsWord (items s)
    → ((length (items s) < arity op)
        × (handle op s ≡ err stack_underflow)
        × (stack_after op (items s) ≡ none))
      ⊎ ((t : Stack) × (arity op ≤ length (items s))
          × (handle op s ≡ ok t)
          × (items t ≡ pushed op (items s) ∷ drop (arity op) (items s))
          × IsValid t
          × All IsWord (items t)
          × (stack_after op (items s) ≡ some (items t)))
unfolding handle
handle_lem op s v words = elim (Bool-cases (ltb (length (items s)) (arity op))) [
  | inl few ↦ inl (
    ltb→lt _ _ few,
    rw (pop_n_short (arity op) s v (ltb→lt _ _ few)) refl,
    stack_after_short op (items s) (ltb→lt _ _ few),
  )
  | inr enough ↦
      let fits : arity op ≤ length (items s) = ground arith in
      let (t, e, i, w, m) = pop_n_enough (arity op) s v fits in
      let room : length (items t) < t.max_height = omega (
        arith,
        ap (λ l. length {A = ℕ} l) i,
        length-drop (arity op) (items s),
        arity_bounds op,
        length-items s,
        m,
        v.bounded,
      ) in
      let (u, e', i', w') = push_room (pushed op (items s)) t w room in
      let replaced : items u ≡ pushed op (items s) ∷ drop (arity op) (items s) =
        i' ∙ ap (λ l. pushed op (items s) ∷ l) i in
      inr (
        u,
        fits,
        rw e e',
        replaced,
        w',
        rw (i', i) (pushed-IsWord op (items s) words, All-drop IsWord (arity op) (items s) words),
        stack_after-result op (items s) words fits ∙ ap some (sym replaced),
      )
]
