-- ===== src/Evm/Arithmetic/Words.antt =====
-- What each arithmetic opcode does to a stack of words, as the yellow paper has it.
use native.Mathlib.Nat.{mod-eq_of_lt, div-le_self, lt_of_le_of_lt}
use simple_p2p_blockchain.Common.{
  ℕ, ◌+◌, ◌-◌, ◌*◌, ◌/◌, ◌%◌, ◌^◌, ◌≤◌, ◌<◌, ◌==◌, ltb, if◌then◌else◌, Option, none, some, List, [],
  ◌∷◌, length, take, drop, get_or, ◌≡◌, refl, arith, All, Bool-cases, inl, inr,
}
use simple_p2p_blockchain.Common.Int.{pos, ltb_ℤ, tdiv, tmod}
use simple_p2p_blockchain.Evm.Arithmetic
use simple_p2p_blockchain.Evm.Arithmetic.{
  two_pow256, IsWord, Opcode, op_add, op_mul, op_sub, op_div, op_sdiv, op_mod, op_smod, op_addmod,
  op_mulmod, op_exp, op_lt, op_gt, op_slt, op_sgt, op_eq, op_iszero, arity, result, bit, from_twos,
  to_twos,
}
use simple_p2p_blockchain.Evm.Arithmetic.Power.{exp_op-pow}
use simple_p2p_blockchain.Evm.Arithmetic.Signed.{mod_of_pos, sub_lem}

abbrev pub one_word : (ℕ → ℕ) → List ℕ → Option (List ℕ)
one_word f (a ∷ xs) = some (f a ∷ xs)
one_word f _ = none

abbrev pub two_words : (ℕ → ℕ → ℕ) → List ℕ → Option (List ℕ)
two_words f (a ∷ b ∷ xs) = some (f a b ∷ xs)
two_words f _ = none

abbrev pub three_words : (ℕ → ℕ → ℕ → ℕ) → List ℕ → Option (List ℕ)
three_words f (a ∷ b ∷ c ∷ xs) = some (f a b c ∷ xs)
three_words f _ = none

-- The stack after an opcode, the top first; `none` where there are too few words.
unfoldable pub stack_after : Opcode → List ℕ → Option (List ℕ)
stack_after op_add xs = two_words (λ a b. (a + b) % two_pow256) xs
stack_after op_mul xs = two_words (λ a b. a * b % two_pow256) xs
stack_after op_sub xs = two_words (λ a b. (a + two_pow256 - b) % two_pow256) xs
stack_after op_div xs = two_words (λ a b. if b == 0 then 0 else a / b) xs
stack_after op_sdiv xs =
    two_words (λ a b. if b == 0 then 0 else to_twos (tdiv (from_twos a) (from_twos b))) xs
stack_after op_mod xs = two_words (λ a b. if b == 0 then 0 else a % b) xs
stack_after op_smod xs =
    two_words (λ a b. if b == 0 then 0 else to_twos (tmod (from_twos a) (from_twos b))) xs
stack_after op_addmod xs = three_words (λ a b n. if n == 0 then 0 else (a + b) % n) xs
stack_after op_mulmod xs = three_words (λ a b n. if n == 0 then 0 else a * b % n) xs
stack_after op_exp xs = two_words (λ a b. a ^ b % two_pow256) xs
stack_after op_lt xs = two_words (λ a b. if ltb a b then 1 else 0) xs
stack_after op_gt xs = two_words (λ a b. if ltb b a then 1 else 0) xs
stack_after op_slt xs = two_words (λ a b. if ltb_ℤ (from_twos a) (from_twos b) then 1 else 0) xs
stack_after op_sgt xs = two_words (λ a b. if ltb_ℤ (from_twos b) (from_twos a) then 1 else 0) xs
stack_after op_eq xs = two_words (λ a b. if a == b then 1 else 0) xs
stack_after op_iszero xs = one_word (λ a. if a == 0 then 1 else 0) xs

-- What a handler makes of the items that it pops, a missing one being 0.
abbrev pub with_args : (ℕ → ℕ → ℕ → ℕ) → ℕ → List ℕ → List ℕ
with_args f n xs =
    f (get_or (take n xs) 0 0) (get_or (take n xs) 1 0) (get_or (take n xs) 2 0) ∷ drop n xs

two_words-with_args :
    (f : ℕ → ℕ → ℕ → ℕ) (g : ℕ → ℕ → ℕ) (xs : List ℕ)
    → ((a b : ℕ) → IsWord a → IsWord b → f a b 0 ≡ g a b)
    → All IsWord xs
    → 2 ≤ length xs
    → two_words g xs ≡ some (with_args f 2 xs)
two_words-with_args f g [] same words enough = absurd (omega arith)
two_words-with_args f g (a ∷ []) same words enough = absurd (omega arith)
two_words-with_args f g (a ∷ b ∷ xs) same words enough = ground (arith, same a b words.0 words.1.0)

three_words-with_args :
    (f g : ℕ → ℕ → ℕ → ℕ) (xs : List ℕ)
    → ((a b c : ℕ) → f a b c ≡ g a b c)
    → 3 ≤ length xs
    → three_words g xs ≡ some (with_args f 3 xs)
three_words-with_args f g [] same enough = absurd (omega arith)
three_words-with_args f g (a ∷ []) same enough = absurd (omega arith)
three_words-with_args f g (a ∷ b ∷ []) same enough = absurd (omega arith)
three_words-with_args f g (a ∷ b ∷ c ∷ xs) same enough = ground (arith, same a b c)

one_word-with_args :
    (f : ℕ → ℕ → ℕ → ℕ) (g : ℕ → ℕ) (xs : List ℕ)
    → ((a : ℕ) → f a 0 0 ≡ g a)
    → 1 ≤ length xs
    → one_word g xs ≡ some (with_args f 1 xs)
one_word-with_args f g [] same enough = absurd (omega arith)
one_word-with_args f g (a ∷ xs) same enough = ground (arith, same a)

-- The value of `mod`, of an integer that is not negative.
mod_or_zero :
    (n d z : ℕ)
    → z ≡ 0
    → (if d == 0 then z else Arithmetic.mod_of (pos n) d) ≡ (if d == 0 then 0 else n % d)
mod_or_zero n d z e = elim (Bool-cases (d == 0)) [
  | inl none_left ↦ rw none_left e
  | inr more ↦ rw more (mod_of_pos n d)
]

div-word : (a b : ℕ) → IsWord a → Arithmetic.div a b ≡ (if b == 0 then 0 else a / b)
unfolding Arithmetic.div
div-word a b ha = elim (Bool-cases (b == 0)) [
  | inl none_left ↦ rw none_left refl
  | inr more ↦ rw (more, mod_of_pos) (mod-eq_of_lt (lt_of_le_of_lt (div-le_self a b) ha))
]

mod_op-word : (a b : ℕ) → Arithmetic.mod_op a b ≡ (if b == 0 then 0 else a % b)
unfolding Arithmetic.mod_op
mod_op-word a b = elim (Bool-cases (b == 0)) [
  | inl none_left ↦ rw none_left (ground (arith, none_left))
  | inr more ↦ rw more (mod_of_pos a b)
]

smod-word :
    (a b : ℕ)
    → Arithmetic.smod a b ≡ (if b == 0 then 0 else to_twos (tmod (from_twos a) (from_twos b)))
unfolding Arithmetic.smod
smod-word a b = elim (Bool-cases (b == 0)) [
  | inl none_left ↦ rw none_left (unfold to_twos in ground (arith, none_left))
  | inr more ↦ rw more refl
]

add-word : (a b : ℕ) → Arithmetic.add a b ≡ (a + b) % two_pow256
unfolding Arithmetic.add
add-word a b = mod_of_pos (a + b) two_pow256

mul-word : (a b : ℕ) → Arithmetic.mul a b ≡ a * b % two_pow256
unfolding Arithmetic.mul
mul-word a b = mod_of_pos (a * b) two_pow256

sdiv-word :
    (a b : ℕ)
    → Arithmetic.sdiv a b ≡ (if b == 0 then 0 else to_twos (tdiv (from_twos a) (from_twos b)))
unfolding Arithmetic.sdiv
sdiv-word a b = refl

slt-word : (a b : ℕ) → Arithmetic.slt a b ≡ (if ltb_ℤ (from_twos a) (from_twos b) then 1 else 0)
unfolding Arithmetic.slt
slt-word a b = refl

addmod-word : (a b n : ℕ) → Arithmetic.addmod a b n ≡ (if n == 0 then 0 else (a + b) % n)
unfolding Arithmetic.addmod
addmod-word a b n = mod_or_zero (a + b) n 0 refl

mulmod-word : (a b n : ℕ) → Arithmetic.mulmod a b n ≡ (if n == 0 then 0 else a * b % n)
unfolding Arithmetic.mulmod
mulmod-word a b n = mod_or_zero (a * b) n 0 refl

-- Every handler's value, the items in the order in which they are popped.
pub stack_after-result :
    (op : Opcode) (xs : List ℕ)
    → All IsWord xs
    → arity op ≤ length xs
    → stack_after op xs ≡ some (with_args (result op) (arity op) xs)
unfolding stack_after arity result
stack_after-result op_add xs h le =
    two_words-with_args (result op_add) _ xs (λ a b _ _. add-word a b) h le
stack_after-result op_mul xs h le =
    two_words-with_args (result op_mul) _ xs (λ a b _ _. mul-word a b) h le
stack_after-result op_sub xs h le =
    two_words-with_args (result op_sub) _ xs (λ a b ha hb. sub_lem a b ha hb) h le
stack_after-result op_div xs h le =
    two_words-with_args (result op_div) _ xs (λ a b ha _. div-word a b ha) h le
stack_after-result op_sdiv xs h le =
    two_words-with_args (result op_sdiv) _ xs (λ a b _ _. sdiv-word a b) h le
stack_after-result op_mod xs h le =
    two_words-with_args (result op_mod) _ xs (λ a b _ _. mod_op-word a b) h le
stack_after-result op_smod xs h le =
    two_words-with_args (result op_smod) _ xs (λ a b _ _. smod-word a b) h le
stack_after-result op_addmod xs h le =
    three_words-with_args (result op_addmod) _ xs (λ a b c. addmod-word a b c) le
stack_after-result op_mulmod xs h le =
    three_words-with_args (result op_mulmod) _ xs (λ a b c. mulmod-word a b c) le
stack_after-result op_exp xs h le =
    two_words-with_args (result op_exp) _ xs (λ a b _ _. exp_op-pow a b) h le
stack_after-result op_lt xs h le = two_words-with_args (result op_lt) _ xs (λ a b _ _. refl) h le
stack_after-result op_gt xs h le = two_words-with_args (result op_gt) _ xs (λ a b _ _. refl) h le
stack_after-result op_slt xs h le =
    two_words-with_args (result op_slt) _ xs (λ a b _ _. slt-word a b) h le
stack_after-result op_sgt xs h le =
    two_words-with_args (result op_sgt) _ xs (λ a b _ _. slt-word b a) h le
stack_after-result op_eq xs h le = two_words-with_args (result op_eq) _ xs (λ a b _ _. refl) h le
stack_after-result op_iszero xs h le = one_word-with_args (result op_iszero) _ xs (λ a. refl) le

one_word_short : (g : ℕ → ℕ) (xs : List ℕ) → length xs < 1 → one_word g xs ≡ none
one_word_short g [] few = refl
one_word_short g (a ∷ xs) few = absurd (omega arith)

two_words_short : (g : ℕ → ℕ → ℕ) (xs : List ℕ) → length xs < 2 → two_words g xs ≡ none
two_words_short g [] few = refl
two_words_short g (a ∷ []) few = refl
two_words_short g (a ∷ b ∷ xs) few = absurd (omega arith)

three_words_short : (g : ℕ → ℕ → ℕ → ℕ) (xs : List ℕ) → length xs < 3 → three_words g xs ≡ none
three_words_short g [] few = refl
three_words_short g (a ∷ []) few = refl
three_words_short g (a ∷ b ∷ []) few = refl
three_words_short g (a ∷ b ∷ c ∷ xs) few = absurd (omega arith)

pub stack_after_short :
    (op : Opcode) (xs : List ℕ) → length xs < arity op → stack_after op xs ≡ none
unfolding stack_after arity
stack_after_short op_add xs few = two_words_short _ xs few
stack_after_short op_mul xs few = two_words_short _ xs few
stack_after_short op_sub xs few = two_words_short _ xs few
stack_after_short op_div xs few = two_words_short _ xs few
stack_after_short op_sdiv xs few = two_words_short _ xs few
stack_after_short op_mod xs few = two_words_short _ xs few
stack_after_short op_smod xs few = two_words_short _ xs few
stack_after_short op_addmod xs few = three_words_short _ xs few
stack_after_short op_mulmod xs few = three_words_short _ xs few
stack_after_short op_exp xs few = two_words_short _ xs few
stack_after_short op_lt xs few = two_words_short _ xs few
stack_after_short op_gt xs few = two_words_short _ xs few
stack_after_short op_slt xs few = two_words_short _ xs few
stack_after_short op_sgt xs few = two_words_short _ xs few
stack_after_short op_eq xs few = two_words_short _ xs few
stack_after_short op_iszero xs few = one_word_short _ xs few
