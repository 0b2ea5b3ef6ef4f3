-- ===== src/Evm/Arithmetic.antt =====
-- packages/evm/src/opcodes/functions.ts, the handlers of 0x01 to 0x0a and 0x10 to 0x15, and the
-- functions of packages/evm/src/opcodes/util.ts that they call.
pub mod Power
pub mod Signed
pub mod Words
pub mod Handlers
use simple_p2p_blockchain.Common.{
  ℕ, zero, suc, ◌+◌, ◌-◌, ◌*◌, ◌/◌, ◌%◌, ◌^◌, ◌<◌, Bool, List, [], ◌∷◌, ltb, leb, ◌==◌, not,
  if◌then◌else◌, Result, ok, err, ◌>>=◌, get_or,
}
use simple_p2p_blockchain.Common.Int.{ℤ, pos, negsuc, sub_ℕ, ltb_ℤ, tdiv, tmod, pos_part, neg_part}
use simple_p2p_blockchain.Evm.{EvmError}
use simple_p2p_blockchain.Evm.Stack.{Stack, push, pop, pop_n}

abbrev pub two_pow256 : ℕ
two_pow256 = 2 ^ 256

abbrev pub IsWord : ℕ → Type 0
IsWord a = a < two_pow256

-- `mod(a, b)`, for an integer `a` and a `b` that is not negative.
unfoldable pub mod_of : ℤ → ℕ → ℕ
unfolding tmod
mod_of a b = elim (tmod a (pos b)) [ pos r ↦ r | negsuc r ↦ b - suc r ]

-- `BigInt.asIntN(256, a)` of a word.
unfoldable pub from_twos : ℕ → ℤ
from_twos a =
    let w = a % two_pow256 in if ltb w (2 ^ 255) then pos w else negsuc (two_pow256 - w - 1)

-- `BigInt.asUintN(256, a)`.
unfoldable pub to_twos : ℤ → ℕ
to_twos (pos n) = n % two_pow256
to_twos (negsuc n) = two_pow256 - 1 - n % two_pow256

-- The loop of `exponentiation`, for the modulus `n`; `suc exp` rounds are enough for `exp`.
unfoldable pub exponentiation_loop : ℕ → ℕ → ℕ → ℕ → ℕ → ℕ
exponentiation_loop n zero t bas exp = t
exponentiation_loop n (suc fuel) t bas exp =
    let odd = t * bas % n in
    let rest =
      exponentiation_loop n fuel (if exp % 2 == 0 then t else odd) (bas * bas % n) (exp / 2) in
    if ltb 0 exp then rest else t

unfoldable pub exponentiation : ℕ → ℕ → ℕ
unfolding exponentiation_loop
exponentiation bas exp = exponentiation_loop two_pow256 (suc exp) 1 bas exp

unfoldable pub add : ℕ → ℕ → ℕ
unfolding mod_of
add a b = mod_of (pos (a + b)) two_pow256

unfoldable pub mul : ℕ → ℕ → ℕ
unfolding mod_of
mul a b = mod_of (pos (a * b)) two_pow256

unfoldable pub sub : ℕ → ℕ → ℕ
unfolding mod_of
sub a b = mod_of (sub_ℕ a b) two_pow256

unfoldable pub div : ℕ → ℕ → ℕ
unfolding mod_of
div a b = if b == 0 then 0 else mod_of (pos (a / b)) two_pow256

unfoldable pub sdiv : ℕ → ℕ → ℕ
unfolding to_twos from_twos tdiv
sdiv a b = if b == 0 then 0 else to_twos (tdiv (from_twos a) (from_twos b))

unfoldable pub mod_op : ℕ → ℕ → ℕ
unfolding mod_of
mod_op a b = if b == 0 then b else mod_of (pos a) b

unfoldable pub smod : ℕ → ℕ → ℕ
unfolding to_twos from_twos tmod
smod a b = to_twos (if b == 0 then pos b else tmod (from_twos a) (from_twos b))

unfoldable pub addmod : ℕ → ℕ → ℕ → ℕ
unfolding mod_of
addmod a b c = if c == 0 then 0 else mod_of (pos (a + b)) c

unfoldable pub mulmod : ℕ → ℕ → ℕ → ℕ
unfolding mod_of
mulmod a b c = if c == 0 then 0 else mod_of (pos (a * b)) c

-- The part of the handler of EXP behind the switch.
unfoldable pub exp_general : ℕ → ℕ → ℕ
exp_general base exponent =
    if exponent == 0 then 1 else if base == 0 then base else exponentiation base exponent

-- The three powers of 2 are constants of packages/utils.
unfoldable pub exp_op : ℕ → ℕ → ℕ
exp_op base exponent =
    if base == 2
    then (if exponent == 96
        then 79228162514264337593543950336
        else if exponent == 160
        then 1461501637330902918203684832716283019655932542976
        else if exponent == 224
        then 26959946667150639794667015087019630673637144422540572481103610249216
        else exp_general base exponent)
    else exp_general base exponent

abbrev pub bit : Bool → ℕ
bit b = if b then 1 else 0

unfoldable pub slt : ℕ → ℕ → ℕ
unfolding from_twos
slt a b = bit (ltb_ℤ (from_twos a) (from_twos b))

-- The handlers, each by the values that it pops.
pub data Opcode : Type 0 where
  op_add op_mul op_sub op_div op_sdiv op_mod op_smod op_addmod op_mulmod op_exp : Opcode
  op_lt op_gt op_slt op_sgt op_eq op_iszero : Opcode

-- How many values a handler pops.
unfoldable pub arity : Opcode → ℕ
arity op_addmod = 3
arity op_mulmod = 3
arity op_iszero = 1
arity _ = 2

-- The value that a handler pushes, from the values popped, the top one first.
unfoldable pub result : Opcode → ℕ → ℕ → ℕ → ℕ
result op_add a b c = add a b
result op_mul a b c = mul a b
result op_sub a b c = sub a b
result op_div a b c = div a b
result op_sdiv a b c = sdiv a b
result op_mod a b c = mod_op a b
result op_smod a b c = smod a b
result op_addmod a b c = addmod a b c
result op_mulmod a b c = mulmod a b c
result op_exp a b c = exp_op a b
result op_lt a b c = bit (ltb a b)
result op_gt a b c = bit (ltb b a)
result op_slt a b c = slt a b
result op_sgt a b c = slt b a
result op_eq a b c = bit (a == b)
result op_iszero a b c = bit (a == 0)

-- `popN` (for ISZERO `pop`, which throws and returns what `popN(1)` does), and one `push`.
unfoldable pub handle : Opcode → Stack → Result EvmError Stack
handle op s = do
  (args, t) ← pop_n (arity op) s
  push (result op (get_or args 0 0) (get_or args 1 0) (get_or args 2 0)) t
