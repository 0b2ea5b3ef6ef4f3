-- ===== src/Evm/Shifts.antt =====
-- packages/evm/src/opcodes/functions.ts: the shifts SHL and SHR.
use native.Mathlib.Nat.{
  pow-suc, pow-le-pow_right, div-eq_of_lt, mul_assoc, mul-mod_left, lt_of_lt_of_le,
}
use simple_p2p_blockchain.Common.{
  ℕ, zero, suc, ◌+◌, ◌-◌, ◌*◌, ◌/◌, ◌%◌, ◌^◌, ◌<◌, ◌≤◌, ◌≡◌, refl, sym, ap, ◌∙◌, arith, Bool-cases,
  inl, inr, ltb, ltb→lt, if◌then◌else◌,
}
use simple_p2p_blockchain.Evm.Arithmetic.{two_pow256, IsWord}

-- `& MAX_INTEGER_BIGINT` keeps the lowest 256 bits.
unfoldable pub shl : ℕ → ℕ → ℕ
shl a b = if ltb 256 a then 0 else b * 2 ^ a % two_pow256

unfoldable pub shr : ℕ → ℕ → ℕ
shr a b = if ltb 256 a then 0 else b / 2 ^ a

pow_beyond : (k : ℕ) → 2 ^ (k + 256) ≡ 2 ^ k * two_pow256
pow_beyond zero = refl
pow_beyond (suc k) =
    ap (λ n. 2 ^ n) (omega arith)
    ∙ pow-suc 2 (k + 256)
    ∙ rw (pow_beyond k, pow-suc 2 k) (omega arith)

multiple_beyond : (a b : ℕ) → 256 < a → b * 2 ^ a % two_pow256 ≡ 0
multiple_beyond a b h =
    ap (λ n. b * 2 ^ n % two_pow256) exponent
    ∙ rw (pow_beyond (a - 256), sym (mul_assoc b (2 ^ (a - 256)) two_pow256))
        (mul-mod_left (b * 2 ^ (a - 256)) two_pow256)
  where
    exponent : a ≡ a - 256 + 256
    exponent = omega (arith, h)

-- SHL is the product with the power of 2, modulo 2 ^ 256, also for the distances above 256 that it
-- answers without a shift.
pub shl-pow : (a b : ℕ) → shl a b ≡ b * 2 ^ a % two_pow256
unfolding shl
shl-pow a b = elim (Bool-cases (ltb 256 a)) [
  | inl far ↦ rw far (sym (multiple_beyond a b (ltb→lt 256 a far)))
  | inr near ↦ rw near refl
]

-- On a word SHR is the quotient by the power of 2, also for the distances above 256 that it
-- answers without a shift.
pub shr-pow : (a b : ℕ) → IsWord b → shr a b ≡ b / 2 ^ a
unfolding shr
shr-pow a b h = elim (Bool-cases (ltb 256 a)) [
  | inl far ↦
      let big : 2 ^ 256 ≤ 2 ^ a =
        pow-le-pow_right {n = 2} (omega arith) {i = 256} {j = a}
          (omega (arith, ltb→lt 256 a far)) in
      rw far (sym (div-eq_of_lt (lt_of_lt_of_le h big)))
  | inr near ↦ rw near refl
]
