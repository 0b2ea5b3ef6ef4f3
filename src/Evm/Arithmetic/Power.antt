-- ===== src/Evm/Arithmetic/Power.antt =====
-- `exponentiation` and EXP are powers modulo 2 ^ 256.
use native.Mathlib.Nat.{
  pow-suc, pow-zero, mul_assoc, mul_comm, mul-one, one-mul, mul-add-mod_self_left, div-add-mod,
  mod-eq_of_lt, mod-lt,
}
use simple_p2p_blockchain.Common.{
  ℕ, zero, suc, ◌+◌, ◌*◌, ◌/◌, ◌%◌, ◌^◌, ◌<◌, ◌≡◌, ◌≢◌, refl, sym, ap, ◌∙◌, arith, ltb, ◌==◌,
  Bool-cases, inl, inr, ==_iff, true,
}
use simple_p2p_blockchain.Evm.Arithmetic.{
  exponentiation_loop, exponentiation, exp_general, exp_op, two_pow256,
}

module _ (n : ℕ) where
  mod-mul : (a b : ℕ) → a % n * b % n ≡ a * b % n
  mod-mul a b = sym (
      ap (λ z. z * b % n) (sym (div-add-mod a n))
      ∙ ap (λ z. z % n) split
      ∙ mul-add-mod_self_left n (a / n * b) (a % n * b))
    where
      split : (n * (a / n) + a % n) * b ≡ n * (a / n * b) + a % n * b
      split = omega arith

  mul-mod : (a b : ℕ) → a * (b % n) % n ≡ a * b % n
  mul-mod a b = rw (mul_comm a (b % n)) (mod-mul b a ∙ ap (λ z. z % n) (mul_comm b a))

  mod-pow : (a k : ℕ) → (a % n) ^ k % n ≡ a ^ k % n
  mod-pow a zero = rw (pow-zero, pow-zero)
  mod-pow a (suc k) =
      rw (pow-suc, pow-suc)
        (mul-mod ((a % n) ^ k) a
          ∙ sym (mod-mul ((a % n) ^ k) a)
          ∙ ap (λ z. z * a % n) (mod-pow a k)
          ∙ mod-mul (a ^ k) a)

pow_square : (a k : ℕ) → (a * a) ^ k ≡ a ^ (2 * k)
pow_square a zero = rw (pow-zero, pow-zero)
pow_square a (suc k) = rw (double k, pow-suc, pow-suc, pow-suc, pow_square a k) (omega arith)
  where
    double : (k : ℕ) → 2 * suc k ≡ suc (suc (2 * k))
    double k = omega arith

pow_even : (a e : ℕ) → e % 2 ≡ 0 → a ^ e ≡ (a * a) ^ (e / 2)
pow_even a e h = ap (λ z. a ^ z) half ∙ sym (pow_square a (e / 2))
  where
    half : e ≡ 2 * (e / 2)
    half = omega arith

pow_odd : (a e : ℕ) → e % 2 ≢ 0 → a ^ e ≡ a * (a * a) ^ (e / 2)
pow_odd a e h =
    ap (λ z. a ^ z) half ∙ pow-suc a (2 * (e / 2)) ∙ rw (sym (pow_square a (e / 2))) (mul_comm _ _)
  where
    half : e ≡ suc (2 * (e / 2))
    half = omega arith

module _ (n : ℕ) (pos : 0 < n) where
  reduce : (t b k : ℕ) → t * (b % n) ^ k % n ≡ t * b ^ k % n
  reduce t b k =
      sym (mul-mod n t ((b % n) ^ k)) ∙ ap (λ z. t * z % n) (mod-pow n b k) ∙ mul-mod n t (b ^ k)

  even_round : (t bas e : ℕ) → e % 2 ≡ 0 → t * (bas * bas % n) ^ (e / 2) % n ≡ t * bas ^ e % n
  even_round t bas e h = reduce t (bas * bas) (e / 2) ∙ ap (λ z. t * z % n) (sym (pow_even bas e h))

  odd_round :
      (t bas e : ℕ) → e % 2 ≢ 0 → t * bas % n * (bas * bas % n) ^ (e / 2) % n ≡ t * bas ^ e % n
  odd_round t bas e h =
      reduce (t * bas % n) (bas * bas) (e / 2)
      ∙ mod-mul n (t * bas) ((bas * bas) ^ (e / 2))
      ∙ ap (λ z. z % n) (mul_assoc t bas ((bas * bas) ^ (e / 2)))
      ∙ ap (λ z. t * z % n) (sym (pow_odd bas e h))

  exponentiation_loop-pow :
      (fuel t bas e : ℕ) → e < fuel → t < n → exponentiation_loop n fuel t bas e ≡ t * bas ^ e % n
  unfolding exponentiation_loop
  exponentiation_loop-pow zero t bas e h ht = absurd (omega arith)
  exponentiation_loop-pow (suc fuel) t bas e h ht = elim (Bool-cases (ltb 0 e)) [
    | inr none ↦
        let e_zero : e ≡ 0 = ground arith in
        rw none (rw (e_zero, pow-zero) (rw mul-one (sym (mod-eq_of_lt ht))))
    | inl more ↦ elim (Bool-cases (e % 2 == 0)) [
      | inl even ↦
          rw (more, even)
            (exponentiation_loop-pow fuel t (bas * bas % n) (e / 2) (ground arith) ht
              ∙ even_round t bas e (ground arith))
      | inr odd ↦
          rw (more, odd)
            (exponentiation_loop-pow fuel (t * bas % n) (bas * bas % n) (e / 2) (ground arith)
                (mod-lt (t * bas) pos)
              ∙ odd_round t bas e (ground arith))
    ]
  ]

-- Repeated squaring is the power modulo 2 ^ 256, for every base and exponent.
pub exponentiation-pow : (bas e : ℕ) → exponentiation bas e ≡ bas ^ e % two_pow256
unfolding exponentiation
exponentiation-pow bas e =
    exponentiation_loop-pow two_pow256 (omega arith) (suc e) 1 bas e (omega arith) (omega arith)
    ∙ ap (λ z. z % two_pow256) (one-mul (bas ^ e))

zero_pow : (e : ℕ) → e ≢ 0 → 0 ^ e ≡ 0
zero_pow zero h = absurd (h refl)
zero_pow (suc e) h = rw pow-suc (omega arith)

exp_general-pow : (base e : ℕ) → exp_general base e ≡ base ^ e % two_pow256
unfolding exp_general
exp_general-pow base e = elim (Bool-cases (e == 0)) [
  | inl none ↦ rw (none, (==_iff e 0).0 none, pow-zero) refl
  | inr more ↦ elim (Bool-cases (base == 0)) [
    | inl nought ↦
        rw (more, nought) (rw ((==_iff base 0).0 nought, zero_pow e (λ p. ground arith)) refl)
    | inr positive ↦ rw (more, positive) (exponentiation-pow base e)
  ]
]

constant_power :
    (base e k c : ℕ)
    → (base == 2) ≡ true
    → (e == k) ≡ true
    → c ≡ 2 ^ k % two_pow256
    → c ≡ base ^ e % two_pow256
constant_power base e k c hb he hc = rw ((==_iff base 2).0 hb, (==_iff e k).0 he) hc

-- EXP is the power modulo 2 ^ 256, also where it takes a shortcut.
pub exp_op-pow : (base e : ℕ) → exp_op base e ≡ base ^ e % two_pow256
unfolding exp_op
exp_op-pow base e = elim (Bool-cases (base == 2)) [
  | inr other ↦ rw other (exp_general-pow base e)
  | inl two ↦ elim (Bool-cases (e == 96)) [
    | inl at_96 ↦ rw (two, at_96) (constant_power base e 96 _ two at_96 refl)
    | inr not_96 ↦ elim (Bool-cases (e == 160)) [
      | inl at_160 ↦ rw (two, not_96, at_160) (constant_power base e 160 _ two at_160 refl)
      | inr not_160 ↦ elim (Bool-cases (e == 224)) [
        | inl at_224 ↦
            rw (two, not_96, not_160, at_224) (constant_power base e 224 _ two at_224 refl)
        | inr not_224 ↦ rw (two, not_96, not_160, not_224) (exp_general-pow base e)
      ]
    ]
  ]
]
