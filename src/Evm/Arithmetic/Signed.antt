-- ===== src/Evm/Arithmetic/Signed.antt =====
-- Words as integers: two's complement, and the signed handlers.
use native.Mathlib.Nat.{div-add-mod, mod-lt}
use simple_p2p_blockchain.Common.{
  ℕ, zero, suc, ◌+◌, ◌-◌, ◌*◌, ◌/◌, ◌%◌, ◌^◌, ◌<◌, ◌≤◌, ◌≡◌, ◌≢◌, refl, ap, ◌∙◌, arith, ◌==◌,
  if◌then◌else◌, Bool, true, false, Bool-cases, inl, inr, ==_iff,
}
use simple_p2p_blockchain.Common.Int.{ℤ, pos, negsuc, tdiv, tmod, signed, abs}
use simple_p2p_blockchain.Evm.Arithmetic.{
  two_pow256, IsWord, from_twos, to_twos, sdiv, smod, add, sub, mod_of,
}

-- The integers that a word stands for.
abbrev pub InRange : ℤ → Type 0
InRange (pos n) = n < 2 ^ 255
InRange (negsuc n) = n < 2 ^ 255

-- A word is read back from the signed integer that `fromTwos` makes of it.
pub to_twos-from_twos : (a : ℕ) → IsWord a → to_twos (from_twos a) ≡ a
unfolding to_twos from_twos
to_twos-from_twos a h = ground arith

-- A signed integer of 256 bits is read back from the word that `toTwos` makes of it.
pub from_twos-to_twos : (z : ℤ) → InRange z → from_twos (to_twos z) ≡ z
unfolding to_twos from_twos
from_twos-to_twos (pos n) h = ground arith
from_twos-to_twos (negsuc n) h = ground arith

pub from_twos-InRange : (a : ℕ) → IsWord a → InRange (from_twos a)
unfolding from_twos
from_twos-InRange a h = ground arith

pub to_twos-IsWord : (z : ℤ) → IsWord (to_twos z)
unfolding to_twos
to_twos-IsWord (pos n) = omega arith
to_twos-IsWord (negsuc n) = omega arith

half_div : (n d : ℕ) → 2 ≤ d → 2 * (n / d) ≤ n
half_div n d h = grind (arith, div-add-mod n d)

div_by_one : (n : ℕ) → n / 1 ≡ n
div_by_one n = omega arith

signed-InRange : (b : Bool) (n : ℕ) → n < 2 ^ 255 → InRange (signed b n)
unfolding signed
signed-InRange true n h = ground arith
signed-InRange false n h = h

signed-suc : (n : ℕ) → signed true (suc n) ≡ negsuc n
unfolding signed
signed-suc n = ground arith

abbrev pub min_int : ℤ
min_int = negsuc (2 ^ 255 - 1)

abbrev pub minus_one : ℤ
minus_one = negsuc 0

abs_bound : (x : ℤ) → InRange x → abs x ≤ 2 ^ 255
abs_bound (pos n) h = omega arith
abs_bound (negsuc n) h = omega arith

abs_pos : (x : ℤ) → x ≢ pos 0 → 0 < abs x
abs_pos (pos zero) h = absurd (h refl)
abs_pos (pos (suc n)) h = omega arith
abs_pos (negsuc n) h = omega arith

-- A quotient of integers in range is in range, but for -2 ^ 255 by -1.
tdiv-InRange :
    (x y : ℤ) → InRange x → y ≢ pos 0 → ¬ ((x ≡ min_int) × (y ≡ minus_one)) → InRange (tdiv x y)
unfolding tdiv
tdiv-InRange x (pos zero) hx hy hm = absurd (hy refl)
tdiv-InRange (pos n) (pos (suc zero)) hx hy hm = rw div_by_one (signed-InRange false n hx)
tdiv-InRange (negsuc n) (pos (suc zero)) hx hy hm = rw (div_by_one, signed-suc) hx
tdiv-InRange x (pos (suc (suc d))) hx hy hm =
    signed-InRange _ (abs x / suc (suc d))
      (omega (arith, half_div (abs x) (suc (suc d)), abs_bound x hx))
tdiv-InRange (pos n) (negsuc zero) hx hy hm = rw div_by_one (signed-InRange true n hx)
tdiv-InRange (negsuc n) (negsuc zero) hx hy hm =
    rw (div_by_one) (signed-InRange false (suc n) (strict n hx (λ e. hm (ap negsuc e, refl))))
  where
    strict : (n : ℕ) → n < 2 ^ 255 → n ≢ 2 ^ 255 - 1 → suc n < 2 ^ 255
    strict n h ne = omega arith
tdiv-InRange x (negsuc (suc d)) hx hy hm =
    signed-InRange _ (abs x / suc (suc d))
      (omega (arith, half_div (abs x) (suc (suc d)), abs_bound x hx))

from_twos-ne-zero : (b : ℕ) → IsWord b → (b == 0) ≡ false → from_twos b ≢ pos 0
from_twos-ne-zero b h ne e = absurd (ground (arith, ap to_twos e, to_twos-from_twos b h, zero_word))
  where
    zero_word : to_twos (pos 0) ≡ 0
    zero_word = unfold to_twos in refl

-- On two words other than -2 ^ 255 and -1, SDIV is the quotient of the integers that they stand
-- for, cut towards 0, and 0 for a divisor 0.
pub sdiv_lem :
    (a b : ℕ)
    → IsWord a
    → IsWord b
    → ¬ ((from_twos a ≡ min_int) × (from_twos b ≡ minus_one))
    → from_twos (sdiv a b) ≡ (if b == 0 then pos 0 else tdiv (from_twos a) (from_twos b))
unfolding sdiv
sdiv_lem a b ha hb hm = elim (Bool-cases (b == 0)) [
  | inl none ↦ rw none (unfold from_twos in refl)
  | inr more ↦ rw more (
      from_twos-to_twos _ (
        tdiv-InRange (from_twos a) (from_twos b) (from_twos-InRange a ha)
          (from_twos-ne-zero b hb more) hm))
]

tmod-InRange : (x y : ℤ) → InRange y → y ≢ pos 0 → InRange (tmod x y)
unfolding tmod
tmod-InRange x y hy ne =
    signed-InRange _ (abs x % abs y) (omega (arith, mod-lt (abs x) (abs_pos y ne), abs_bound y hy))

-- On two words SMOD is the remainder of the integers that they stand for, with the sign of the
-- dividend, and 0 for a divisor 0.
pub smod_lem :
    (a b : ℕ)
    → IsWord a
    → IsWord b
    → from_twos (smod a b) ≡ (if b == 0 then pos 0 else tmod (from_twos a) (from_twos b))
unfolding smod
smod_lem a b ha hb = elim (Bool-cases (b == 0)) [
  | inl none ↦ rw (none, (==_iff b 0).0 none) (unfold from_twos to_twos in refl)
  | inr more ↦ rw more (
      from_twos-to_twos _ (
        tmod-InRange (from_twos a) (from_twos b) (from_twos-InRange b hb)
          (from_twos-ne-zero b hb more)))
]

-- `mod` of a number that is not negative, and of a difference of words.
pub mod_of_pos : (a b : ℕ) → mod_of (pos a) b ≡ a % b
unfolding mod_of tmod signed
mod_of_pos a b = refl

pub sub_lem : (a b : ℕ) → IsWord a → IsWord b → sub a b ≡ (a + two_pow256 - b) % two_pow256
unfolding sub mod_of tmod signed
sub_lem a b ha hb = ground arith

-- On two words SUB takes back what ADD added, also where the sum wraps.
pub sub-add : (a b : ℕ) → IsWord a → IsWord b → sub (add a b) b ≡ a
unfolding add
sub-add a b ha hb = rw mod_of_pos (sub_lem ((a + b) % two_pow256) b (omega arith) hb ∙ omega arith)
