-- ===== src/Tests/Account.antt =====
-- Accounts, over the hexadecimal conversions of the RLP package.
use simple_p2p_blockchain.Common.{
  ℕ, List, Option, none, some, ok, err, ◌≡◌, ◌≢◌, ◌↔◌, refl, arith, true, false, All, IsByte, ◌==◌,
  if◌then◌else◌,
}
use simple_p2p_blockchain.Rlp.Hex
use simple_p2p_blockchain.Rlp.Hex.Digits.{hex_pairs-bytes_to_hex}
use simple_p2p_blockchain.Utils.Numbers.{NobleHex}
use simple_p2p_blockchain.Utils.Account.{
  serialize, account_from_rlp, is_empty, not_loaded, keccak256_null, keccak256_rlp,
}
use simple_p2p_blockchain.Utils.Account.RoundTrip.{full_account, account_from_rlp-serialize}
use simple_p2p_blockchain.Utils.Account.Emptiness.{is_empty_lem}

abbrev pairs : List ℕ → Option (List ℕ)
pairs text = elim (Hex.hex_pairs text) [ err e ↦ none | ok bs ↦ some bs ]

pairs-bytes_to_hex : (bs : List ℕ) → All IsByte bs → pairs (Hex.bytes_to_hex bs) ≡ some bs
pairs-bytes_to_hex bs h = ground (arith, hex_pairs-bytes_to_hex bs h)

abbrev noble_hex : NobleHex
noble_hex = record {
  to_text = λ bs. Hex.bytes_to_hex bs;
  of_text = pairs;
  to_text-eq = λ bs h. refl;
  of_text-eq = λ bs h. pairs-bytes_to_hex bs h;
}

keccak256_rlp-IsByte : All IsByte keccak256_rlp
keccak256_rlp-IsByte = omega arith

keccak256_null-IsByte : All IsByte keccak256_null
keccak256_null-IsByte = omega arith

account_from_rlp-serialize_example :
    (bs : List ℕ) × (serialize noble_hex
        (full_account 3 1000000 keccak256_rlp keccak256_null none (some 7))
      ≡ ok bs)
    × (account_from_rlp noble_hex bs
        ≡ ok (full_account 3 1000000 keccak256_rlp keccak256_null (some 0) (some 0)))
account_from_rlp-serialize_example =
    account_from_rlp-serialize noble_hex 3 1000000 keccak256_rlp keccak256_null none (some 7)
      (omega arith) (omega arith) keccak256_rlp-IsByte refl keccak256_null-IsByte refl

abbrev three : ℕ
three = 3

abbrev nothing : ℕ
nothing = 0

is_empty_lem_example :
    ((is_empty (full_account 3 0 keccak256_rlp keccak256_null none none) ≡ ok true)
      ↔ ((three ≡ 0) × (nothing ≡ 0) × (keccak256_null ≡ keccak256_null)))
    × ((is_empty (full_account 3 0 keccak256_rlp keccak256_null none none) ≡ ok false)
        ↔ (is_empty (full_account 3 0 keccak256_rlp keccak256_null none none) ≢ ok true))
    × (is_empty (record (full_account 3 0 keccak256_rlp keccak256_null none none) { nonce = none })
        ≡ err not_loaded)
    × (is_empty
          (record (full_account 3 0 keccak256_rlp keccak256_null none none) { balance = none })
        ≡ err not_loaded)
    × (is_empty
          (record (full_account 3 0 keccak256_rlp keccak256_null none none) { code_hash = none })
        ≡ (if three == 0 then err not_loaded else ok false))
is_empty_lem_example = is_empty_lem 3 0 keccak256_rlp keccak256_null none none
