-- ===== src/Utils/Account/Emptiness.antt =====
-- When an account is empty, as EIP 161 has it.
use simple_p2p_blockchain.Common.{
  ℕ, List, ◌==◌, if◌then◌else◌, Option, none, ok, err, ◌≡◌, ◌≢◌, ◌↔◌, arith, true, false,
  Text-discrete,
}
use simple_p2p_blockchain.Common.Maps.{same→eq, same_refl}
use simple_p2p_blockchain.Utils.Account.{is_empty, has_nothing, not_loaded, keccak256_null}
use simple_p2p_blockchain.Utils.Account.RoundTrip.{full_account}

-- `isEmpty` of a full account is true exactly if nonce and balance are 0 and the code hash is that
-- of no code, and false exactly if it is not true. With a balance 0 and a nonce that is not loaded
-- it throws, and with the hash of no code and a balance that is not loaded it throws whatever the
-- nonce is. With a balance 0 and a code hash that is not loaded it returns false for a nonce that
-- is not 0, and throws for the nonce 0.
pub is_empty_lem :
    (nonce balance : ℕ) (root hash : List ℕ) (size version : Option ℕ)
    → ((is_empty (full_account nonce balance root hash size version) ≡ ok true)
        ↔ ((nonce ≡ 0) × (balance ≡ 0) × (hash ≡ keccak256_null)))
      × ((is_empty (full_account nonce balance root hash size version) ≡ ok false)
          ↔ (is_empty (full_account nonce balance root hash size version) ≢ ok true))
      × (is_empty (record (full_account nonce 0 root hash size version) { nonce = none })
          ≡ err not_loaded)
      × (is_empty (record (full_account nonce balance root keccak256_null size version) {
        balance = none;
      })
          ≡ err not_loaded)
      × (is_empty (record (full_account nonce 0 root hash size version) { code_hash = none })
          ≡ (if nonce == 0 then err not_loaded else ok false))
unfolding is_empty has_nothing
is_empty_lem nonce balance root hash size version = (
  ground (arith, same→eq Text-discrete hash keccak256_null, same_refl Text-discrete keccak256_null),
  ground arith,
  ground arith,
  ground (arith, same_refl Text-discrete keccak256_null),
  ground arith,
)
