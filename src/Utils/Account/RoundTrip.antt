-- ===== src/Utils/Account/RoundTrip.antt =====
-- A full account read back from its serialization.
use simple_p2p_blockchain.Common.{
  ℕ, ◌+◌, ◌^◌, ◌<◌, ◌≤◌, List, [], ◌∷◌, ◌++◌, Option, some, ok, ◌≡◌, refl, arith, length,
  length-append, All, IsByte,
}
use simple_p2p_blockchain.Rlp.{Items, leaf, list, end, next}
use simple_p2p_blockchain.Rlp.Spec.{rlp, rlp_all, rlp_bytes, header, Fits}
use simple_p2p_blockchain.Rlp.RoundTrip.{decode-encode}
use simple_p2p_blockchain.Utils.Numbers.{NobleHex}
use simple_p2p_blockchain.Utils.Numbers.RoundTrip.{bytes_to_bigint-bigint_to_unpadded_bytes}
use simple_p2p_blockchain.Utils.Account.{
  Account, new_account, validate, known_code_size, raw, serialize, account_from_bytes_array,
  account_from_rlp,
}

length-rlp_bytes : (p : List ℕ) → length p < 56 → length (rlp_bytes p) ≤ 1 + length p
unfolding rlp_bytes header
length-rlp_bytes p h = ground (arith, length-append ((length p + 128) ∷ []) p)

abbrev values_of : List ℕ → List ℕ → List ℕ → List ℕ → Items
values_of a b c d = next (leaf a) (next (leaf b) (next (leaf c) (next (leaf d) end)))

rlp_all-values_of :
    (a b c d : List ℕ)
    → length (rlp_all (values_of a b c d))
      ≡ length (rlp_bytes a ++ (rlp_bytes b ++ (rlp_bytes c ++ (rlp_bytes d ++ []))))
unfolding rlp
rlp_all-values_of a b c d = refl

values_of-Fits :
    (a b c d : List ℕ)
    → All IsByte a × (length a ≤ 32)
    → All IsByte b × (length b ≤ 32)
    → All IsByte c × (length c ≤ 32)
    → All IsByte d × (length d ≤ 32)
    → Fits (list (values_of a b c d))
unfolding Fits
values_of-Fits a b c d ha hb hc hd = (
  (
    (ha.0, omega (arith, ha.1)),
    ((hb.0, omega (arith, hb.1)), ((hc.0, omega (arith, hc.1)), ((hd.0, omega (arith, hd.1)), tt))),
  ),
  omega (
    arith,
    rlp_all-values_of a b c d,
    length-rlp_bytes a (omega (arith, ha.1)),
    length-rlp_bytes b (omega (arith, hb.1)),
    length-rlp_bytes c (omega (arith, hc.1)),
    length-rlp_bytes d (omega (arith, hd.1)),
    length-append (rlp_bytes a) (rlp_bytes b ++ (rlp_bytes c ++ (rlp_bytes d ++ []))),
    length-append (rlp_bytes b) (rlp_bytes c ++ (rlp_bytes d ++ [])),
    length-append (rlp_bytes c) (rlp_bytes d ++ []),
    length-append (rlp_bytes d) [],
    ha.1,
    hb.1,
    hc.1,
    hd.1,
  ),
)

abbrev pub full_account : ℕ → ℕ → List ℕ → List ℕ → Option ℕ → Option ℕ → Account
full_account nonce balance root hash size version = record {
  nonce = some nonce;
  balance = some balance;
  storage_root = some root;
  code_hash = some hash;
  code_size = size;
  version = version;
}

new_account-full :
    (nonce balance : ℕ) (root hash : List ℕ)
    → length root ≡ 32
    → length hash ≡ 32
    → new_account (some nonce) (some balance) (some root) (some hash) (some 0) (some 0)
      ≡ ok (full_account nonce balance root hash (some 0) (some 0))
unfolding new_account validate known_code_size
new_account-full nonce balance root hash r h = ground (arith, r, h)

-- A full account whose nonce and balance are below 2 ^ 256 and whose hashes are arrays of 32 bytes
-- is serialized without an error, and `createAccountFromRLP` reads the account back, with code
-- size and version 0.
pub account_from_rlp-serialize :
    (lib : NobleHex) (nonce balance : ℕ) (root hash : List ℕ) (size version : Option ℕ)
    → nonce < 256 ^ 32
    → balance < 256 ^ 32
    → All IsByte root
    → length root ≡ 32
    → All IsByte hash
    → length hash ≡ 32
    → (bs : List ℕ) × (serialize lib (full_account nonce balance root hash size version) ≡ ok bs)
      × (account_from_rlp lib bs ≡ ok (full_account nonce balance root hash (some 0) (some 0)))
unfolding serialize raw account_from_rlp account_from_bytes_array
account_from_rlp-serialize lib nonce balance root hash size version n b root_bytes root_length
      hash_bytes hash_length =
    let (n_bytes, written, read, n_all, n_length) =
      bytes_to_bigint-bigint_to_unpadded_bytes lib 31 nonce n in
    let (b_bytes, written', read', b_all, b_length) =
      bytes_to_bigint-bigint_to_unpadded_bytes lib 31 balance b in
    let (bs, encoded, decoded, more) =
      decode-encode (list (values_of n_bytes b_bytes root hash)) [] (
        values_of-Fits n_bytes b_bytes root hash (n_all, n_length) (b_all, b_length)
          (root_bytes, omega (arith, root_length)) (hash_bytes, omega (arith, hash_length))) in
    (
      bs,
      ground (arith, written, written', encoded),
      ground (
        arith,
        decoded,
        read,
        read',
        new_account-full nonce balance root hash root_length hash_length,
      ),
    )
