-- ===== src/Utils/Account.antt =====
-- packages/utils/src/account.ts: full accounts, their checks and their encoding.
pub mod RoundTrip
pub mod Emptiness
use simple_p2p_blockchain.Common.{
  ℕ, List, [], ◌∷◌, Option, none, some, Bool, true, false, ◌||◌, ◌&&◌, ◌==◌, not, ltb,
  if◌then◌else◌, length, get_or, Result, ok, err, ◌>>=◌, ◌>>◌, throw_if, Text-discrete,
}
use simple_p2p_blockchain.Common.Maps.{same}
use simple_p2p_blockchain.Rlp
use simple_p2p_blockchain.Rlp.{Item, Items, leaf, list, end, next}
use simple_p2p_blockchain.Rlp.Encode.{encode}
use simple_p2p_blockchain.Rlp.Decode
use simple_p2p_blockchain.Rlp.Decode.{decode, plain, decoded}
use simple_p2p_blockchain.Utils.Numbers.{NobleHex, bigint_to_unpadded_bytes, bytes_to_bigint}

-- `conversion` is an error of the conversion of numbers to bytes.
pub data AccountError : Type 0 where
  not_loaded storage_root_length code_hash_length insufficient_data not_an_array : AccountError
  conversion type_error : AccountError
  rlp_error : Rlp.Error → AccountError

-- A missing field is null: it is not loaded.
pub record Account : Type 0 where
  pub nonce : Option ℕ
  pub balance : Option ℕ
  pub storage_root : Option (List ℕ)
  pub code_hash : Option (List ℕ)
  pub code_size : Option ℕ
  pub version : Option ℕ

abbrev pub keccak256_null : List ℕ
keccak256_null =
    0xc5 ∷ 0xd2 ∷ 0x46 ∷ 0x01 ∷ 0x86 ∷ 0xf7 ∷ 0x23 ∷ 0x3c ∷ 0x92 ∷ 0x7e ∷ 0x7d ∷ 0xb2 ∷ 0xdc ∷ 0xc7
    ∷ 0x03 ∷ 0xc0 ∷ 0xe5 ∷ 0x00 ∷ 0xb6 ∷ 0x53 ∷ 0xca ∷ 0x82 ∷ 0x27 ∷ 0x3b ∷ 0x7b ∷ 0xfa ∷ 0xd8
    ∷ 0x04 ∷ 0x5d ∷ 0x85 ∷ 0xa4 ∷ 0x70 ∷ []

abbrev pub keccak256_rlp : List ℕ
keccak256_rlp =
    0x56 ∷ 0xe8 ∷ 0x1f ∷ 0x17 ∷ 0x1b ∷ 0xcc ∷ 0x55 ∷ 0xa6 ∷ 0xff ∷ 0x83 ∷ 0x45 ∷ 0xe6 ∷ 0x92 ∷ 0xc0
    ∷ 0xf8 ∷ 0x6e ∷ 0x5b ∷ 0x48 ∷ 0xe0 ∷ 0x1b ∷ 0x99 ∷ 0x6c ∷ 0xad ∷ 0xc0 ∷ 0x01 ∷ 0x62 ∷ 0x2f
    ∷ 0xb5 ∷ 0xe3 ∷ 0x63 ∷ 0xb4 ∷ 0x21 ∷ []

-- `equalsBytes`
abbrev pub equals_bytes : List ℕ → List ℕ → Bool
equals_bytes a b = same Text-discrete a b

-- A getter, which throws for null.
abbrev pub loaded : {A : Type 0} → Option A → Result AccountError A
loaded none = err not_loaded
loaded (some a) = ok a

abbrev pub has_code_hash : Option (List ℕ) → Bool
has_code_hash none = false
has_code_hash (some hash) = not (equals_bytes hash keccak256_null)

abbrev pub has_code_size : Option ℕ → Bool
has_code_size none = false
has_code_size (some size) = not (size == 0)

abbrev pub is_null : {A : Type 0} → Option A → Bool
is_null none = true
is_null (some a) = false

unfoldable pub is_contract : Account → Result AccountError Bool
is_contract a = do
  throw_if (is_null a.code_hash && is_null a.code_size) insufficient_data
  ok (has_code_hash a.code_hash || has_code_size a.code_size)

abbrev pub length_is_not : ℕ → Option (List ℕ) → Bool
length_is_not n none = false
length_is_not n (some bytes) = not (length bytes == n)

-- `_validate`; numbers are never negative here.
unfoldable pub validate : Account → Result AccountError Account
validate a = do
  throw_if (length_is_not 32 a.storage_root) storage_root_length
  throw_if (length_is_not 32 a.code_hash) code_hash_length
  ok a

-- The constructor's default for the code size: no code is known to have size 0. At this point the field
-- `_codeSize` is still null.
unfoldable pub known_code_size : Option (List ℕ) → Option ℕ → Option ℕ
known_code_size none size = size
known_code_size (some hash) (some size) = some size
known_code_size (some hash) none = if equals_bytes hash keccak256_null then some 0 else none

-- The constructor; `undefined` is resolved by its callers.
unfoldable pub new_account :
    Option ℕ
    → Option ℕ
    → Option (List ℕ)
    → Option (List ℕ)
    → Option ℕ
    → Option ℕ
    → Result AccountError Account
new_account nonce balance storage_root code_hash code_size version = validate (record {
  nonce = nonce;
  balance = balance;
  storage_root = storage_root;
  code_hash = code_hash;
  code_size = known_code_size code_hash code_size;
  version = version;
})

-- Null is neither 0 nor another number. The second test of the source is `this._nonce === null`, in
-- which the getter then throws.
abbrev pub is_positive : Option ℕ → Bool
is_positive none = false
is_positive (some n) = not (n == 0)

-- What `isEmpty` returns at its end: a getter is called only where the tests before it hold.
unfoldable pub has_nothing : Account → Result AccountError Bool
has_nothing a = do
  balance ← loaded a.balance
  if balance == 0
      then (do
        nonce ← loaded a.nonce
        if nonce == 0
            then (do code_hash ← loaded a.code_hash; ok (equals_bytes code_hash keccak256_null))
            else ok false)
      else ok false

unfoldable pub is_empty : Account → Result AccountError Bool
is_empty a =
    if is_positive a.balance
    then ok false
    else if is_null a.nonce
    then err not_loaded
    else if has_code_hash a.code_hash
    then ok false
    else has_nothing a

-- A library's error as one of the account.
abbrev pub from_rlp : {A : Type 0} → Result Rlp.Error A → Result AccountError A
from_rlp (err e) = err (rlp_error e)
from_rlp (ok a) = ok a

abbrev pub converted : {A : Type 0} → Option A → Result AccountError A
converted none = err conversion
converted (some a) = ok a

-- `RLP.decode` without `stream`.
abbrev pub decoded_item : Decode.Output → Item
decoded_item (plain x) = x
decoded_item (decoded x rest) = x

module _ (lib : NobleHex) where
  unfoldable pub raw : Account → Result AccountError Items
  raw a = do
    nonce ← loaded a.nonce
    nonce_bytes ← converted (bigint_to_unpadded_bytes lib nonce)
    balance ← loaded a.balance
    balance_bytes ← converted (bigint_to_unpadded_bytes lib balance)
    storage_root ← loaded a.storage_root
    code_hash ← loaded a.code_hash
    ok (
        next (leaf nonce_bytes)
          (next (leaf balance_bytes) (next (leaf storage_root) (next (leaf code_hash) end))))

  unfoldable pub serialize : Account → Result AccountError (List ℕ)
  serialize a = do values ← raw a; from_rlp (encode (Rlp.to_input (list values)))

  -- Missing hashes are undefined and get their defaults. A list in a value's place, which the types of the
  -- source exclude, is refused.
  unfoldable pub account_from_bytes_array : Items → Result AccountError Account
  account_from_bytes_array
        (next (leaf nonce) (next (leaf balance) (next (leaf root) (next (leaf hash) rest)))) =
      new_account (some (bytes_to_bigint lib nonce)) (some (bytes_to_bigint lib balance))
        (some root) (some hash) (some 0) (some 0)
  account_from_bytes_array (next (leaf nonce) (next (leaf balance) (next (leaf root) end))) =
      new_account (some (bytes_to_bigint lib nonce)) (some (bytes_to_bigint lib balance))
        (some root) (some keccak256_null) (some 0) (some 0)
  account_from_bytes_array (next (leaf nonce) (next (leaf balance) end)) =
      new_account (some (bytes_to_bigint lib nonce)) (some (bytes_to_bigint lib balance))
        (some keccak256_rlp) (some keccak256_null) (some 0) (some 0)
  account_from_bytes_array _ = err type_error

  unfoldable pub account_from_rlp : List ℕ → Result AccountError Account
  account_from_rlp serialized = do
    output ← from_rlp (decode (Rlp.bytes serialized) false)
    elim (decoded_item output) [
      | leaf bytes ↦ err not_an_array
      | list values ↦ account_from_bytes_array values
    ]
