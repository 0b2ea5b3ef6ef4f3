-- ===== src/Rlp.antt =====
-- packages/rlp: the types of src/types.ts, and the errors that the package throws.
pub mod Hex
pub mod Encode
pub mod Decode
pub mod Spec
pub mod RoundTrip
pub mod Payloads
use simple_p2p_blockchain.Common.{ℕ, List}

-- One constructor for each `throw`. `stuck` is no error of the source: the fuel ran out.
pub data Error : Type 0 where
  invalid_byte_sequence non_hex_character unpadded_hex negative_integer unsupported_type : Error
  slice_out_of_bounds extra_zeros invalid_prefix not_enough_bytes string_too_short : Error
  list_too_short total_length_too_large remainder_not_zero stuck : Error

-- `Input` of types.ts. A text is the list of its code points, a number or bigint an integer,
-- `negative n` being -(n + 1); `nothing` is null or undefined.
mutual
  pub data Input : Type 0 where
    bytes : List ℕ → Input
    text : List ℕ → Input
    number : ℕ → Input
    negative : ℕ → Input
    nothing : Input
    array : Inputs → Input

  pub data Inputs : Type 0 where
    nil : Inputs
    cons : Input → Inputs → Inputs

-- `Uint8Array | NestedUint8Array` of types.ts.
mutual
  pub data Item : Type 0 where
    leaf : List ℕ → Item
    list : Items → Item

  pub data Items : Type 0 where
    end : Items
    next : Item → Items → Items

-- An item given to `encode`.
unfoldable mutual
  pub to_input : Item → Input
  to_input (leaf bs) = bytes bs
  to_input (list xs) = array (to_inputs xs)

  pub to_inputs : Items → Inputs
  to_inputs end = nil
  to_inputs (next x xs) = cons (to_input x) (to_inputs xs)
