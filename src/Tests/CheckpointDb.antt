-- ===== src/Tests/CheckpointDb.antt =====
-- The checkpointed database, over association lists and bytes that are 0 or 1.
use simple_p2p_blockchain.Common.{
  ◌%◌, List, [], ◌∷◌, Option, none, some, Text, Text-discrete, ◌≡◌, refl, arith, Bool, true, false,
  length, get_or, ◌==◌, if◌then◌else◌,
}
use simple_p2p_blockchain.Common.Maps
use simple_p2p_blockchain.Common.Maps.{same_refl, get-nil, get-set, get-delete}
use simple_p2p_blockchain.Checkpoints.{Script, done, then_write, then_call, run, spec}
use simple_p2p_blockchain.Utils.Bytes.{HexLibrary}
use simple_p2p_blockchain.Trie.CheckpointDb.{
  Disk, DiskValue, string_encoding, write_all, Lru, Db, put_op, del_op, get, commit,
}
use simple_p2p_blockchain.Trie.CheckpointDb.Views.{Shows}
use simple_p2p_blockchain.Trie.CheckpointDb.Cached.{
  put_under, with_cache, without_cache, get-put-cached,
}
use simple_p2p_blockchain.Trie.CheckpointDb.Calls.{
  DbCall, put_value, delete_value, get_value, batch_values, db_checkpointed, db_calls_lem,
}

abbrev hex_of : List Bool → Text
hex_of [] = []
hex_of (false ∷ bits) = 48 ∷ 48 ∷ hex_of bits
hex_of (true ∷ bits) = 48 ∷ 49 ∷ hex_of bits

abbrev bits_of : Text → Option (List Bool)
bits_of [] = some []
bits_of (c ∷ []) = none
bits_of (c ∷ d ∷ text) = elim (bits_of text) [ none ↦ none | some bits ↦ some ((d == 49) ∷ bits) ]

bits_of-hex_of : (bits : List Bool) → bits_of (hex_of bits) ≡ some bits
bits_of-hex_of [] = refl
bits_of-hex_of (false ∷ bits) = rw (bits_of-hex_of bits) refl
bits_of-hex_of (true ∷ bits) = rw (bits_of-hex_of bits) refl

hex_of_even : (bits : List Bool) → (length (hex_of bits) % 2 == 0) ≡ true
hex_of_even [] = refl
hex_of_even (false ∷ bits) = ground (arith, hex_of_even bits)
hex_of_even (true ∷ bits) = ground (arith, hex_of_even bits)

hex_of_digits : (bits : List Bool) → (get_or (hex_of bits) 1 0 == 120) ≡ false
hex_of_digits [] = refl
hex_of_digits (false ∷ bits) = refl
hex_of_digits (true ∷ bits) = refl

abbrev bit_library : HexLibrary
bit_library = record {
  Bytes = List Bool;
  to_hex = hex_of;
  of_hex = bits_of;
  of_hex-to_hex = bits_of-hex_of;
  to_hex_even = hex_of_even;
  to_hex_digits = hex_of_digits;
}

-- Entries in an association list, in which a missing value deletes.
abbrev write_entry : {V : Type 0} → Maps.Map Text V → Text → Option V → Maps.Map Text V
write_entry m k none = Maps.delete Text-discrete k m
write_entry m k (some v) = Maps.set Text-discrete k v m

get-write_entry :
    {V : Type 0} (m : Maps.Map Text V) (k j : Text) (v : Option V)
    → Maps.get Text-discrete j (write_entry m k v)
      ≡ (if Maps.same Text-discrete k j then v else Maps.get Text-discrete j m)
get-write_entry m k j none = get-delete Text-discrete k j m
get-write_entry m k j (some v) = get-set Text-discrete k j v m

abbrev assoc_lru : Lru (List Bool)
assoc_lru = record {
  Entries = Maps.Map Text (List Bool);
  get = λ m k. (Maps.get Text-discrete k m, m);
  set = λ m k v. write_entry m k v;
}

abbrev assoc_disk : Disk (DiskValue (List Bool))
assoc_disk = record {
  Store = Maps.Map Text (DiskValue (List Bool));
  get = λ m k. Maps.get Text-discrete k m;
  write = λ m k v. write_entry m k v;
  batch = λ m ops. write_all (λ n k v. write_entry n k v) m ops;
  get-write = λ m k j v. get-write_entry m k j v;
  get-batch = λ m ops j. refl;
}

abbrev one : List Bool
one = true ∷ []

abbrev two : List Bool
two = true ∷ false ∷ []

-- Nested checkpoints with reads, a batch and a deletion; one call reverts.
abbrev script : Script (DbCall (List Bool))
script = then_write (put_value one two) (
    then_call
      (then_write (get_value two) (
        then_call (then_write (batch_values (put_op two one ∷ del_op one ∷ [])) done) false
          (then_call (then_write (delete_value two) done) true done)))
      false
      (then_call (then_write (put_value two two) done) true (then_write (get_value one) done)))

empty-Shows : Shows bit_library assoc_lru assoc_disk string_encoding [] (λ k. none)
empty-Shows k = get-nil Text-discrete k

db_calls_lem_example :
    (t : Db bit_library assoc_lru assoc_disk string_encoding) × (run
        (db_checkpointed bit_library assoc_lru assoc_disk string_encoding two)
        script
        (record { disk = []; checkpoints = []; cache = none })
      ≡ some t)
    × (t.checkpoints ≡ [])
    × Shows bit_library assoc_lru assoc_disk string_encoding t.disk (
        spec
          (db_checkpointed bit_library assoc_lru assoc_disk string_encoding two)
          script
          (λ k. none))
    × ((key : List Bool)
        → get bit_library assoc_lru assoc_disk string_encoding key t
          ≡ some (
            spec
                (db_checkpointed bit_library assoc_lru assoc_disk string_encoding two)
                script
                (λ k. none)
                (hex_of key),
            t,
          ))
db_calls_lem_example =
    db_calls_lem bit_library assoc_lru assoc_disk string_encoding two script [] (λ k. none)
      empty-Shows

abbrev cached : Maps.Map Text (List Bool)
cached = (hex_of one, one) ∷ []

cached-hit : assoc_lru.get cached (hex_of one) ≡ (some one, cached)
unfolding Maps.get
cached-hit = ground (arith, same_refl Text-discrete (hex_of one))

-- The database after a put under its first checkpoint.
abbrev stale : Db bit_library assoc_lru assoc_disk string_encoding
stale = put_under bit_library assoc_lru assoc_disk string_encoding two one two [] (some cached)

get-put-cached_example :
    (get bit_library assoc_lru assoc_disk string_encoding one stale
      ≡ some (some one, with_cache bit_library assoc_lru assoc_disk string_encoding cached stale))
    × (get bit_library assoc_lru assoc_disk string_encoding one
          (without_cache bit_library assoc_lru assoc_disk string_encoding stale)
        ≡ some (some two, without_cache bit_library assoc_lru assoc_disk string_encoding stale))
    × (t : Db bit_library assoc_lru assoc_disk string_encoding) × (commit bit_library assoc_lru
          assoc_disk string_encoding stale
        ≡ some t)
    × (get bit_library assoc_lru assoc_disk string_encoding one t
        ≡ some (some one, with_cache bit_library assoc_lru assoc_disk string_encoding cached t))
    × (get bit_library assoc_lru assoc_disk string_encoding one
          (without_cache bit_library assoc_lru assoc_disk string_encoding t)
        ≡ some (some two, without_cache bit_library assoc_lru assoc_disk string_encoding t))
get-put-cached_example =
    get-put-cached bit_library assoc_lru assoc_disk string_encoding two one two one [] cached cached
      cached-hit
