-- ===== src/Evm/Memory.antt =====
-- packages/evm/src/memory.ts: the byte memory of a call, grown in containers.
pub mod Contents
pub mod Reads
use simple_p2p_blockchain.Common.{
  ℕ, ◌+◌, ◌-◌, ◌*◌, ◌/◌, ◌%◌, List, [], ◌++◌, leb, ltb, ◌==◌, not, Bool, if◌then◌else◌, length,
  take, drop, replicate, Result, ok, err,
}

pub data MemoryError : Type 0 where
  invalid_value_size value_exceeds_capacity : MemoryError

unfoldable pub ceil : ℕ → ℕ → ℕ
ceil value ceiling = let r = value % ceiling in if r == 0 then value else value + ceiling - r

abbrev pub container_size : ℕ
container_size = 8192

-- `_store`.
pub record Memory : Type 0 where
  pub store : List ℕ

unfoldable pub new_memory : Memory
new_memory = record { store = replicate container_size 0 }

-- `Math.ceil(sizeDiff / CONTAINER_SIZE) * CONTAINER_SIZE`.
unfoldable pub expand_by : ℕ → ℕ
expand_by size_diff = (size_diff + (container_size - 1)) / container_size * container_size

-- `sizeDiff > 0` is `store.length < newSize`.
unfoldable pub extend : ℕ → ℕ → Memory → Memory
unfolding ceil
extend offset size m =
    if size == 0
    then m
    else let new_size = ceil (offset + size) 32 in
      if ltb (length m.store) new_size
      then record m { store = m.store ++ replicate (expand_by (new_size - length m.store)) 0 }
      else m

-- `array.set(value, offset)`.
unfoldable pub set_bytes : List ℕ → List ℕ → ℕ → List ℕ
set_bytes store value offset = take offset store ++ (value ++ drop (offset + length value) store)

unfoldable pub write : ℕ → ℕ → List ℕ → Memory → Result MemoryError Memory
write offset size value m =
    if size == 0
    then ok m
    else let n = extend offset size m in
      if not (length value == size)
      then err invalid_value_size
      else if ltb (length n.store) (offset + size)
      then err value_exceeds_capacity
      else ok (record n { store = set_bytes n.store value offset })

-- `returnBytes.set(loaded)` on `size` zeros; `avoidCopy` gives `loaded` itself.
unfoldable pub read : ℕ → ℕ → Bool → Memory → List ℕ × Memory
read offset size avoid_copy m =
    let n = extend offset size m in
    let loaded = drop offset (take (offset + size) n.store) in
    if avoid_copy then (loaded, n) else (set_bytes (replicate size 0) loaded 0, n)
