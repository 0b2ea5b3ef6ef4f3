-- ===== src/Evm/Memory/Reads.antt =====
-- `read`, on its own and after `write`.
use simple_p2p_blockchain.Common.{
  ℕ, zero, suc, ◌+◌, ◌≤◌, List, ltb, ◌==◌, if◌then◌else◌, length, take, drop, replicate, get_or, ok,
  err, ◌≡◌, ◌≢◌, refl, arith, length-take, length-drop, length-replicate, Bool, true, false, ap,
}
use simple_p2p_blockchain.Evm.Memory.{Memory, extend, write, read, set_bytes, invalid_value_size}
use simple_p2p_blockchain.Evm.Memory.Contents.{
  byte_at, IsValid, byte_at-extend, length-extend, extend-IsValid, get_or-drop, get_or-take,
  get_or-set_bytes, length-set_bytes, eq_of_get_or, get_or_beyond, write_lem,
}

-- The bytes that `read` loads before it copies them.
loaded : ℕ → ℕ → Memory → List ℕ
loaded offset size m = drop offset (take (offset + size) (extend offset size m).store)

length-loaded : (offset size : ℕ) (m : Memory) → length (loaded offset size m) ≡ size
unfolding loaded
length-loaded offset zero m = omega (
  arith,
  length-drop offset (take (offset + 0) (extend offset 0 m).store),
  length-take (offset + 0) (extend offset 0 m).store,
)
length-loaded offset (suc size) m = omega (
  arith,
  length-drop offset (take (offset + suc size) (extend offset (suc size) m).store),
  length-take (offset + suc size) (extend offset (suc size) m).store,
  length-extend offset (suc size) m (omega arith),
)

get_or-loaded :
    (offset size : ℕ) (m : Memory) (i : ℕ)
    → get_or (loaded offset size m) i 0 ≡ (if ltb i size then byte_at m (offset + i) else 0)
unfolding loaded
get_or-loaded offset size m i = ground (
  arith,
  get_or-drop offset i (take (offset + size) (extend offset size m).store),
  get_or-take (offset + size) (offset + i) (extend offset size m).store,
  unfolded,
)
  where
    unfolded : get_or (extend offset size m).store (offset + i) 0 ≡ byte_at m (offset + i)
    unfolded = unfold byte_at in byte_at-extend offset size m (offset + i)

-- The copy is what was loaded.
copy_loaded : (xs : List ℕ) (size : ℕ) → length xs ≡ size → set_bytes (replicate size 0) xs 0 ≡ xs
copy_loaded xs size e =
    eq_of_get_or _ _
      (omega
        (arith, length-set_bytes (replicate size 0) xs 0 fits, length-replicate {A = ℕ} size 0))
      λ i. ground (
        arith,
        get_or-set_bytes (replicate size 0) xs 0 i fits,
        get_or_beyond xs i,
        get_or_beyond (replicate size 0) i,
        length-replicate {A = ℕ} size 0,
      )
  where
    fits : 0 + length xs ≤ length (replicate {A = ℕ} size 0)
    fits = omega (arith, length-replicate {A = ℕ} size 0)

read-eq-loaded :
    (offset size : ℕ) (copy : Bool) (m : Memory)
    → read offset size copy m ≡ (loaded offset size m, extend offset size m)
unfolding read loaded
read-eq-loaded offset size true m = refl
read-eq-loaded offset size false m =
    ap (λ l. (l, extend offset size m))
      (copy_loaded (loaded offset size m) size (length-loaded offset size m))

-- On a valid memory `read` returns exactly `size` bytes, those of the memory from the offset on,
-- whether it copies or not; it changes no byte, and the memory stays valid.
pub read_lem :
    (offset size : ℕ) (avoid_copy : Bool) (m : Memory)
    → IsValid m
    → (length (read offset size avoid_copy m).0 ≡ size)
      × ((i : ℕ)
          → get_or (read offset size avoid_copy m).0 i 0
            ≡ (if ltb i size then byte_at m (offset + i) else 0))
      × ((i : ℕ) → byte_at (read offset size avoid_copy m).1 i ≡ byte_at m i)
      × IsValid (read offset size avoid_copy m).1
read_lem offset size copy m v = rw (read-eq-loaded offset size copy m) (
  length-loaded offset size m,
  λ i. ground (
    arith,
    get_or-loaded offset size m i,
    get_or_beyond (loaded offset size m) i,
    length-loaded offset size m,
  ),
  byte_at-extend offset size m,
  extend-IsValid offset size m v,
)

-- On a valid memory a value that a `write` of its size stored is read back at its offset, whether
-- `read` copies or not.
pub read-write :
    (offset : ℕ) (value : List ℕ) (avoid_copy : Bool) (m n : Memory)
    → IsValid m
    → write offset (length value) value m ≡ ok n
    → (read offset (length value) avoid_copy n).0 ≡ value
read-write offset value copy m n v e =
    let (n', e', v', bytes) = write_lem offset value m v in
    let same : n' ≡ n = cc in
    rw (read-eq-loaded offset (length value) copy n) (
      eq_of_get_or _ _ (length-loaded offset (length value) n) (λ i. ground (
        arith,
        get_or-loaded offset (length value) n i,
        rw same at (bytes (offset + i)),
        get_or_beyond value i,
      )))

-- A value of another size than the stated one is refused, unless that is 0, which writes nothing.
pub write_wrong_size :
    (offset size : ℕ) (value : List ℕ) (m : Memory)
    → length value ≢ size
    → write offset size value m ≡ (if size == 0 then ok m else err invalid_value_size)
unfolding write
write_wrong_size offset size value m h = ground arith
