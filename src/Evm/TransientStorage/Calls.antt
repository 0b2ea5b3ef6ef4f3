-- ===== src/Evm/TransientStorage/Calls.antt =====
-- Whole runs of a transaction: writes and nested calls, against storage that is a plain function.
use simple_p2p_blockchain.Common.{
  ℕ, ◌≤◌, List, [], ◌∷◌, ◌++◌, ◌≡◌, refl, ◌∙◌, Bool, true, false, not, ltb, ◌==◌, if◌then◌else◌,
  Result, some, ok, err, ◌>>=◌, ◌>>◌, throw_if, All, All-append, length, arith, Bool-cases, inl,
  inr, fun_ext, subst,
}
use simple_p2p_blockchain.Common.Maps
use simple_p2p_blockchain.Common.Maps.{get-nil, get-set, same_refl}
use simple_p2p_blockchain.Evm.TransientStorage.{
  Text, Text-discrete, Transient, TransientError, Modification, Storage, put, get, commit,
  checkpoint, revert, new_transient, prefixed_hex, map_of, or_zero, key_length, value_length,
}
use simple_p2p_blockchain.Evm.TransientStorage.Views.{
  View, view, update, view-set, Mapped, Mapped-set,
}
use simple_p2p_blockchain.Evm.TransientStorage.Transactions.{
  After, After-refl, After-trans, undo_views, update_back, commit-After, revert-After,
}

-- What a contract does: it writes, and it calls others, which end by `commit` or by `revert`.
pub data Script : Type 0 where
  done : Script
  write : List ℕ → List ℕ → List ℕ → Script → Script
  call : Script → Bool → Script → Script

All-set :
    (a : Text) (m : Maps.Map Text (List ℕ)) (storage : Storage) (cs : List Modification)
    → All (Mapped storage) cs
    → All (Mapped (Maps.set Text-discrete a m storage)) cs
All-set a m storage [] h = tt
All-set a m storage (c ∷ cs) h = (Mapped-set a m storage c h.0, All-set a m storage cs h.1)

set_there :
    (a : Text) (m : Maps.Map Text (List ℕ)) (storage : Storage)
    → Maps.get Text-discrete a (Maps.set Text-discrete a m storage) ≡ some m
set_there a m storage = rw (get-set, same_refl)

module _ (hex : List ℕ → Text) where
  unfoldable pub run : Script → Transient → Result TransientError Transient
  run done t = ok t
  run (write addr key value rest) t = put hex addr key value t >>= run rest
  run (call inner reverted rest) t = do
    u ← run inner (checkpoint t)
    v ← if reverted then revert u else commit u
    run rest v

  -- The same on a function from addresses and keys to values.
  unfoldable pub spec : Script → View → Result TransientError View
  spec done f = ok f
  spec (write addr key value rest) f = do
    throw_if (not (length key == 32)) key_length
    throw_if (ltb 32 (length value)) value_length
    spec rest (update (prefixed_hex hex addr) (prefixed_hex hex key) value f)
  spec (call inner reverted rest) f = do g ← spec inner f; spec rest (if reverted then f else g)

  prev-eq-view :
      (addr key : Text) (t : Transient)
      → or_zero (Maps.get Text-discrete key (map_of addr t.storage)) ≡ view t.storage addr key
  unfolding map_of view
  prev-eq-view addr key t = ground (arith, get-nil {V = List ℕ} Text-discrete key)

  -- A write keeps the old value in the journal.
  put-After :
      (addr key value : List ℕ) (t : Transient)
      → All (Mapped t.storage) t.journal
      → length key ≡ 32
      → length value ≤ 32
      → (u : Transient) × (put hex addr key value t ≡ ok u)
        × After t u
        × (view u.storage
            ≡ update (prefixed_hex hex addr) (prefixed_hex hex key) value (view t.storage))
  unfolding put undo_views
  put-After addr key value t h hk hv =
      let a = prefixed_hex hex addr in
      let k = prefixed_hex hex key in
      let m = map_of a t.storage in
      let change : Modification = record {
        addr = a;
        key = k;
        prev_value = or_zero (Maps.get Text-discrete k m);
      } in
      let next = Maps.set Text-discrete a (Maps.set Text-discrete k value m) t.storage in
      let shown : view next ≡ update a k value (view t.storage) =
        fun_ext (λ b. fun_ext (λ j. view-set a k value t.storage b j)) in
      (
        record t { journal = t.journal ++ change ∷ []; storage = next },
        ground arith,
        record {
          changes = change ∷ [];
          journal = refl;
          undone = rw (shown, prev-eq-view a k t) (update_back a k value (view t.storage));
          indices = refl;
          mapped =
              All-append _ t.journal (change ∷ []) (All-set a _ t.storage t.journal h)
                ((Maps.set Text-discrete k value m, set_there a _ t.storage), tt);
        },
        shown,
      )

-- A run of the source and one on the function: the same error, or states that show the same, the
-- journal and the checkpoints being those of the start with the run's own changes.
abbrev pub Agrees :
    Transient → Result TransientError Transient → Result TransientError View → Type 0
Agrees s (ok t) (ok f) = After s t × (view t.storage ≡ f)
Agrees s (err e) (err e') = e ≡ e'
Agrees s (ok t) (err e) = ⊥
Agrees s (err e) (ok f) = ⊥

Agrees-After :
    {s u : Transient} (r : Result TransientError Transient) (q : Result TransientError View)
    → After s u
    → Agrees u r q
    → Agrees s r q
Agrees-After (ok t) (ok f) a (b, e) = (After-trans a b, e)
Agrees-After (err e) (err e') a h = h
Agrees-After (ok t) (err e) a h = h
Agrees-After (err e) (ok f) a h = h

module _ (hex : List ℕ → Text) (rest : Script) where
  abbrev Continues : Type 0
  Continues =
      (u : Transient)
      → All (Mapped u.storage) u.journal
      → Agrees u (run hex rest u) (spec hex rest (view u.storage))

  -- One state more, and the rest of the script.
  resume :
      (s u : Transient) (f : View)
      → Continues
      → After s u
      → view u.storage ≡ f
      → Agrees s (run hex rest u) (spec hex rest f)
  resume s u f k a e =
      subst (λ g. Agrees s (run hex rest u) (spec hex rest g)) e
        (Agrees-After (run hex rest u) (spec hex rest (view u.storage)) a (k u a.mapped))

  end_call :
      (s : Transient) (reverted : Bool) (r : Result TransientError Transient)
      (q : Result TransientError View)
      → Continues
      → Agrees (checkpoint s) r q
      → Agrees s
          (r >>= λ u. (if reverted then revert u else commit u) >>= run hex rest)
          (q >>= λ g. spec hex rest (if reverted then view s.storage else g))
  end_call s true (ok t) (ok f) k (a, e) =
      let (u, eq, b, shown) = revert-After a in rw eq (resume s u (view s.storage) k b shown)
  end_call s false (ok t) (ok f) k (a, e) =
      let (u, eq, b, shown) = commit-After a in rw eq (resume s u f k b (shown ∙ e))
  end_call s reverted (err e) (err e') k h = h
  end_call s reverted (ok t) (err e) k h = absurd h
  end_call s reverted (err e) (ok f) k h = absurd h

  write_step :
      (s : Transient) (addr key value : List ℕ)
      → Continues
      → All (Mapped s.storage) s.journal
      → Agrees s
          (run hex (write addr key value rest) s)
          (spec hex (write addr key value rest) (view s.storage))
  unfolding run spec
  write_step s addr key value k h = elim (Bool-cases (length key == 32)) [
    | inr bad ↦ unfold put in rw bad refl
    | inl good ↦ elim (Bool-cases (ltb 32 (length value))) [
      | inl long ↦ unfold put in rw (good, long) refl
      | inr fits ↦
          let (u, eq, a, shown) = put-After hex addr key value s h (ground arith) (ground arith) in
          rw (eq, good, fits) (resume s u _ k a shown)
    ]
  ]

module _ (hex : List ℕ → Text) where
  run-spec :
      (script : Script) (s : Transient)
      → All (Mapped s.storage) s.journal
      → Agrees s (run hex script s) (spec hex script (view s.storage))
  unfolding run spec checkpoint
  run-spec done s h = (After-refl s h, refl)
  run-spec (write addr key value rest) s h = write_step hex rest s addr key value (run-spec rest) h
  run-spec (call inner reverted rest) s h =
      end_call hex rest s reverted (run hex inner (checkpoint s)) (spec hex inner (view s.storage))
        (run-spec rest) (run-spec inner (checkpoint s) h)

  -- A script of writes and nested calls, each of which ends by `commit` or by `revert`, run on new
  -- transient storage throws the error that it does on a plain function from addresses and keys to
  -- values; where it throws none, the storage shows that function, in which a reverted call has
  -- changed nothing, the checkpoints are those of the start, and the recorded changes lead back to
  -- the start.
  pub transaction_lem :
      (script : Script)
      → Agrees new_transient
          (run hex script new_transient)
          (spec hex script (view new_transient.storage))
  transaction_lem script = run-spec script new_transient (unfold new_transient in tt)

  -- `get` reads the view.
  pub get-eq-view :
      (addr key : List ℕ) (t : Transient)
      → get hex addr key t ≡ view t.storage (prefixed_hex hex addr) (prefixed_hex hex key)
  unfolding get view
  get-eq-view addr key t = refl
