-- ===== src/Checkpoints.antt =====
-- Storage with nested checkpoints: what every component of this kind promises to the calls of a
-- transaction, each of which opens a checkpoint and ends by a commit or a revert.
pub mod Diffs
use simple_p2p_blockchain.Common.{
  List, [], ◌∷◌, Bool, true, false, Option, none, some, ◌≡◌, refl, if◌then◌else◌,
}

-- What a call does: operations, and calls of its own, which end by `revert` where the flag is set.
pub data Script (W : Type 0) : Type 0 where
  done : Script W
  then_write : W → Script W → Script W
  then_call : Script W → Bool → Script W → Script W

-- `Tracks s v vs`: the state shows `v`, and the checkpoints lead back to `vs`, the latest first.
-- `none` is a TypeError of the source.
pub record Checkpointed (S V W : Type 0) : Type 1 where
  pub write : W → S → Option S
  pub checkpoint : S → S
  pub commit : S → Option S
  pub revert : S → Option S
  pub apply : W → V → V
  pub Tracks : S → V → List V → Type 0
  pub write_law :
      (w : W) (s : S) (v : V) (vs : List V)
      → Tracks s v vs
      → (t : S) × (write w s ≡ some t) × Tracks t (apply w v) vs
  pub checkpoint_law :
      (s : S) (v : V) (vs : List V) → Tracks s v vs → Tracks (checkpoint s) v (v ∷ vs)
  pub commit_law :
      (s : S) (v u : V) (vs : List V)
      → Tracks s v (u ∷ vs)
      → (t : S) × (commit s ≡ some t) × Tracks t v vs
  pub revert_law :
      (s : S) (v u : V) (vs : List V)
      → Tracks s v (u ∷ vs)
      → (t : S) × (revert s ≡ some t) × Tracks t u vs

infixl 5 ◌>>=◌
abbrev pub ◌>>=◌ : {A B : Type 0} → Option A → (A → Option B) → Option B
none >>= next = none
some a >>= next = next a

module _ {S V W : Type 0} (c : Checkpointed S V W) where
  unfoldable pub run : Script W → S → Option S
  run done s = some s
  run (then_write w rest) s = c.write w s >>= run rest
  run (then_call inner reverted rest) s = do
    t ← run inner (c.checkpoint s)
    u ← if reverted then c.revert t else c.commit t
    run rest u

  -- The same on what the state shows: a call that reverts has changed nothing.
  unfoldable pub spec : Script W → V → V
  spec done v = v
  spec (then_write w rest) v = spec rest (c.apply w v)
  spec (then_call inner reverted rest) v = spec rest (if reverted then v else spec inner v)

  pub run_lem :
      (script : Script W) (s : S) (v : V) (vs : List V)
      → c.Tracks s v vs
      → (t : S) × (run script s ≡ some t) × c.Tracks t (spec script v) vs
  unfolding run spec
  run_lem done s v vs h = (s, refl, h)
  run_lem (then_write w rest) s v vs h =
      let (t, e, k) = c.write_law w s v vs h in rw e (run_lem rest t (c.apply w v) vs k)
  run_lem (then_call inner true rest) s v vs h =
      let (t, e, k) = run_lem inner (c.checkpoint s) v (v ∷ vs) (c.checkpoint_law s v vs h) in
      let (u, e', k') = c.revert_law t (spec inner v) v vs k in rw (e, e') (run_lem rest u v vs k')
  run_lem (then_call inner false rest) s v vs h =
      let (t, e, k) = run_lem inner (c.checkpoint s) v (v ∷ vs) (c.checkpoint_law s v vs h) in
      let (u, e', k') = c.commit_law t (spec inner v) v vs k in
      rw (e, e') (run_lem rest u (spec inner v) vs k')
