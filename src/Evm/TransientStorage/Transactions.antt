-- ===== src/Evm/TransientStorage/Transactions.antt =====
-- Calls within calls: a call that is reverted leaves the storage as it found it, one that is
-- committed keeps its changes.
use mathlib.Core.List.{append_assoc, append-nil}
use simple_p2p_blockchain.Common.{
  ℕ, List, [], ◌∷◌, ◌++◌, ◌≡◌, refl, sym, ◌∙◌, ap, ok, All, All-take, All-drop, length, arith,
  drop-append, take-append, drop, take, fun_ext,
}
use simple_p2p_blockchain.Common.Maps.{same→eq}
use simple_p2p_blockchain.Evm.TransientStorage.{
  Text, Text-discrete, Transient, Modification, Storage, undo_all, commit, checkpoint, revert,
}
use simple_p2p_blockchain.Evm.TransientStorage.Views.{View, view, update, Mapped, undo_lem}

-- The changes taken back, the newest first.
unfoldable pub undo_views : List Modification → View → View
undo_views [] f = f
undo_views (c ∷ cs) f = update c.addr c.key c.prev_value (undo_views cs f)

undo_views-append :
    (cs ds : List Modification) (f : View)
    → undo_views (cs ++ ds) f ≡ undo_views cs (undo_views ds f)
unfolding undo_views
undo_views-append [] ds f = refl
undo_views-append (c ∷ cs) ds f = ap (update c.addr c.key c.prev_value) (undo_views-append cs ds f)

-- The loop of `revert` does not throw where each change has its map.
pub undo_all_lem :
    (cs : List Modification) (storage : Storage)
    → All (Mapped storage) cs
    → (next : Storage) × (undo_all cs storage ≡ ok next)
      × (view next ≡ undo_views cs (view storage))
      × ((e : Modification) → Mapped storage e → Mapped next e)
unfolding undo_all undo_views
undo_all_lem [] storage h = (storage, refl, refl, λ e m. m)
undo_all_lem (c ∷ cs) storage h =
    let (mid, e, v, keep) = undo_all_lem cs storage h.1 in
    let (next, e', v', keep') = undo_lem c mid (keep c h.0) in
    (next, rw e e', v' ∙ ap (update c.addr c.key c.prev_value) v, λ d m. keep' d (keep d m))

All-map :
    {P Q : Modification → Type 0} (cs : List Modification)
    → ((e : Modification) → P e → Q e)
    → All P cs
    → All Q cs
All-map [] f h = tt
All-map (c ∷ cs) f h = (f c h.0, All-map cs f h.1)

-- A state reached from `s` by changes `es` that are still in the journal.
pub record After (s t : Transient) : Type 0 where
  pub changes : List Modification
  pub journal : t.journal ≡ s.journal ++ changes
  pub undone : undo_views changes (view t.storage) ≡ view s.storage
  pub indices : t.indices ≡ s.indices
  pub mapped : All (Mapped t.storage) t.journal

pub After-refl : (s : Transient) → All (Mapped s.storage) s.journal → After s s
unfolding undo_views
After-refl s h = record {
  changes = [];
  journal = sym (append-nil s.journal);
  undone = refl;
  indices = refl;
  mapped = h;
}

pub After-trans : {s t u : Transient} → After s t → After t u → After s u
After-trans {s} {t} {u} a b = record {
  changes = a.changes ++ b.changes;
  journal =
      b.journal ∙ ap (λ l. l ++ b.changes) a.journal ∙ append_assoc s.journal a.changes b.changes;
  undone =
      undo_views-append a.changes b.changes (view u.storage)
      ∙ ap (undo_views a.changes) b.undone
      ∙ a.undone;
  indices = b.indices ∙ a.indices;
  mapped = b.mapped;
}

-- `update` with the old value takes an `update` back.
pub update_back :
    (addr key : Text) (v : List ℕ) (f : View)
    → update addr key (f addr key) (update addr key v f) ≡ f
unfolding update
update_back addr key v f =
    fun_ext
      λ a. fun_ext λ k. ground (arith, same→eq Text-discrete addr a, same→eq Text-discrete key k)

-- `commit` of a checkpoint keeps what was done since; `revert` takes it back.
pub commit-After :
    {s t : Transient}
    → After (checkpoint s) t
    → (u : Transient) × (commit t ≡ ok u) × After s u × (view u.storage ≡ view t.storage)
unfolding checkpoint commit
commit-After {s} {t} a = (
  record t { indices = s.indices },
  rw a.indices,
  record {
    changes = a.changes;
    journal = a.journal;
    undone = a.undone;
    indices = refl;
    mapped = a.mapped;
  },
  refl,
)

pub revert-After :
    {s t : Transient}
    → After (checkpoint s) t
    → (u : Transient) × (revert t ≡ ok u) × After s u × (view u.storage ≡ view s.storage)
unfolding checkpoint revert undo_views
revert-After {s} {t} a =
    let n = length s.journal in
    let back : drop n t.journal ≡ a.changes = rw a.journal (drop-append s.journal a.changes) in
    let kept : take n t.journal ≡ s.journal = rw a.journal (take-append s.journal a.changes) in
    let (next, e, v, keep) =
      undo_all_lem (drop n t.journal) t.storage (All-drop _ n t.journal a.mapped) in
    (
      record { storage = next; journal = take n t.journal; indices = s.indices },
      ground (arith, a.indices, e),
      record {
        changes = [];
        journal = kept ∙ sym (append-nil s.journal);
        undone = v ∙ ap (λ cs. undo_views cs (view t.storage)) back ∙ a.undone;
        indices = refl;
        mapped = All-map (take n t.journal) keep (All-take _ n t.journal a.mapped);
      },
      v ∙ ap (λ cs. undo_views cs (view t.storage)) back ∙ a.undone,
    )
