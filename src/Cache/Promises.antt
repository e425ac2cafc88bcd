-- ===== src/Cache/Promises.antt =====
-- What a session relies on: how the cache of crates/engine/src/cache.rs changes, success or failure,
-- and the state that an opened cache is in.
use git_bamboo.Prelude.{
  ℕ, Bool, false, none, some, if◌then◌else◌, is_ok, Result-cases, Act, ◌≡◌, inl, inr,
}
use git_bamboo.Prelude.Maps.{Map}
use git_bamboo.Prelude.Text.{Text}
use git_bamboo.Protocol.{Error}
use git_bamboo.Cache.Store.{Table, commit_meta, commit_lanes, Views, Redb, IsStore}
use git_bamboo.Cache.{epoch_key, fingerprint_key, next_epoch, put_lanes_with_epoch}
use git_bamboo.Cache.Atomic.{Atomic}
use git_bamboo.Cache.Refinement.{store_lanes, put_lanes_with_epoch-Atomic}

-- the change of an operation by its outcome
outcome :
    {S A : Type 0} {v : S → Views} (m : Act S Error A) {g : Views → A} {f : Views → Views}
    → Atomic v m g f
    → (s : S) → v (m s).1 ≡ (if is_ok (m s).0 then f (v s) else v s)
outcome m p s = elim (Result-cases (m s).0) [
  | inl (a, h) ↦ rw h (p.done s a h).1
  | inr (e, h) ↦ rw h (p.failed s e h)
]

-- If the database is what redb documents, then storing lanes with their epoch stores every lane, the
-- last one given for a commit, and the epoch, if it succeeds and there are any lanes, and changes
-- nothing if it fails or there are none.
pub put_lanes_with_epoch-refines :
    (r : Redb) (w : IsStore r) (lanes : Map ℕ) (epoch : ℕ) (d : r.Db)
    → w.db_views (put_lanes_with_epoch r lanes epoch d).1 ≡ (
        if is_ok (put_lanes_with_epoch r lanes epoch d).0
        then store_lanes lanes epoch (w.db_views d)
        else w.db_views d)
put_lanes_with_epoch-refines r w lanes epoch d =
    outcome (put_lanes_with_epoch r lanes epoch) (put_lanes_with_epoch-Atomic r w lanes epoch) d

-- The two ways in which a cache is opened: what it held is kept, with its epoch, or it is emptied
-- under the next epoch, unreadable rows apart.
pub data Opened (unreadable : Table → Text → Bool) (before after : Views) (fingerprint : Text)
    (epoch : ℕ) : Type 0 where
  kept :
      before.fingerprints fingerprint_key ≡ some fingerprint
      → before.epochs epoch_key ≡ some epoch
      → after ≡ before
      → Opened unreadable before after fingerprint epoch
  emptied :
      epoch ≡ next_epoch (before.epochs epoch_key)
      → ((id : Text) → unreadable commit_meta id ≡ false → after.metas id ≡ none)
      → ((id : Text) → unreadable commit_lanes id ≡ false → after.lanes id ≡ none)
      → Opened unreadable before after fingerprint epoch

-- what an opening promises of the tables before and after it
abbrev Settled : (Table → Text → Bool) → Views → Views → Text → ℕ → Type 0
Settled u before after fp e =
    (after.epochs epoch_key ≡ some e)
    × (after.fingerprints fingerprint_key ≡ some fp)
    × Opened u before after fp e
