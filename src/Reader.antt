-- ===== src/Reader.antt =====
-- What the reading side of crates/engine/src/gix_read.rs stands on: the gix library and git itself as
-- parameters, the epoch counter that the watcher may bump at any time, and the cache.
pub mod Status
pub mod Refs
pub mod Blobs
pub mod Diffs
pub mod Details
pub mod Branches
use git_bamboo.Prelude.{
  ℕ, Bool, Option, none, some, List, [], ◌∷◌, ◌++◌, ◌==◌, if◌then◌else◌, Result, ok, err, Act, fail,
  ◌>>=◌,
}
use git_bamboo.Prelude.Text.{Text, Debug}
use git_bamboo.Protocol.{Error, structured, epoch_mismatch}
use git_bamboo.Host.{Output}
use git_bamboo.Cache.{CachedCommit, Codec}
use git_bamboo.Cache.Store.{Redb}

-- A ref: its full name, the commit that it peels to, and the id that it names directly.
pub record Reference : Type 0 where
  pub name : Text
  pub peeled : Result Error Text
  pub target : Option Text

-- The repository as gix and git show it. Every call may fail and may meet another state of it.
pub record Repository : Type 1 where
  pub World : Type 0
  pub current_epoch : World → ℕ × World
  pub references : Act World Error (List (Result Error Reference))
  pub head_commit : Act World Error Text
  -- the text of the HEAD file
  pub head_file : Act World Error Text
  -- the ids of a walk from the tips, newest first
  pub rev_walk : List Text → Act World Error (List (Result Error Text))
  -- the object of an id, decoded as a commit
  pub find_commit : Text → Act World Error CachedCommit
  -- the blob at a path in the commit of a revision, and at a stage of the index, if there is one
  pub blob_at : (revision path : Text) → Act World Error (Option Text)
  pub staged_blob : (stage : ℕ) (path : Text) → Act World Error (Option Text)
  -- a git subprocess that reads, for an argv
  pub git_output : List Text → Act World Error Output
  pub debug : Debug

-- The part of a session that reading touches. `seen` records every value read from the epoch counter,
-- for statements only.
pub record Reading (p : Repository) (r : Redb) : Type 0 where
  pub world : p.World
  pub cache : r.Db
  pub seen : List ℕ

module _ (p : Repository) (r : Redb) where
  unfoldable pub read_epoch : Act (Reading p r) Error ℕ
  read_epoch s =
      let (e, w) = p.current_epoch s.world in
      (ok e, record s { world = w; seen = s.seen ++ e ∷ [] })

  unfoldable pub on_repo : {A : Type 0} → Act p.World Error A → Act (Reading p r) Error A
  on_repo m s = ((m s.world).0, record s { world = (m s.world).1 })

  unfoldable pub on_cache : {A : Type 0} → Act r.Db Error A → Act (Reading p r) Error A
  on_cache m s = ((m s.cache).0, record s { cache = (m s.cache).1 })

  -- `if let Err(e)` around a warning: the error is dropped
  unfoldable pub ignoring :
      {A : Type 0} → Act (Reading p r) Error A → Act (Reading p r) Error (Unit {0})
  ignoring m s = (ok tt, (m s).1)

  -- a mismatch with the epoch that is current now
  unfoldable pub mismatch : {A : Type 0} → ℕ → Act (Reading p r) Error A
  unfolding read_epoch
  mismatch actual = do expected ← read_epoch; fail (structured (epoch_mismatch expected actual))

  -- `if session.current_epoch() != current_epoch` around the rest
  unfoldable pub guard_epoch :
      {A : Type 0} → ℕ → Act (Reading p r) Error A → Act (Reading p r) Error A
  unfolding mismatch
  guard_epoch current_epoch rest = do
    e ← read_epoch
    if e == current_epoch then rest else mismatch current_epoch
