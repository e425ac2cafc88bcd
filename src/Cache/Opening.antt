-- ===== src/Cache/Opening.antt =====
-- `Cache::open` of crates/engine/src/cache.rs, with the retries while another handle holds the lock.
use git_bamboo.Prelude.{ℕ, zero, suc, Option, none, some, ◌++◌, Result, ok, err, Act, ◌>>=◌, ◌>>◌}
use git_bamboo.Prelude.Text.{Text, codes}
use git_bamboo.Protocol.{Error, plain}
use git_bamboo.Cache.Store.{Redb}
use git_bamboo.Cache.{reconcile}

-- The directory, and `Database::create`, on a state of the file system; the path and the Debug form
-- of the last error are for the message. The pause between two attempts is no part of the state.
pub record Directory (r : Redb) : Type 1 where
  pub Disk : Type 0
  pub create_dir_all : Act Disk Error (Unit {0})
  pub create : Act Disk Error r.Db
  pub db_path : Text
  pub show_last : Option Error → Text

module _ (r : Redb) (d : Directory r) where
  not_opened : Option Error → Text
  not_opened last_err =
      codes "failed to open cache database " ++ (d.db_path ++ (codes ": " ++ d.show_last last_err))

  -- `open_with_retry`, with the attempts left and the error of the last one
  unfoldable pub retry : ℕ → Option Error → Act d.Disk Error r.Db
  unfolding not_opened
  retry zero last_err disk = (err (plain (not_opened last_err)), disk)
  retry (suc n) last_err disk =
      let (opened, disk') = d.create disk in
      elim opened [ ok db ↦ (ok db, disk') | err e ↦ retry n (some e) disk' ]

  unfoldable pub open_with_retry : Act d.Disk Error r.Db
  unfolding retry
  open_with_retry = retry 20 none

  abbrev pub with_db : Result Error ℕ × r.Db → Result Error (r.Db × ℕ)
  with_db (ok epoch, db) = ok (db, epoch)
  with_db (err e, db) = err e

  -- `Cache::open`
  unfoldable pub open_cache : Text → Act d.Disk Error (r.Db × ℕ)
  unfolding open_with_retry
  open_cache fingerprint = do
    d.create_dir_all
    db ← open_with_retry
    λ disk. (with_db (reconcile r fingerprint db), disk)
