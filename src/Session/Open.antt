-- ===== src/Session/Open.antt =====
-- `Session::open` of crates/engine/src/session.rs: the git directory, the fingerprint of the refs, the
-- cache with the epoch to begin with, and the undo engine, in this order. The queue and the watcher
-- are started at its end.
pub mod Moved
use git_bamboo.Prelude.{ℕ, Bool, List, [], Result, ok, err, map_err, Act, pure, ◌>>=◌, ◌>>◌}
use git_bamboo.Prelude.Text.{Text}
use git_bamboo.Protocol.{Error, Fault, raised}
use git_bamboo.Host.{Host, Run}
use git_bamboo.Undo.Engine
use git_bamboo.Cache.Store.{Redb}
use git_bamboo.Cache.Opening.{Directory, open_cache}
use git_bamboo.Session.{FilePath}
use git_bamboo.Gitdir.{Surroundings, resolve_git_dir, repo_fingerprint}

-- what an opening works on: git and the file system, as the three parts see them
pub record Opening (s : Surroundings) (r : Redb) (d : Directory r) (h : Host) : Type 0 where
  pub around : s.World
  pub disk : d.Disk
  pub run : Run h

-- the session: its cache, and the state of its write side, with the epoch
pub record Session (r : Redb) (h : Host) : Type 0 where
  pub git_dir : FilePath
  pub cache : r.Db
  pub run : Run h

-- `d` is the directory of the cache in the git directory, and `gix_open` stands for `gix::open`.
module _ (s : Surroundings) (r : Redb) (d : Directory r) (h : Host)
    (gix_open : Act s.World Error (Unit {0})) where
  abbrev pub around_it : {A : Type 0} → (s.World → A × s.World) → Act (Opening s r d h) Fault A
  around_it m o = (ok (m o.around).0, record o { around = (m o.around).1 })

  abbrev pub with_gix : Act (Opening s r d h) Fault (Unit {0})
  with_gix o = (map_err raised (gix_open o.around).0, record o { around = (gix_open o.around).1 })

  abbrev pub with_cache : Text → Act (Opening s r d h) Fault (r.Db × ℕ)
  with_cache fingerprint o =
      let (opened, disk) = open_cache r d fingerprint o.disk in
      (map_err raised opened, record o { disk = disk })

  abbrev pub with_undo : Act (Opening s r d h) Fault (Unit {0})
  with_undo o = let (started, run) = Engine.start h o.run in (started, record o { run = run })

  abbrev pub session_of : FilePath → r.Db → ℕ → Run h → Session r h
  session_of git_dir cache epoch run = record {
    git_dir = git_dir;
    cache = cache;
    run = record run { epoch = epoch; events = [] };
  }

  unfoldable pub open_session : FilePath → Act (Opening s r d h) Fault (Session r h)
  unfolding resolve_git_dir repo_fingerprint open_cache Engine.start
  open_session repo_path = do
    git_dir ← around_it (resolve_git_dir s repo_path)
    fingerprint ← around_it (repo_fingerprint s)
    with_gix
    (cache, epoch) ← with_cache fingerprint
    with_undo
    λ o. (ok (session_of git_dir cache epoch o.run), o)
