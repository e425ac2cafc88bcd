-- ===== src/Undo/Engine/Fresh/Start.antt =====
-- The transaction ids behind the start of the engine in crates/engine/src/undo.rs.
use git_bamboo.Prelude.{
  ℕ, ◌+◌, ◌^◌, ◌<◌, Option, none, some, Result, ok, err, fail, Preserves, Preserves-pure,
  Preserves-fail, Preserves-bind,
}
use git_bamboo.Prelude.Text.{Text}
use git_bamboo.Protocol.{Fault}
use git_bamboo.Host.{Host, Run}
use git_bamboo.Undo.Disk.{
  Snapshot, TransactionFile, Stored, missing, torn, whole, marker_file, journal_file, undo_dir,
}
use git_bamboo.Undo.Snapshots.{Undo}
use git_bamboo.Undo.Journal.{read_fault}
use git_bamboo.Undo.Engine.{
  initial_id, restore_or_warn, finish, read_marker, recover_from, recover, start,
}
use git_bamboo.Undo.Engine.Ids.{HasRoom, initial_id-above}
use git_bamboo.Undo.Engine.Keeping.{Has, restore_snapshot-Has, ignored_state}
use git_bamboo.Undo.Engine.Fresh.{IsFresh, FreshIds}
use git_bamboo.Undo.Engine.Fresh.Steps.{truncate-IsFresh, marker-IsFresh}

-- with success the ids are apart
abbrev pub IsStarted : {h : Host} → ℕ → Result Fault (Unit {0}) → Run h → Type 0
IsStarted m (ok u) s = IsFresh m s.undo
IsStarted m (err f) s = Unit

module _ (h : Host) (room : ℕ) where
  warn-IsFresh :
      (snapshot : Snapshot) → Preserves (Has (FreshIds room)) (restore_or_warn h snapshot)
  unfolding restore_or_warn
  warn-IsFresh snapshot = record {
    at = λ s q. rw (ignored_state h (FreshIds room) _ _) (
        (Preserves-bind {P = Has (FreshIds room)} _ _
            (restore_snapshot-Has h (FreshIds room) snapshot) λ n. Preserves-pure tt).at
          s q);
  }

  finish-IsFresh : (file : TransactionFile) → Preserves (Has (FreshIds room)) (finish h file)
  unfolding finish
  finish-IsFresh file =
      Preserves-bind _ _ (truncate-IsFresh h room file.meta.id)
        λ _. Preserves-bind _ _ (warn-IsFresh file.snapshot) λ _. marker-IsFresh h room _ _

  read_marker-IsFresh : (m : Stored) → Preserves (Has (FreshIds room)) (read_marker h m)
  unfolding read_marker
  read_marker-IsFresh missing = Preserves-pure tt
  read_marker-IsFresh torn = Preserves-fail _
  read_marker-IsFresh (whole file) = finish-IsFresh file

  readable :
      {A : Type 0} (o : Option Text) (m : Undo h A)
      → Preserves (Has (FreshIds room)) m
      → Preserves (Has (FreshIds room)) (read_fault o m)
  readable none m k = k
  readable (some msg) m k = Preserves-fail _

  recover_from-IsFresh : (m : Stored) → Preserves (Has (FreshIds room)) (recover_from h m)
  unfolding recover_from
  recover_from-IsFresh missing = Preserves-pure tt
  recover_from-IsFresh torn = record {
    at = λ s q. (readable (h.disk_read marker_file s.world) _ (read_marker-IsFresh torn)).at s q;
  }
  recover_from-IsFresh (whole file) = record {
    at = λ s q.
        (readable (h.disk_read marker_file s.world) _ (read_marker-IsFresh (whole file))).at s q;
  }

  recover-IsFresh : Preserves (Has (FreshIds room)) (recover h)
  unfolding recover
  recover-IsFresh = record { at = λ s q. (recover_from-IsFresh s.undo.marker).at s q }

  readable-IsStarted :
      (o : Option Text) (m : Undo h (Unit {0})) (s : Run h)
      → IsStarted room (m s).0 (m s).1
      → IsStarted room (read_fault o m s).0 (read_fault o m s).1
  unfolding fail
  readable-IsStarted none m s k = k
  readable-IsStarted (some msg) m s k = tt

  IsFresh-IsStarted :
      (x : Result Fault (Unit {0})) (s : Run h) → IsFresh room s.undo → IsStarted room x s
  IsFresh-IsStarted (ok u) s q = q
  IsFresh-IsStarted (err f) s q = tt

  -- An engine that starts, with any recovery, over files whose ids leave room, begins with an id that
  -- is above all that are in use.
  pub start-IsStarted :
      (r : Run h)
      → HasRoom room r.undo
      → 1 + room < 2 ^ 64
      → IsStarted room (start h r).0 (start h r).1
  unfolding start
  start-IsStarted r v k =
      let above = initial_id-above room r.undo v k in
      let r' : Run h = record r { undo = record r.undo { next_id = initial_id r.undo } } in
      let kept : IsFresh room (recover h r').1.undo =
        recover-IsFresh.at r' (above.0, above.1, above.2, above.3) in
      readable-IsStarted (h.disk_read journal_file r.world) _ r (
        readable-IsStarted (h.disk_read undo_dir r.world) _ r (
          IsFresh-IsStarted _ _
            (rw (ignored_state h (FreshIds room) (recover h r').0 (recover h r').1) kept)))
