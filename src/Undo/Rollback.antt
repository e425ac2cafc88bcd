-- ===== src/Undo/Rollback.antt =====
-- Restoring a snapshot, undo and crash recovery in crates/engine/src/undo.rs.
pub mod Script
pub mod Maps
pub mod Guards
use Prim.Native.Nat.{max}
use git_bamboo.Prelude.{
  ℕ, zero, suc, ◌+◌, Bool, true, false, not, Option, none, some, List, [], ◌∷◌, ◌++◌, keep, find,
  last?, is_empty, is_some, length, ltb, leb, ◌==◌, if◌then◌else◌, Act, pure, fail, ◌>>=◌, ◌>>◌,
  Result, ok, err, and_then, map,
}
use git_bamboo.Prelude.Text.{Text, codes, eq, trim, strip_prefix, starts_with}
use git_bamboo.Protocol.{Error, plain, structured, to_string, Fault, raised, panicked}
use git_bamboo.Host.{DiskOutcome, written, refused, cut_short, Host, Run}
use git_bamboo.WriteQueue.Validate.{Checked, validate_full_ref_name, validate_sha}
use git_bamboo.Undo.Disk.{
  Refs, lookup, Snapshot, same_snapshot, opt_eq, Transaction, TransactionFile, SnapshotKind, pre,
  post, Line, entry, corrupt, blank, Stored, missing, torn, whole, store, Files, UndoState,
  DiskFile, marker_file, undo_dir, snapshot_file,
}
use git_bamboo.Undo.Snapshots.{Undo, lift_error, run_git, read_snapshot}
use git_bamboo.Undo.Journal.{
  settle, read_fault, files_of, with_files, read_journal, load_snapshot, truncate_journal_at,
}

-- a line of the `update-ref --stdin` script
pub data RefUpdate : Type 0 where
  update : (name new old : Text) → RefUpdate
  delete : (name old : Text) → RefUpdate

zeros : ℕ → Text
zeros zero = []
zeros (suc n) = b'0' ∷ zeros n

-- what a ref that does not exist is guarded by: forty zeros
unfoldable pub null_id : Text
unfolding zeros
null_id = zeros 40

unfoldable pub or_null : Option Text → Text
unfolding null_id
or_null none = null_id
or_null (some sha) = sha

unfoldable pub render_update : RefUpdate → Text
render_update (update name new old) =
    codes "update " ++ (name ++ (b' ' ∷ (new ++ (b' ' ∷ (old ++ b'\n' ∷ [])))))
render_update (delete name old) = codes "delete " ++ (name ++ (b' ' ∷ (old ++ b'\n' ∷ [])))

unfoldable pub render : List RefUpdate → Text
unfolding render_update
render [] = []
render (u ∷ us) = render_update u ++ render us

-- the first loop: an update for each ref of the snapshot, guarded by its current value
unfoldable pub updates : Host → Refs → Refs → Result Error (List RefUpdate)
unfolding or_null
updates h current [] = ok []
updates h current ((name, target) ∷ refs) = and_then (validate_full_ref_name h.debug name) λ _.
    and_then (validate_sha h.debug target) λ _.
      and_then (updates h current refs)
        λ us. ok (update name target (or_null (lookup name current)) ∷ us)

-- the second loop: a deletion for each current ref that the snapshot lacks
unfoldable pub deletions : Host → Refs → Refs → Result Error (List RefUpdate)
deletions h target [] = ok []
deletions h target ((name, old) ∷ refs) =
    let rest = deletions h target refs in
    if is_some (lookup name target)
    then rest
    else and_then (validate_full_ref_name h.debug name)
        λ _. and_then rest λ us. ok (delete name old ∷ us)

unfoldable pub script : Host → Refs → Refs → Result Error (List RefUpdate)
unfolding updates deletions
script h current target =
    and_then (updates h current target)
      λ us. and_then (deletions h target current) λ ds. ok (us ++ ds)

-- the refs that the count of a restoration counts: those whose value differs, and those deleted
abbrev changes : Refs → Text × Text → Bool
changes current (name, target) = not (opt_eq (lookup name current) (some target))

abbrev extra : Refs → Text × Text → Bool
extra target (name, old) = not (is_some (lookup name target))

unfoldable pub restored_count : Refs → Refs → ℕ
restored_count current target =
    length (keep (changes current) target) + length (keep (extra target) current)

abbrev pub ref_target : Text → Option Text
ref_target head = strip_prefix (codes "ref: ") head

module _ (h : Host) where
  -- a git call whose output is dropped
  unfoldable pub run : List Text → Text → Undo h (Unit {0})
  unfolding run_git
  run args input = do out ← run_git h args input; pure tt

  unfoldable pub run_script : List RefUpdate → Undo h (Unit {0})
  unfolding render run
  run_script [] = pure tt
  run_script (u ∷ us) = run (codes "update-ref" ∷ codes "--stdin" ∷ []) (render (u ∷ us))

  unfoldable pub ignore_error : Result Fault (Unit {0}) → Run h → Result Fault (Unit {0}) × Run h
  ignore_error (ok u) r = (ok tt, r)
  ignore_error (err (raised e)) r = (ok tt, r)
  ignore_error (err panicked) r = (err panicked, r)

  -- the index; a `read-tree` that fails is only logged
  unfoldable pub restore_index : Option Text → Undo h (Unit {0})
  unfolding run ignore_error
  restore_index none = pure tt
  restore_index (some tree) = do
    lift_error (validate_sha h.debug tree)
    λ r. let (result, r') = run (codes "read-tree" ∷ tree ∷ []) [] r in ignore_error result r'

  -- by the ref that a symbolic HEAD names
  unfoldable pub set_head : Text → Option Text → Undo h (Unit {0})
  unfolding run
  set_head head (some rest) = do
    lift_error (validate_full_ref_name h.debug (trim rest))
    run (codes "symbolic-ref" ∷ codes "HEAD" ∷ trim rest ∷ []) []
  set_head head none =
      if not (is_empty head)
      then (do
        lift_error (validate_sha h.debug (trim head))
        run (codes "update-ref" ∷ codes "--no-deref" ∷ codes "HEAD" ∷ trim head ∷ []) [])
      else fail (raised (plain (codes "snapshot has empty HEAD; refusing to restore")))

  -- `restore_head`
  unfoldable pub restore_head : Text → Undo h (Unit {0})
  unfolding set_head
  restore_head head = set_head head (ref_target head)

  -- `restore_snapshot`
  unfoldable pub restore_snapshot : Snapshot → Undo h ℕ
  unfolding read_snapshot script restored_count run_script restore_index restore_head
  restore_snapshot target = do
    current ← read_snapshot h
    us ← lift_error (script h current.refs target.refs)
    run_script us
    restore_index target.index_tree
    restore_head target.head
    pure (restored_count current.refs target.refs)

  -- a change of the marker
  unfoldable pub set_marker : Stored → Stored → Undo h (Unit {0})
  set_marker new cut r =
      let (outcome, w) = h.disk_write marker_file r.world in
      let (result, m) = settle outcome r.undo.marker new cut in
      (result, record r { world = w; undo = record r.undo { marker = m } })

  -- the removal of one snapshot file, an error ignored
  unfoldable pub ignored : Result Fault (Unit {0}) → Result Fault (Unit {0})
  ignored (ok u) = ok tt
  ignored (err (raised e)) = ok tt
  ignored (err panicked) = err panicked

  unfoldable pub remove_file : SnapshotKind → ℕ → Undo h (Unit {0})
  unfolding ignored
  remove_file kind id r =
      let (outcome, w) = h.disk_write (snapshot_file kind id) r.world in
      let files = files_of kind r.undo in
      let gone = keep (λ (e : ℕ × Stored). not (e.0 == id)) files in
      let (result, files') = settle outcome files gone files in
      (ignored result, record r { world = w; undo = with_files kind files' r.undo })

  unfoldable pub prune_kind : SnapshotKind → ℕ → Files → Undo h (Unit {0})
  unfolding remove_file
  prune_kind kind id [] = pure tt
  prune_kind kind id ((i, s) ∷ files) =
      let rest = prune_kind kind id files in if leb id i then (remove_file kind i >> rest) else rest

  -- an unreadable directory is left alone
  unfoldable pub unless_unreadable : Option Text → Undo h (Unit {0}) → Undo h (Unit {0})
  unless_unreadable none m = m
  unless_unreadable (some msg) m = pure tt

  -- `prune_snapshots`
  unfoldable pub prune_snapshots : ℕ → Undo h (Unit {0})
  unfolding prune_kind unless_unreadable
  prune_snapshots id r =
      unless_unreadable (h.disk_read undo_dir r.world)
        (prune_kind pre id r.undo.pre_files >> prune_kind post id r.undo.post_files) r
