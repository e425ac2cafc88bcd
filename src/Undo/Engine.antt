-- ===== src/Undo/Engine.antt =====
-- `undo`, `recover`, the start of the engine and the audit log of crates/engine/src/undo.rs.
pub mod Keeping
pub mod Steps
pub mod Counters
pub mod Fresh
pub mod Recoverable
pub mod Refusals
pub mod Recovery
pub mod Ids
use Prim.Native.Nat.{max}
use git_bamboo.Prelude.{
  ℕ, ◌+◌, ◌%◌, ◌^◌, Bool, true, false, not, Option, none, some, List, [], ◌∷◌, ◌++◌, find, last?,
  ◌==◌, if◌then◌else◌, Act, pure, fail, ◌>>=◌, ◌>>◌, Result, ok, err,
}
use git_bamboo.Prelude.Text.{Text, codes}
use git_bamboo.Protocol.{Error, plain, to_string, Fault, raised, panicked}
use git_bamboo.Host.{Host, Run}
use git_bamboo.WriteQueue.Command.{UndoErrorKind, WriteResult, ok_output, failed, undone}
use git_bamboo.Undo.Disk.{
  Snapshot, same_snapshot, Transaction, TransactionFile, pre, post, Stored, missing, torn, whole,
  Files, UndoState, DiskFile, marker_file, journal_file, undo_dir, audit_file, AuditEntry,
}
use git_bamboo.Undo.Snapshots.{Undo, read_snapshot}
use git_bamboo.Undo.Journal.{
  entries, settle, read_fault, read_journal, load_snapshot, truncate_journal_at,
}
use git_bamboo.Undo.Rollback.{ignore_error, restore_snapshot, set_marker, prune_snapshots}

pub data UndoOutcome : Type 0 where
  restored : (restored_refs : ℕ) → UndoOutcome
  noop : UndoOutcome

-- `UndoError`
pub data UndoError : Type 0 where
  not_found : UndoError
  blocked : (reason : Text) → UndoError
  io : Error → UndoError
  git : Error → UndoError

-- how an undo ends: with an outcome, an error, or the end of the process
pub data UndoFault : Type 0 where
  undo_error : UndoError → UndoFault
  undo_panicked : UndoFault

abbrev pub as_fault : (Error → UndoError) → Fault → UndoFault
as_fault f (raised e) = undo_error (f e)
as_fault f panicked = undo_panicked

abbrev pub mapped :
    {S A : Type 0} → (Error → UndoError) → Result Fault A → S → Result UndoFault A × S
mapped f (ok a) s = (ok a, s)
mapped f (err e) s = (err (as_fault f e), s)

-- `.map_err(f)?`
abbrev pub with_error : {S A : Type 0} → (Error → UndoError) → Act S Fault A → Act S UndoFault A
with_error f m s = mapped f (m s).0 (m s).1

pub changed_externally : Text
changed_externally = codes "repository state changed externally since the last bamboo operation"

-- `UndoError::kind`
unfoldable pub kind : UndoError → UndoErrorKind
kind not_found = UndoErrorKind.not_found
kind (blocked reason) = UndoErrorKind.blocked reason
kind (io e) = UndoErrorKind.failure (to_string e)
kind (git e) = UndoErrorKind.failure (to_string e)

abbrev pub with_id : ℕ → Transaction → Bool
with_id id t = t.id == id

-- the marker of an undo
unfoldable pub marker_for : Transaction → ℕ → Snapshot → TransactionFile
marker_for target id snapshot = record {
  meta = record { id = id; description = target.description; epoch = target.epoch_at_creation };
  snapshot = snapshot;
}

-- the next id after those of the journal and of the snapshot files, at 64 bits
unfoldable pub next_after : List Transaction → ℕ → ℕ
next_after [] n = n
next_after (t ∷ ts) n = next_after ts (max n ((t.id + 1) % 2 ^ 64))

unfoldable pub next_after_files : Files → ℕ → ℕ
next_after_files [] n = n
next_after_files ((i, s) ∷ files) n = next_after_files files (max n ((i + 1) % 2 ^ 64))

unfoldable pub initial_id : UndoState → ℕ
unfolding next_after next_after_files entries
initial_id u =
    next_after_files u.post_files (next_after_files u.pre_files (next_after (entries u.journal) 1))

-- what `append_audit_log` calls a success
unfoldable pub is_success : WriteResult → Bool
is_success (ok_output _) = true
is_success (undone (ok _)) = true
is_success (failed _) = false
is_success (undone (err _)) = false

module _ (h : Host) where
  -- the steps behind the safety check: marker, journal, refs, marker, files
  unfoldable pub roll_back : ℕ → Transaction → Snapshot → Act (Run h) UndoFault UndoOutcome
  unfolding set_marker truncate_journal_at restore_snapshot prune_snapshots marker_for
  roll_back id target snapshot = do
    with_error io (set_marker h (whole (marker_for target id snapshot)) torn)
    with_error io (truncate_journal_at h id)
    count ← with_error git (restore_snapshot h snapshot)
    with_error io (set_marker h missing (whole (marker_for target id snapshot)))
    with_error io (prune_snapshots h id)
    pure (restored count)

  -- the safety check: the state is what the latest transaction left
  unfoldable pub check_unchanged : ℕ → Act (Run h) UndoFault (Unit {0})
  unfolding load_snapshot read_snapshot
  check_unchanged latest_id = do
    expected ← with_error io (load_snapshot h latest_id post)
    current ← with_error io (read_snapshot h)
    if same_snapshot current expected
        then pure tt
        else fail (undo_error (blocked changed_externally))

  -- with the latest transaction, which is there whenever the target is
  unfoldable pub undo_checked :
      ℕ → Transaction → Option Transaction → Act (Run h) UndoFault UndoOutcome
  unfolding check_unchanged load_snapshot roll_back
  undo_checked id target none = fail undo_panicked
  undo_checked id target (some latest) = do
    check_unchanged latest.id
    snapshot ← with_error io (load_snapshot h id pre)
    roll_back id target snapshot

  -- a transaction that failed is dropped from the journal with all that follow
  unfoldable pub drop_failed : ℕ → Act (Run h) UndoFault UndoOutcome
  unfolding truncate_journal_at
  drop_failed id = do with_error io (truncate_journal_at h id); pure noop

  -- with the journal's transactions and the one to undo
  unfoldable pub undo_target :
      List Transaction → ℕ → Option Transaction → Act (Run h) UndoFault UndoOutcome
  unfolding drop_failed undo_checked
  undo_target ts id none = fail (undo_error not_found)
  undo_target ts id (some target) =
      if not target.success then drop_failed id else undo_checked id target (last? ts)

  -- `undo`
  unfoldable pub undo : ℕ → Act (Run h) UndoFault UndoOutcome
  unfolding read_journal undo_target
  undo id = do ts ← with_error io (read_journal h); undo_target ts id (find (with_id id) ts)

  -- an error of the restoration is only logged
  unfoldable pub restore_or_warn : Snapshot → Undo h (Unit {0})
  unfolding restore_snapshot ignore_error
  restore_or_warn snapshot r =
      let (result, r') = (do n ← restore_snapshot h snapshot; pure tt) r in ignore_error h result r'

  unfoldable pub finish : TransactionFile → Undo h (Unit {0})
  unfolding truncate_journal_at restore_or_warn set_marker
  finish file = do
    truncate_journal_at h file.meta.id
    restore_or_warn file.snapshot
    set_marker h missing (whole file)

  unfoldable pub read_marker : Stored → Undo h (Unit {0})
  unfolding finish
  read_marker missing = pure tt
  read_marker torn = fail (raised (plain (codes "failed to parse undo marker")))
  read_marker (whole file) = finish file

  -- by what the marker file is; one that is not there is not read
  unfoldable pub recover_from : Stored → Undo h (Unit {0})
  unfolding read_marker
  recover_from missing = pure tt
  recover_from torn = λ r. read_fault (h.disk_read marker_file r.world) (read_marker torn) r
  recover_from (whole file) =
      λ r. read_fault (h.disk_read marker_file r.world) (read_marker (whole file)) r

  -- `recover`
  unfoldable pub recover : Undo h (Unit {0})
  unfolding recover_from
  recover r = recover_from r.undo.marker r

  -- `UndoEngine::new` over the files that are there
  unfoldable pub start : Undo h (Unit {0})
  unfolding initial_id recover ignore_error
  start = λ r.
      read_fault (h.disk_read journal_file r.world)
        (read_fault (h.disk_read undo_dir r.world) (λ s.
          let s' = record s { undo = record s.undo { next_id = initial_id s.undo } } in
          let (result, s'') = recover s' in ignore_error h result s''))
        r

  -- `append_audit_log`; a torn line is not an entry
  unfoldable pub append_audit_log : Text → ℕ → WriteResult → ℕ → Undo h (Unit {0})
  unfolding is_success
  append_audit_log operation epoch outcome transaction_id r =
      let line : AuditEntry = record {
        timestamp = h.now r.world;
        operation = operation;
        epoch = epoch;
        success = is_success outcome;
        transaction_id = transaction_id;
      } in
      let (o, w) = h.disk_write audit_file r.world in
      let (result, audit) = settle o r.undo.audit (r.undo.audit ++ line ∷ []) r.undo.audit in
      (result, record r { world = w; undo = record r.undo { audit = audit } })
