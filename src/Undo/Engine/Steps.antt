-- ===== src/Undo/Engine/Steps.antt =====
-- What the steps of an undo in crates/engine/src/undo.rs keep, an undo keeps.
use git_bamboo.WriteQueue.Safety.{Invariant}
use git_bamboo.Prelude.{
  ℕ, not, Option, none, some, List, ◌≡◌, refl, Result, ok, err, Preserves, Preserves-pure,
  Preserves-fail, Preserves-if, Preserves-bind, find, last?,
}
use git_bamboo.Protocol.{Error, Fault}
use git_bamboo.Host.{Host}
use git_bamboo.Undo.Disk.{Snapshot, same_snapshot, Transaction, pre, post, Stored}
use git_bamboo.Undo.Snapshots.{Undo}
use git_bamboo.Undo.Journal.{truncate_journal_at}
use git_bamboo.Undo.Rollback.{set_marker, prune_snapshots}
use git_bamboo.Undo.Engine.{
  UndoError, io, git, mapped, with_error, with_id, roll_back, check_unchanged, undo_checked,
  drop_failed, undo_target, undo,
}
use git_bamboo.Undo.Engine.Keeping.{
  Has, read_snapshot-Has, restore_snapshot-Has, read_journal-Has, load_snapshot-Has,
}

module _ (h : Host) (p : Invariant) where
  -- the steps of an undo that change the engine's files
  pub record Steps : Type 0 where
    pub marks : (new cut : Stored) → Preserves (Has p) (set_marker h new cut)
    pub truncates : (id : ℕ) → Preserves (Has p) (truncate_journal_at h id)
    pub prunes : (id : ℕ) → Preserves (Has p) (prune_snapshots h id)

  mapped_state :
      {A S : Type 0} (f : Error → UndoError) (x : Result Fault A) (s : S) → (mapped f x s).1 ≡ s
  mapped_state f (ok a) s = refl
  mapped_state f (err e) s = refl

  error-Has :
      {A : Type 0} (f : Error → UndoError) (m : Undo h A)
      → Preserves (Has p) m
      → Preserves (Has p) (with_error f m)
  error-Has f m v = record { at = λ s q. rw (mapped_state f (m s).0 (m s).1) (v.at s q) }

module _ (h : Host) (p : Invariant) (k : Steps h p) where
  roll_back-Has :
      (id : ℕ) (target : Transaction) (snapshot : Snapshot)
      → Preserves (Has p) (roll_back h id target snapshot)
  unfolding roll_back
  roll_back-Has id target snapshot = Preserves-bind _ _ (error-Has h p io _ (k.marks _ _)) λ _.
      Preserves-bind _ _ (error-Has h p io _ (k.truncates id)) λ _.
        Preserves-bind _ _ (error-Has h p git _ (restore_snapshot-Has h p snapshot)) λ n.
          Preserves-bind _ _ (error-Has h p io _ (k.marks _ _))
            λ _. Preserves-bind _ _ (error-Has h p io _ (k.prunes id)) λ _. Preserves-pure _

  check-Has : (id : ℕ) → Preserves (Has p) (check_unchanged h id)
  unfolding check_unchanged
  check-Has id = Preserves-bind _ _ (error-Has h p io _ (load_snapshot-Has h p id post)) λ expected.
      Preserves-bind _ _ (error-Has h p io _ (read_snapshot-Has h p)) λ current.
        Preserves-if (same_snapshot current expected) _ _ (λ _. Preserves-pure tt)
          λ _. Preserves-fail _

  checked-Has :
      (id : ℕ) (target : Transaction) (o : Option Transaction)
      → Preserves (Has p) (undo_checked h id target o)
  unfolding undo_checked
  checked-Has id target none = Preserves-fail _
  checked-Has id target (some latest) = Preserves-bind _ _ (check-Has latest.id) λ _.
      Preserves-bind _ _ (error-Has h p io _ (load_snapshot-Has h p id pre))
        λ snapshot. roll_back-Has id target snapshot

  target-Has :
      (ts : List Transaction) (id : ℕ) (o : Option Transaction)
      → Preserves (Has p) (undo_target h ts id o)
  unfolding undo_target drop_failed
  target-Has ts id none = Preserves-fail _
  target-Has ts id (some target) =
      Preserves-if (not target.success) _ _
        (λ _. Preserves-bind _ _ (error-Has h p io _ (k.truncates id)) λ _. Preserves-pure _)
        (λ _. checked-Has id target (last? ts))

  -- An undo keeps what its steps keep.
  pub undo-Has : (id : ℕ) → Preserves (Has p) (undo h id)
  unfolding undo
  undo-Has id =
      Preserves-bind _ _ (error-Has h p io _ (read_journal-Has h p))
        λ ts. target-Has ts id (find (with_id id) ts)
