-- ===== src/Undo/Engine/Counters.antt =====
-- The arguments of the write queue, the epoch and the events, which no step of crates/engine/src/undo.rs changes.
use git_bamboo.WriteQueue.Safety.{Outside, invariant}
use git_bamboo.Prelude.{
  ℕ, Bool, leb, Option, none, some, [], ◌∷◌, Preserves, Preserves-pure, Preserves-if,
  Preserves-bind,
}
use git_bamboo.Prelude.Text.{Text}
use git_bamboo.Host.{Host, Run}
use git_bamboo.WriteQueue.Command.{WriteResult}
use git_bamboo.Undo.Disk.{TransactionFile, SnapshotKind, pre, post, Stored, Files, undo_dir}
use git_bamboo.Undo.Snapshots.{Undo}
use git_bamboo.Undo.Journal.{
  write_snapshot, replace_journal, write_tmp, truncate_journal_at, take_id, begin, append_entry,
  commit,
}
use git_bamboo.Undo.Rollback.{
  set_marker, remove_file, prune_kind, unless_unreadable, prune_snapshots,
}
use git_bamboo.Undo.Engine.{undo, append_audit_log}
use git_bamboo.Undo.Engine.Steps.{undo-Has}
use git_bamboo.Undo.Engine.Keeping.{Has, read_snapshot-Has, read_journal-Has}

module _ (h : Host) (o : Outside) where
  -- what holds of them, whatever the engine's state is
  abbrev Counts : Run h → Type 0
  Counts = Has (invariant o)

  write_snapshot-Counts :
      (kind : SnapshotKind) (id : ℕ) (file : TransactionFile)
      → Preserves Counts (write_snapshot h kind id file)
  unfolding write_snapshot
  write_snapshot-Counts kind id file = record { at = λ s q. q }

  truncate-Counts : (id : ℕ) → Preserves Counts (truncate_journal_at h id)
  unfolding truncate_journal_at write_tmp replace_journal
  truncate-Counts id =
      Preserves-bind _ _ (read_journal-Has h (invariant o))
        λ ts. Preserves-bind _ _ (record { at = λ s q. q }) λ u. record { at = λ s q. q }

  marker-Counts : (new cut : Stored) → Preserves Counts (set_marker h new cut)
  unfolding set_marker
  marker-Counts new cut = record { at = λ s q. q }

  prune_kind-Counts :
      (kind : SnapshotKind) (id : ℕ) (files : Files) → Preserves Counts (prune_kind h kind id files)
  unfolding prune_kind remove_file
  prune_kind-Counts kind id [] = Preserves-pure tt
  prune_kind-Counts kind id ((i, s) ∷ files) =
      Preserves-if (leb id i) _ _
        (λ _. Preserves-bind _ _ (record { at = λ s q. q }) λ _. prune_kind-Counts kind id files)
        (λ _. prune_kind-Counts kind id files)

  readable-Counts :
      (msg : Option Text) (m : Undo h (Unit {0}))
      → Preserves Counts m
      → Preserves Counts (unless_unreadable h msg m)
  unfolding unless_unreadable
  readable-Counts none m k = k
  readable-Counts (some msg) m k = Preserves-pure tt

  prune-Counts : (id : ℕ) → Preserves Counts (prune_snapshots h id)
  unfolding prune_snapshots
  prune-Counts id = record {
    at = λ s q.
        (readable-Counts (h.disk_read undo_dir s.world) _ (
            Preserves-bind _ _ (prune_kind-Counts pre id s.undo.pre_files)
              λ _. prune_kind-Counts post id s.undo.post_files)).at
          s q;
  }

  -- Beginning a transaction leaves these alone.
  pub begin-Counts : (d : Text) (epoch : ℕ) → Preserves Counts (begin h d epoch)
  unfolding begin take_id
  begin-Counts d epoch =
      Preserves-bind _ _ (record { at = λ s q. q })
        λ id.
          Preserves-bind _ _ (read_snapshot-Has h (invariant o))
            λ snapshot. Preserves-bind _ _ (write_snapshot-Counts pre id _) λ _. Preserves-pure id

  -- So does a commit.
  pub commit-Counts :
      (id : ℕ) (d : Text) (epoch : ℕ) (success : Bool)
      → Preserves Counts (commit h id d epoch success)
  unfolding commit append_entry replace_journal
  commit-Counts id d epoch success =
      Preserves-bind _ _ (read_snapshot-Has h (invariant o)) λ snapshot.
        Preserves-bind _ _ (write_snapshot-Counts post id _) λ _. record { at = λ s q. q }

  -- So does a line of the audit log.
  pub audit-Counts :
      (operation : Text) (epoch : ℕ) (reply : WriteResult) (id : ℕ)
      → Preserves Counts (append_audit_log h operation epoch reply id)
  unfolding append_audit_log
  audit-Counts operation epoch reply id = record { at = λ s q. q }

  -- So does an undo.
  pub undo-Counts : (id : ℕ) → Preserves Counts (undo h id)
  undo-Counts =
      undo-Has h (invariant o)
        (record { marks = marker-Counts; truncates = truncate-Counts; prunes = prune-Counts })
