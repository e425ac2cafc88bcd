-- ===== src/Tests/Undos.antt =====
-- Undo and its recovery on the test repository.
use git_bamboo.Undo.Rollback.Guards.{IsGuarded, script-IsGuarded}
use git_bamboo.Undo.Snapshots.{read_refs, merge_lines}
use git_bamboo.Undo.Engine.Recovery.{IsWorking, recover-IsSettled}
use git_bamboo.Host.{Run}
use git_bamboo.Protocol.{panicked}
use git_bamboo.Prelude.{
  ℕ, true, false, Option, none, some, List, [], ◌∷◌, keep, ◌≡◌, refl, Result, ok, err, ◌≢◌, ◌++◌,
  All, ◌<◌,
}
use git_bamboo.Prelude.Text.{Text, codes}
use git_bamboo.Undo.Disk.{Refs, lookup, Transaction, entry, missing, whole, Stored}
use git_bamboo.Undo.Journal.{transactions, before, truncate_journal_at, entries}
use git_bamboo.Undo.Journal.Truncation.{IsTruncation, truncate-IsTruncation}
use git_bamboo.Undo.Rollback.{RefUpdate, update, delete, script, null_id, restore_snapshot}
use git_bamboo.Undo.Rollback.Script.{IsMap, applied, script_restores}
use git_bamboo.Undo.Engine.{
  UndoOutcome, restored, noop, UndoFault, undo_error, blocked, changed_externally, marker_for,
  roll_back, undo, recover, initial_id,
}
use git_bamboo.Undo.Engine.Refusals.{IsRefusal, undo-IsRefusal}
use git_bamboo.Tests.Hosts.{sha_a, sha_b, host, here, first, second, begun, outdated, there, kept}

-- the earlier transaction takes the later one with it, and a state that the later one did not leave
-- blocks the undo
undo_runs :
    ((undo host 1 begun).0 ≡ ok (restored 1))
    × ((undo host 1 begun).1.undo.journal ≡ [])
    × ((undo host 2 begun).1.undo.journal ≡ entry first ∷ [])
    × ((undo host 2 outdated).0 ≡ err (undo_error (blocked changed_externally)))
unfolding undo git_bamboo.Prelude.◌>>=◌ transactions git_bamboo.Undo.Disk.stored
    git_bamboo.Undo.Snapshots.lift_error git_bamboo.Undo.Disk.same_snapshot
    git_bamboo.Prelude.Text.eq git_bamboo.Prelude.Text.trim git_bamboo.Prelude.Text.is_whitespace
    git_bamboo.Prelude.Text.len git_bamboo.Prelude.Text.len_utf8 git_bamboo.Undo.Disk.insert
    git_bamboo.WriteQueue.Validate.validate_full_ref_name git_bamboo.Prelude.Text.starts_with
    git_bamboo.Prelude.Text.contains git_bamboo.Prelude.Text.ends_with
    git_bamboo.WriteQueue.Validate.check_body git_bamboo.Prelude.fail git_bamboo.Prelude.pure
    git_bamboo.Prelude.Text.lines git_bamboo.Prelude.Text.split git_bamboo.Prelude.Text.split_once
    git_bamboo.Prelude.Text.strip_prefix git_bamboo.Prelude.Text.trim_end
    git_bamboo.Prelude.Text.trim_start lookup git_bamboo.Undo.Disk.same_refs
    git_bamboo.Undo.Engine.check_unchanged git_bamboo.Undo.Engine.drop_failed marker_for roll_back
    git_bamboo.Undo.Engine.undo_checked git_bamboo.Undo.Engine.undo_target
    git_bamboo.Undo.Journal.entries git_bamboo.Undo.Journal.insert_by_id
    git_bamboo.Undo.Journal.load_snapshot git_bamboo.Undo.Journal.read_journal
    git_bamboo.Undo.Journal.replace_journal git_bamboo.Undo.Journal.sort_by_id truncate_journal_at
    git_bamboo.Undo.Journal.write_tmp git_bamboo.Undo.Rollback.deletions
    git_bamboo.Undo.Rollback.ignore_error git_bamboo.Undo.Rollback.ignored null_id
    git_bamboo.Undo.Rollback.or_null git_bamboo.Undo.Rollback.prune_kind
    git_bamboo.Undo.Rollback.prune_snapshots git_bamboo.Undo.Rollback.remove_file
    git_bamboo.Undo.Rollback.restore_head git_bamboo.Undo.Rollback.restore_index
    git_bamboo.Undo.Rollback.restore_snapshot git_bamboo.Undo.Rollback.restored_count
    git_bamboo.Undo.Rollback.run git_bamboo.Undo.Rollback.run_script script
    git_bamboo.Undo.Rollback.set_head git_bamboo.Undo.Rollback.set_marker
    git_bamboo.Undo.Rollback.unless_unreadable git_bamboo.Undo.Rollback.updates
    git_bamboo.Undo.Snapshots.merge_lines git_bamboo.Undo.Snapshots.packed_line
    git_bamboo.Undo.Snapshots.read_index_tree git_bamboo.Undo.Snapshots.read_loose
    git_bamboo.Undo.Snapshots.read_refs git_bamboo.Undo.Snapshots.read_snapshot
    git_bamboo.Undo.Snapshots.run_git git_bamboo.Undo.Snapshots.stash_lines
    git_bamboo.WriteQueue.Validate.check_chars git_bamboo.WriteQueue.Validate.check_components
    git_bamboo.WriteQueue.Validate.is_bad_component git_bamboo.WriteQueue.Validate.is_forbidden
    git_bamboo.WriteQueue.Validate.validate_sha
undo_runs = (refl, refl, refl, refl)

undo-IsRefusal_example : IsRefusal outdated (undo host 2 outdated).0 (undo host 2 outdated).1
undo-IsRefusal_example = undo-IsRefusal host outdated 2

truncate-IsTruncation_example :
    IsTruncation 2 begun (truncate_journal_at host 2 begun).0 (truncate_journal_at host 2 begun).1
truncate-IsTruncation_example = truncate-IsTruncation host 2 begun

-- a branch that moved, one that was deleted, and one that is new
abbrev now_refs : Refs
now_refs = (codes "refs/heads/main", sha_a) ∷ (codes "refs/heads/new", sha_a) ∷ []

abbrev old_refs : Refs
old_refs = (codes "refs/heads/main", sha_b) ∷ (codes "refs/heads/old", sha_b) ∷ []

abbrev lines_back : List RefUpdate
lines_back =
    update (codes "refs/heads/main") sha_b sha_a
    ∷ update (codes "refs/heads/old") sha_b null_id
    ∷ delete (codes "refs/heads/new") sha_a
    ∷ []

script_runs : script host now_refs old_refs ≡ ok lines_back
unfolding script git_bamboo.WriteQueue.Validate.validate_full_ref_name
    git_bamboo.Prelude.Text.starts_with git_bamboo.Prelude.Text.len git_bamboo.Prelude.Text.len_utf8
    git_bamboo.Prelude.Text.contains git_bamboo.Prelude.Text.ends_with git_bamboo.Prelude.Text.eq
    git_bamboo.WriteQueue.Validate.check_body git_bamboo.WriteQueue.Validate.check_chars
    git_bamboo.WriteQueue.Validate.is_forbidden git_bamboo.WriteQueue.Validate.check_components
    git_bamboo.Prelude.Text.split git_bamboo.WriteQueue.Validate.is_bad_component
    git_bamboo.WriteQueue.Validate.validate_sha lookup
script_runs = refl

old_refs-IsMap : IsMap old_refs
unfolding lookup git_bamboo.Prelude.Text.eq
old_refs-IsMap = (refl, (refl, tt))

script_restores_example :
    applied lines_back (λ n. lookup n now_refs) (codes "refs/heads/new")
    ≡ lookup (codes "refs/heads/new") old_refs
script_restores_example =
    script_restores host now_refs old_refs (codes "refs/heads/new") old_refs-IsMap script_runs

-- a marker that a stopped undo left
abbrev stopped : Run host
stopped = record begun { undo = record kept { marker = whole (marker_for second 2 there) } }

host-IsWorking : IsWorking host
host-IsWorking = record { writes = λ f w. refl; reads = λ f w. refl }

restores : (s : Run host) → (restore_snapshot host there s).0 ≡ ok 1
unfolding restore_snapshot git_bamboo.Prelude.◌>>=◌ git_bamboo.Undo.Snapshots.lift_error
    git_bamboo.Prelude.Text.eq git_bamboo.Prelude.Text.trim git_bamboo.Prelude.Text.is_whitespace
    git_bamboo.Prelude.Text.len git_bamboo.Prelude.Text.len_utf8 git_bamboo.Undo.Disk.insert
    git_bamboo.WriteQueue.Validate.validate_full_ref_name git_bamboo.Prelude.Text.starts_with
    git_bamboo.Prelude.Text.contains git_bamboo.Prelude.Text.ends_with
    git_bamboo.WriteQueue.Validate.check_body git_bamboo.Prelude.fail git_bamboo.Prelude.pure
    git_bamboo.Prelude.Text.split git_bamboo.Prelude.Text.strip_prefix
    git_bamboo.Prelude.Text.trim_end git_bamboo.Prelude.Text.trim_start lookup
    git_bamboo.Undo.Rollback.deletions git_bamboo.Undo.Rollback.ignore_error null_id
    git_bamboo.Undo.Rollback.or_null git_bamboo.Undo.Rollback.restore_head
    git_bamboo.Undo.Rollback.restore_index git_bamboo.Undo.Rollback.restored_count
    git_bamboo.Undo.Rollback.run git_bamboo.Undo.Rollback.run_script script
    git_bamboo.Undo.Rollback.set_head git_bamboo.Undo.Rollback.updates
    git_bamboo.Undo.Snapshots.merge_lines git_bamboo.Undo.Snapshots.packed_line
    git_bamboo.Undo.Snapshots.read_index_tree git_bamboo.Undo.Snapshots.read_loose
    git_bamboo.Undo.Snapshots.read_refs git_bamboo.Undo.Snapshots.read_snapshot
    git_bamboo.Undo.Snapshots.run_git git_bamboo.Undo.Snapshots.stash_lines
    git_bamboo.WriteQueue.Validate.check_chars git_bamboo.WriteQueue.Validate.check_components
    git_bamboo.WriteQueue.Validate.is_bad_component git_bamboo.WriteQueue.Validate.is_forbidden
    git_bamboo.WriteQueue.Validate.validate_sha
restores s = refl

lives : (s : Run host) → (restore_snapshot host there s).0 ≢ err panicked
lives s e = absurd (cc (restores s, e))

recover-IsSettled_example :
    ((recover host stopped).0 ≡ ok tt)
    × ((recover host stopped).1.undo.marker ≡ missing)
    × (transactions (recover host stopped).1.undo.journal
        ≡ keep (before 2) (transactions stopped.undo.journal))
unfolding marker_for
recover-IsSettled_example =
    recover-IsSettled host stopped (marker_for second 2 there) host-IsWorking refl lives

main_refs : read_refs host 0 ≡ ok ((codes "refs/heads/main", sha_a) ∷ [], none)
unfolding read_refs git_bamboo.Prelude.Text.len lookup git_bamboo.Prelude.Text.trim
    git_bamboo.Prelude.Text.is_whitespace git_bamboo.Prelude.Text.len_utf8
    git_bamboo.Undo.Disk.insert git_bamboo.Prelude.Text.eq
main_refs = refl

-- `main` is packed with another value too
abbrev packed : List Text
packed = (sha_b ++ codes " refs/heads/main") ∷ (sha_b ++ codes " refs/heads/old") ∷ []

main_found : lookup (codes "refs/heads/main") here.refs ≡ some sha_a
unfolding lookup git_bamboo.Prelude.Text.eq
main_found = refl

now_refs-IsMap : IsMap now_refs
unfolding lookup git_bamboo.Prelude.Text.eq
now_refs-IsMap = (refl, (refl, tt))

script-IsGuarded_example : All (IsGuarded now_refs) lines_back
script-IsGuarded_example = script-IsGuarded host now_refs old_refs now_refs-IsMap script_runs
