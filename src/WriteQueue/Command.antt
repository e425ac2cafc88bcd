-- ===== src/WriteQueue/Command.antt =====
-- `WriteCommand`, its redacted summary and `WriteResult` of crates/engine/src/write_queue.rs, with the
-- undo summaries of crates/engine/src/undo.rs that cross the queue.
use git_bamboo.Prelude.{ℕ, Bool, true, false, Option, List, ◌++◌, length, Result, if◌then◌else◌}
use git_bamboo.Prelude.Text.{Text, codes, show}
use git_bamboo.Protocol.{
  BambooError, ConflictResolution, ours, theirs, keep_ours, keep_theirs, PullStrategy, default,
  merge, rebase, ff_only, ForceMode, no_force, lease, force,
}

pub data WriteCommand : Type 0 where
  stage : (paths : List Text) → WriteCommand
  unstage : (paths : List Text) → WriteCommand
  discard : (paths : List Text) → WriteCommand
  resolve_conflict : (path : Text) (resolution : ConflictResolution) → WriteCommand
  commit : (message : Text) (amend : Bool) → WriteCommand
  create_branch : (name : Text) (base : Option Text) → WriteCommand
  delete_branch : (name : Text) (force : Bool) → WriteCommand
  switch_branch : (name : Text) (auto_stash : Bool) → WriteCommand
  fetch : (remote : Option Text) → WriteCommand
  pull : (remote branch : Option Text) (strategy : PullStrategy) (auto_stash : Bool) → WriteCommand
  push : (remote branch : Text) (force : ForceMode) (set_upstream : Bool) → WriteCommand
  stash_push : (message : Option Text) (include_untracked staged_only : Bool) → WriteCommand
  stash_pop : (stash_ref : Option Text) (apply reinstate_index : Bool) → WriteCommand
  stash_drop : (stash_ref : Option Text) → WriteCommand
  undo : (transaction_id : ℕ) → WriteCommand

-- `{:?}` of the enums
pub debug_resolution : ConflictResolution → Text
debug_resolution ours = codes "Ours"
debug_resolution theirs = codes "Theirs"
debug_resolution keep_ours = codes "KeepOurs"
debug_resolution keep_theirs = codes "KeepTheirs"

debug_strategy : PullStrategy → Text
debug_strategy default = codes "Default"
debug_strategy merge = codes "Merge"
debug_strategy rebase = codes "Rebase"
debug_strategy ff_only = codes "FfOnly"

pull_summary : Bool → PullStrategy → Text
pull_summary false default = codes "Pull"
pull_summary true default = codes "Pull(auto-stash)"
pull_summary false s = codes "Pull(" ++ (debug_strategy s ++ codes ")")
pull_summary true s = codes "Pull(auto-stash, " ++ (debug_strategy s ++ codes ")")

push_summary : ForceMode → Text
push_summary no_force = codes "Push"
push_summary lease = codes "Push(lease)"
push_summary force = codes "Push(force)"

stash_push_summary : Bool → Bool → Text
stash_push_summary false false = codes "StashPush"
stash_push_summary true false = codes "StashPush(untracked)"
stash_push_summary false true = codes "StashPush(staged)"
stash_push_summary true true = codes "StashPush(untracked, staged)"

-- `op_summary`
unfoldable pub op_summary : WriteCommand → Text
unfolding debug_resolution debug_strategy pull_summary push_summary stash_push_summary
op_summary (stage paths) = codes "Stage(" ++ (show (length paths) ++ codes " paths)")
op_summary (unstage paths) = codes "Unstage(" ++ (show (length paths) ++ codes " paths)")
op_summary (discard paths) = codes "Discard changes"
op_summary (resolve_conflict path resolution) =
    codes "ResolveConflict(" ++ (debug_resolution resolution ++ codes ")")
op_summary (commit message amend) = if amend then codes "Commit(amend)" else codes "Commit"
op_summary (create_branch name base) = codes "CreateBranch"
op_summary (delete_branch name forced) =
    if forced then codes "DeleteBranch(force)" else codes "DeleteBranch"
op_summary (switch_branch name auto_stash) =
    if auto_stash then codes "SwitchBranch(auto-stash)" else codes "SwitchBranch"
op_summary (fetch remote) = codes "Fetch"
op_summary (pull remote branch strategy auto_stash) = pull_summary auto_stash strategy
op_summary (push remote branch mode set_upstream) = push_summary mode
op_summary (stash_push message include_untracked staged_only) =
    stash_push_summary include_untracked staged_only
op_summary (stash_pop stash_ref apply reinstate_index) =
    if apply then codes "StashApply" else codes "StashPop"
op_summary (stash_drop stash_ref) = codes "StashDrop"
op_summary (undo transaction_id) = codes "Undo"

-- `UndoSummary`
pub record UndoSummary : Type 0 where
  pub restored_refs : ℕ
  pub noop : Bool

pub data UndoErrorKind : Type 0 where
  not_found : UndoErrorKind
  blocked : (reason : Text) → UndoErrorKind
  failure : (msg : Text) → UndoErrorKind

pub data WriteResult : Type 0 where
  ok_output : Text → WriteResult
  failed : BambooError → WriteResult
  undone : Result UndoErrorKind UndoSummary → WriteResult
