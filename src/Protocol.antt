-- ===== src/Protocol.antt =====
-- The types of crates/protocol/src/lib.rs that the engine's core computes with.
mod Errors
pub mod Answers
pub mod Requests
pub mod Sessions
pub use Errors.{
  ℤ, pos, negsuc, Error, plain, structured, BambooError, repo_not_found_code, git_error_code,
  epoch_mismatch_code, invalid_argument_code, not_initialized_code, undo_blocked_code,
  stash_conflict_code, push_rejected_code, auth_required_code, Fault, raised, panicked,
}
unfoldable pub use Errors.{
  repo_not_found, git_error, epoch_mismatch, invalid_argument, not_initialized, undo_blocked,
  stash_conflict, push_rejected, auth_required, downcast_or_git_error, to_string,
}
use git_bamboo.Prelude.{Bool, true, false, if◌then◌else◌, Result, ok, err, ℕ, List, ◌++◌, Option}
use git_bamboo.Prelude.Text.{Text, codes, eq, Debug}

-- An unmerged index entry, by what each side did.
pub data ConflictKind : Type 0 where
  both_deleted added_by_us deleted_by_them added_by_them : ConflictKind
  deleted_by_us both_added both_modified : ConflictKind

pub data ConflictResolution : Type 0 where
  ours theirs keep_ours keep_theirs : ConflictResolution

pub data PullStrategy : Type 0 where
  default merge rebase ff_only : PullStrategy

pub data ForceMode : Type 0 where
  no_force lease force : ForceMode

-- The two wire forms of a force mode, the string and the legacy flag.
pub data Raw : Type 0 where
  mode : Text → Raw
  legacy : Bool → Raw

unknown_force_mode : Debug → Text → Text
unknown_force_mode debug s =
    codes "unknown force mode "
    ++ (debug.str s ++ codes "; expected \"none\" | \"lease\" | \"force\"")

-- `ForceMode::deserialize` behind the untagged proxy.
unfoldable pub deserialize : Debug → Raw → Result Text ForceMode
unfolding unknown_force_mode
deserialize debug (legacy true) = ok lease
deserialize debug (legacy false) = ok no_force
deserialize debug (mode s) =
    if eq s (codes "none")
    then ok no_force
    else if eq s (codes "lease")
    then ok lease
    else if eq s (codes "force")
    then ok force
    else err (unknown_force_mode debug s)

pub record UndoEntry : Type 0 where
  pub id : ℕ
  pub timestamp : ℤ
  pub description : Text
  pub epoch_at_creation : ℕ

pub record GraphViewport : Type 0 where
  pub offset : ℕ
  pub limit : ℕ
  pub anchor_commit : Option Text
  pub epoch : ℕ

pub record Commit : Type 0 where
  pub id : Text
  pub message : Text
  pub author_name : Text
  pub author_email : Text
  pub author_time : ℤ
  pub parent_ids : List Text
  pub lane : ℕ

pub record GraphPage : Type 0 where
  pub commits : List Commit
  pub total_approx : ℕ
  pub has_more : Bool
  pub epoch : ℕ
  pub anchor_commit : Option Text
