-- ===== src/Protocol/Requests.antt =====
-- The requests of crates/protocol/src/lib.rs, as serde decodes them, and the answers that only the
-- server builds.
use git_bamboo.Prelude.{ℕ, Bool, Option, List}
use git_bamboo.Prelude.Text.{Text}
use git_bamboo.Protocol.{ConflictResolution, PullStrategy, ForceMode, GraphViewport}

pub record GetBlob : Type 0 where
  pub revision : Text
  pub path : Text

pub record GetCommitDetail : Type 0 where
  pub id : Text

pub record GetGraph : Type 0 where
  pub viewport : GraphViewport

pub record GetStatus : Type 0 where
  pub paths : Option (List Text)

pub record Stage : Type 0 where
  pub paths : List Text

pub record Unstage : Type 0 where
  pub paths : List Text

pub record Discard : Type 0 where
  pub paths : List Text

pub record ResolveConflict : Type 0 where
  pub path : Text
  pub resolution : ConflictResolution

pub record CommitMsg : Type 0 where
  pub message : Text
  pub amend : Bool

pub record CreateBranch : Type 0 where
  pub name : Text
  pub base : Option Text

pub record DeleteBranch : Type 0 where
  pub name : Text
  pub force : Bool

pub record SwitchBranch : Type 0 where
  pub name : Text
  pub auto_stash : Bool

pub record Fetch : Type 0 where
  pub remote : Option Text

pub record Pull : Type 0 where
  pub remote : Option Text
  pub branch : Option Text
  pub strategy : PullStrategy
  pub auto_stash : Bool

pub record Push : Type 0 where
  pub remote : Text
  pub branch : Text
  pub force : ForceMode
  pub set_upstream : Bool

pub record StashPush : Type 0 where
  pub message : Option Text
  pub include_untracked : Bool
  pub staged_only : Bool

pub record StashPop : Type 0 where
  pub stash_ref : Option Text
  pub apply : Bool
  pub reinstate_index : Bool

pub record StashDrop : Type 0 where
  pub stash_ref : Option Text

pub record GetBranchStatus : Type 0 where
  pub branch : Option Text

pub record ListUndoStack : Type 0 where
  pub limit : ℕ

pub record Undo : Type 0 where
  pub transaction_id : ℕ

pub record UndoResponse : Type 0 where
  pub restored_refs : ℕ
  pub noop : Bool
  pub epoch : ℕ
