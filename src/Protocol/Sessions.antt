-- ===== src/Protocol/Sessions.antt =====
-- The types of `initialize` and of the notifications in crates/protocol/src/lib.rs.
use git_bamboo.Prelude.{ℕ, Bool, List}
use git_bamboo.Prelude.Text.{Text}

pub record Initialize : Type 0 where
  pub repo_path : Text

pub record Capabilities : Type 0 where
  pub graph : Bool
  pub status : Bool
  pub write_ops : Bool
  pub undo : Bool
  pub notifications : Bool

pub record InitializeResult : Type 0 where
  pub session_id : Text
  pub protocol_version : ℕ
  pub engine_version : Text
  pub epoch : ℕ
  pub capabilities : Capabilities

pub record RefsChanged : Type 0 where
  pub changed_refs : List Text
  pub epoch : ℕ

pub record WorktreeChanged : Type 0 where
  pub paths : List Text

pub record IndexChanged : Type 0 where
  pub epoch : ℕ

pub record HeadChanged : Type 0 where
  pub new_head : Text
  pub epoch : ℕ

pub record GraphInvalidated : Type 0 where
  pub epoch : ℕ
