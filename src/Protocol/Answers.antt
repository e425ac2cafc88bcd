-- ===== src/Protocol/Answers.antt =====
-- The answers of crates/protocol/src/lib.rs that the reading side gives.
use git_bamboo.Prelude.{ℕ, Bool, Option, List}
use git_bamboo.Prelude.Text.{Text}
use git_bamboo.Protocol.{ℤ, ConflictKind}

pub data RefKind : Type 0 where
  branch tag remote_branch : RefKind

pub record Ref : Type 0 where
  pub name : Text
  pub kind : RefKind
  pub target : Text

pub data StatusCode : Type 0 where
  added modified deleted renamed copied untracked ignored conflict : StatusCode

pub record StatusItem : Type 0 where
  pub path : Text
  pub status : StatusCode
  pub old_path : Option Text
  pub staged : Bool
  pub conflict_kind : Option ConflictKind

pub record CommitFile : Type 0 where
  pub path : Text
  pub old_path : Option Text
  pub status : Text
  pub additions : ℕ
  pub deletions : ℕ

pub record CommitDetail : Type 0 where
  pub id : Text
  pub message : Text
  pub author_name : Text
  pub author_email : Text
  pub author_time : ℤ
  pub committer_name : Text
  pub committer_email : Text
  pub committer_time : ℤ
  pub parent_ids : List Text
  pub files : List CommitFile

pub record GetHeadResult : Type 0 where
  pub head : Text
  pub branch : Option Text

pub record RemoteInfo : Type 0 where
  pub name : Text
  pub url : Option Text
  pub default : Bool

pub record BranchStatus : Type 0 where
  pub branch : Text
  pub upstream : Option Text
  pub ahead : ℕ
  pub behind : ℕ

pub record StashEntry : Type 0 where
  pub stash_ref : Text
  pub message : Text
  pub date : Text
