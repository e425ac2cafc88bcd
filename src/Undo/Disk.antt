-- ===== src/Undo/Disk.antt =====
-- The data of crates/engine/src/undo.rs, and what its files hold. A file that serde_json wrote is the
-- value that it reads back; a write that was cut short leaves a file that does not parse.
use git_bamboo.Prelude.{
  ℕ, Bool, true, false, ◌&&◌, Option, none, some, List, [], ◌∷◌, length, ◌==◌, all, if◌then◌else◌,
}
use git_bamboo.Prelude.Text.{Text, eq}
use git_bamboo.Protocol.{ℤ}

-- the map from full ref names to object ids, each name once
abbrev pub Refs : Type 0
Refs = List (Text × Text)

unfoldable pub lookup : Text → Refs → Option Text
lookup name [] = none
lookup name ((n, sha) ∷ refs) = if eq n name then some sha else lookup name refs

-- `HashMap::insert`
unfoldable pub insert : Text → Text → Refs → Refs
insert name sha [] = (name, sha) ∷ []
insert name sha ((n, old) ∷ refs) =
    let rest = insert name sha refs in if eq n name then (name, sha) ∷ refs else (n, old) ∷ rest

abbrev pub opt_eq : Option Text → Option Text → Bool
opt_eq none none = true
opt_eq (some a) (some b) = eq a b
opt_eq _ _ = false

-- `HashMap::eq`: as many entries, and each of one is in the other
unfoldable pub same_refs : Refs → Refs → Bool
unfolding lookup
same_refs a b =
    length a == length b && all (λ (e : Text × Text). opt_eq (lookup e.0 b) (some e.1)) a

pub record Snapshot : Type 0 where
  pub head : Text
  pub refs : Refs
  pub stash_ref : Option Text
  pub index_tree : Option Text

-- the derived `PartialEq`
unfoldable pub same_snapshot : Snapshot → Snapshot → Bool
unfolding same_refs
same_snapshot a b =
    eq a.head b.head
    && same_refs a.refs b.refs
    && opt_eq a.stash_ref b.stash_ref
    && opt_eq a.index_tree b.index_tree

pub record Transaction : Type 0 where
  pub id : ℕ
  pub timestamp : ℤ
  pub description : Text
  pub epoch_at_creation : ℕ
  pub success : Bool

pub record TransactionMeta : Type 0 where
  pub id : ℕ
  pub description : Text
  pub epoch : ℕ

pub record TransactionFile : Type 0 where
  pub meta : TransactionMeta
  pub snapshot : Snapshot

pub data SnapshotKind : Type 0 where
  pre post : SnapshotKind

-- One line of the journal file, by what reading it gives. `unfinished` is a last line that was cut off
-- before its end and has no newline.
pub data Line : Type 0 where
  blank corrupt unfinished : Line
  entry : Transaction → Line

-- a file of the undo directory
pub data Stored : Type 0 where
  missing torn : Stored
  whole : TransactionFile → Stored

-- the snapshot files of one kind, by transaction id
abbrev pub Files : Type 0
Files = List (ℕ × Stored)

unfoldable pub stored : ℕ → Files → Stored
stored id [] = missing
stored id ((i, s) ∷ files) = if i == id then s else stored id files

unfoldable pub store : ℕ → Stored → Files → Files
store id s [] = (id, s) ∷ []
store id s ((i, old) ∷ files) =
    let rest = store id s files in if i == id then (id, s) ∷ files else (i, old) ∷ rest

-- one line of the audit log
pub record AuditEntry : Type 0 where
  pub timestamp : ℤ
  pub operation : Text
  pub epoch : ℕ
  pub success : Bool
  pub transaction_id : ℕ

-- the undo engine's files, and its counter
pub record UndoState : Type 0 where
  pub journal : List Line
  pub pre_files : Files
  pub post_files : Files
  pub marker : Stored
  pub next_id : ℕ
  pub audit : List AuditEntry

-- which file a disk operation is about
pub data DiskFile : Type 0 where
  journal_file journal_tmp marker_file audit_file undo_dir : DiskFile
  snapshot_file : SnapshotKind → ℕ → DiskFile
