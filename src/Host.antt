-- ===== src/Host.antt =====
-- What the engine's write side stands on and does not implement, and the state of a session that it
-- works on. git, the file system, the clock and Rust's Unicode tables are the parameters of a `Host`;
-- the repository and all else that they read and write is its `World`.
use git_bamboo.Prelude.{ℕ, Bool, Option, List, Result}
use git_bamboo.Prelude.Text.{Text, Debug}
use git_bamboo.Protocol.{ℤ, Fault}
use git_bamboo.Undo.Disk.{DiskFile, UndoState}

-- (success, stdout, stderr)
pub record Output : Type 0 where
  pub success : Bool
  pub stdout : Text
  pub stderr : Text

-- a subprocess that could not be run, with the message of the I/O error; its output; or the end of
-- the engine's own process while it ran
pub data Spawned : Type 0 where
  not_run : (msg : Text) → Spawned
  finished : Output → Spawned
  died : Spawned

-- an entry of a directory walk: one that cannot be read, one that is no file, or a file's path
-- below the directory with its content
pub data DirEntry : Type 0 where
  unreadable : (msg : Text) → DirEntry
  not_file : DirEntry
  file : (rel : Text) → Result Text Text → DirEntry

-- A change of a file of the undo directory: done, refused with the file as it was, or cut short. A
-- fault `panicked` is the end of the process there.
pub data DiskOutcome : Type 0 where
  written : DiskOutcome
  refused : Fault → DiskOutcome
  cut_short : Fault → DiskOutcome

pub record Host : Type 1 where
  pub World : Type 0
  -- one git subprocess of the write queue, for an argv
  pub git : List Text → World → Spawned × World
  -- the same under the wall-clock limit: `none` when it expires
  pub git_within : List Text → World → Option Spawned × World
  -- one git subprocess of the undo engine, for an argv and an input
  pub undo_git : List Text → Text → World → Spawned × World
  -- the files of the git directory
  pub read_head : World → Result Text Text
  pub loose_heads : World → List DirEntry
  pub loose_refs : World → List DirEntry
  pub packed_refs : World → Option Text
  -- whether a change, or a read, of an undo file works
  pub disk_write : DiskFile → World → DiskOutcome × World
  pub disk_read : DiskFile → World → Option Text
  pub now : World → ℤ
  pub debug : Debug
  pub to_lowercase : Text → Text

-- `EngineEvent`
pub data EngineEvent : Type 0 where
  refs_changed : (changed_refs : List Text) (epoch : ℕ) → EngineEvent
  worktree_changed : (paths : List Text) → EngineEvent
  index_changed : (epoch : ℕ) → EngineEvent
  head_changed : (new_head : Text) (epoch : ℕ) → EngineEvent
  graph_invalidated : (epoch : ℕ) → EngineEvent

-- The part of `Session` that writes change: the epoch counter, the undo engine's state, the events
-- sent so far. `trace` records every argv of git that is run, in order, for statements only.
pub record Run (h : Host) : Type 0 where
  pub world : h.World
  pub trace : List (List Text)
  pub undo : UndoState
  pub epoch : ℕ
  pub events : List EngineEvent
