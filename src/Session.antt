-- ===== src/Session.antt =====
-- `process_event_batch` of crates/engine/src/session.rs: what a coalesced batch of file system events
-- says to the clients, and to the epoch counter.
pub mod Epochs
pub mod Relevant
pub mod Open
pub mod Watcher
use git_bamboo.Prelude.{
  ℕ, Bool, true, false, not, ◌&&◌, ◌||◌, Option, none, some, List, [], ◌∷◌, ◌++◌, last?, is_empty,
  if◌then◌else◌, Result, ok, err, ◌+◌, ◌%◌, ◌^◌,
}
use git_bamboo.Prelude.Text.{Text, codes, eq, first_is, last_is, starts_with, ends_with, join, trim}
use git_bamboo.Host.{
  Host, Run, EngineEvent, refs_changed, worktree_changed, index_changed, head_changed,
  graph_invalidated,
}

-- the components of a path
abbrev pub FilePath : Type 0
FilePath = List Text

-- `notify::Event`: whether it is a pure access, and its paths
pub record FileEvent : Type 0 where
  pub is_access : Bool
  pub paths : List FilePath

pub record Batch : Type 0 where
  pub head : Bool
  pub index : Bool
  pub graph : Bool
  pub refs : List Text
  pub worktree : List Text

abbrev pub or_empty : Option Text → Text
or_empty none = []
or_empty (some t) = t

-- transient files of editors
unfoldable pub is_transient : Text → Bool
is_transient name =
    (first_is b'.' name && ends_with (codes ".swp") name) || last_is b'~' name || first_is b'#' name

-- `path.strip_prefix(dir)`, by whole components
unfoldable pub strip_dir : FilePath → FilePath → Option FilePath
strip_dir [] path = some path
strip_dir (d ∷ ds) [] = none
strip_dir (d ∷ ds) (c ∷ cs) = let rest = strip_dir ds cs in if eq d c then rest else none

-- a path below the git directory
unfoldable pub note_git : Text → Batch → Batch
note_git rel b =
    if ends_with (codes ".lock") rel
    then b
    else if eq rel (codes "HEAD")
    then record b { head = true; graph = true }
    else if eq rel (codes "index")
    then record b { index = true }
    else if starts_with (codes "refs/") rel || eq rel (codes "packed-refs")
    then record b { refs = b.refs ++ rel ∷ []; graph = true }
    else if starts_with (codes "sequencer/") rel
    then record b { graph = true }
    else b

abbrev pub note_worktree : Option FilePath → Batch → Batch
note_worktree none b = b
note_worktree (some rel) b = record b { worktree = b.worktree ++ join (codes "/") rel ∷ [] }

abbrev pub note_in : Option FilePath → Option FilePath → Batch → Batch
unfolding note_git
note_in (some rel) below_repo b = note_git (join (codes "/") rel) b
note_in none below_repo b = note_worktree below_repo b

unfoldable pub note_path : FilePath → FilePath → FilePath → Batch → Batch
unfolding is_transient strip_dir note_in
note_path git_dir repo_path path b =
    if is_transient (or_empty (last? path))
    then b
    else note_in (strip_dir git_dir path) (strip_dir repo_path path) b

unfoldable pub note_paths : FilePath → FilePath → List FilePath → Batch → Batch
unfolding note_path
note_paths git_dir repo_path [] b = b
note_paths git_dir repo_path (p ∷ ps) b =
    note_paths git_dir repo_path ps (note_path git_dir repo_path p b)

-- the loop over the events
unfoldable pub note_events : FilePath → FilePath → List FileEvent → Batch → Batch
unfolding note_paths
note_events git_dir repo_path [] b = b
note_events git_dir repo_path (e ∷ es) b =
    note_events git_dir repo_path es
      (if e.is_access then b else note_paths git_dir repo_path e.paths b)

abbrev pub no_changes : Batch
no_changes = record { head = false; index = false; graph = false; refs = []; worktree = [] }

unfoldable pub note_batch : FilePath → FilePath → List FileEvent → Batch
unfolding note_events
note_batch git_dir repo_path events = note_events git_dir repo_path events no_changes

abbrev pub when : Bool → EngineEvent → List EngineEvent
when true e = e ∷ []
when false e = []

abbrev pub or_default : Result Text Text → Text
or_default (ok t) = t
or_default (err _) = []

-- the notifications of a batch that bumps the epoch, in order
unfoldable pub notifications : Batch → Text → ℕ → List EngineEvent
notifications b new_head epoch =
    when b.head (head_changed new_head epoch)
    ++ (when (not (is_empty b.refs)) (refs_changed b.refs epoch)
        ++ (when b.index (index_changed epoch)
            ++ (when b.graph (graph_invalidated epoch)
                ++ when (not (is_empty b.worktree)) (worktree_changed b.worktree))))

-- `!head_changed && !index_changed && !refs_changed && !graph_invalidated`
abbrev pub is_quiet : Batch → Bool
is_quiet b = not b.head && not b.index && is_empty b.refs && not b.graph

module _ (h : Host) where
  unfoldable pub report : Batch → Run h → Run h
  unfolding notifications
  report b r =
      if is_quiet b
      then record r {
        events = r.events ++ when (not (is_empty b.worktree)) (worktree_changed b.worktree);
      }
      else let epoch = (r.epoch + 1) % 2 ^ 64 in
        record r {
          epoch = epoch;
          events = r.events ++ notifications b (trim (or_default (h.read_head r.world))) epoch;
        }

  unfoldable pub process_event_batch : FilePath → FilePath → List FileEvent → Run h → Run h
  unfolding report note_batch
  process_event_batch repo_path git_dir events r = report (note_batch git_dir repo_path events) r
