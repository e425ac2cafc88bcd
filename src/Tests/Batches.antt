-- ===== src/Tests/Batches.antt =====
-- Batches of file system events in crates/engine/src/session.rs.
use git_bamboo.Prelude.{Bool, true, false, not, List, [], ◌∷◌, any, ◌≡◌, refl}
use git_bamboo.Prelude.Text.{codes}
use git_bamboo.Session.{FilePath, FileEvent, note_batch, is_quiet, process_event_batch}
use git_bamboo.Session.Epochs.{Reported, process_event_batch-Reported}
use git_bamboo.Session.Relevant.{is_relevant, note_batch-quiet}
use git_bamboo.Tests.Hosts.{host, begun}

abbrev repo_path : FilePath
repo_path = codes "r" ∷ []

abbrev git_dir : FilePath
git_dir = codes "r" ∷ codes ".git" ∷ []

-- a lock file comes and goes, a ref and a file change
abbrev events : List FileEvent
events =
    record {
      is_access = false;
      paths =
          (codes "r" ∷ codes ".git" ∷ codes "index.lock" ∷ [])
          ∷ (codes "r" ∷ codes ".git" ∷ codes "refs" ∷ codes "heads" ∷ codes "main" ∷ [])
          ∷ (codes "r" ∷ codes "a" ∷ [])
          ∷ [];
    }
    ∷ []

noted_run : is_quiet (note_batch git_dir repo_path events) ≡ false
unfolding note_batch git_bamboo.Prelude.Text.eq git_bamboo.Prelude.Text.ends_with
    git_bamboo.Prelude.Text.join git_bamboo.Prelude.Text.starts_with
noted_run = refl

process_event_batch-Reported_example :
    Reported host begun (process_event_batch host repo_path git_dir events begun)
process_event_batch-Reported_example =
    process_event_batch-Reported host repo_path git_dir events begun

note_batch-quiet_example :
    is_quiet (note_batch git_dir repo_path events) ≡ not (any (is_relevant git_dir) events)
note_batch-quiet_example = note_batch-quiet git_dir repo_path events
