-- ===== src/Tests/Openings.antt =====
-- Opening a session, and the batches of its watcher, at concrete inputs.
use git_bamboo.Prelude.{
  ℕ, ◌≤◌, ◌-◌, ◌+◌, Bool, true, false, Option, some, List, [], ◌∷◌, ◌++◌, length, All, Result, ok,
  err, Act, ◌==◌, if◌then◌else◌, ◌≡◌, ◌≢◌,
}
use git_bamboo.Prelude.Text.{Text, codes}
use git_bamboo.Protocol.{Error}
use git_bamboo.Cache.{epoch_key, fingerprint_key}
use git_bamboo.Cache.Opening.{Directory}
use git_bamboo.Gitdir.{Surroundings}
use git_bamboo.Session.{FilePath, FileEvent}
use git_bamboo.Session.Open.{Opening, Session}
use git_bamboo.Session.Watcher.{Signal, arrived, faulty, pause, batches}
use git_bamboo.Session.Watcher.Batches.{events_of, concat, IsBatch, batches-Coalesced}
use git_bamboo.Tests.Hosts.{host, begun}
use git_bamboo.Tests.Stores.{Tables, memory}

-- one commit was made between the worlds 0 and 1
abbrev git_says : List Text → Bool → Text
git_says (a ∷ b ∷ []) moved = if moved then codes "bb" else codes "aa"
git_says argv moved = if moved then codes "refs/heads/main bb" else codes "refs/heads/main aa"

abbrev town : Surroundings
town = record {
  World = Bool;
  git_output =
      λ argv w. (some (record { success = true; stdout = git_says argv w; stderr = [] }), w);
  path_of = λ t. t ∷ [];
  is_dir = λ path w. false;
}

abbrev left_behind : Tables
left_behind = record {
  metas = [];
  lanes = (codes "a", 5) ∷ [];
  epochs = (epoch_key, 3) ∷ [];
  fingerprints = (fingerprint_key, codes "aa\nrefs/heads/main aa") ∷ [];
}

abbrev folder : Directory memory
folder = record {
  Disk = Tables;
  create_dir_all = λ d. (ok tt, d);
  create = λ d. (ok d, d);
  db_path = codes "cache";
  show_last = λ e. [];
}

abbrev at_door : Opening town memory folder host
at_door = record { around = true; disk = left_behind; run = begun }

abbrev gix_works : Act Bool Error (Unit {0})
gix_works w = (ok tt, w)

abbrev repo : FilePath
repo = codes "r" ∷ []

abbrev opened : Session memory host
opened = record {
  git_dir = codes "r" ∷ codes ".git" ∷ [];
  cache = record {
    metas = [];
    lanes = [];
    epochs = (epoch_key, 4) ∷ (epoch_key, 3) ∷ [];
    fingerprints =
        (fingerprint_key, codes "bb\nrefs/heads/main bb")
        ∷ (fingerprint_key, codes "aa\nrefs/heads/main aa")
        ∷ [];
  };
  run = record begun { undo = record begun.undo { next_id = 3 }; epoch = 4; events = [] };
}

abbrev touch : FileEvent
touch = record { is_access = false; paths = (codes "r" ∷ codes "a" ∷ []) ∷ [] }

abbrev signals : List Signal
signals = arrived touch ∷ faulty ∷ arrived touch ∷ pause ∷ pause ∷ arrived touch ∷ []

batches-Coalesced_example :
    (concat (batches 1 signals).0 ++ events_of (batches 1 signals).1 ≡ events_of signals)
    × All IsBatch (batches 1 signals).0
    × (length (events_of (batches 1 signals).1) ≤ 2)
batches-Coalesced_example = batches-Coalesced 1 signals
