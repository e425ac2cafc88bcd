-- ===== src/Tests/Hosts.antt =====
-- A repository on `main` with one commit and a changed file, in which every call works, as a host.
use git_bamboo.Prelude.{ℕ, ◌+◌, true, none, some, [], ◌∷◌, ok}
use git_bamboo.Prelude.Text.{Text, codes, Debug}
use git_bamboo.Protocol.{pos}
use git_bamboo.Host.{Spawned, finished, file, written, Host, Run}
use git_bamboo.Undo.Disk.{
  Snapshot, Transaction, TransactionFile, entry, blank, missing, whole, UndoState,
}

abbrev pub sha_a : Text
sha_a = codes "aaaaaaaaaaaaaaaaaaaaaaaaaaaaaaaaaaaaaaaa"

abbrev pub sha_b : Text
sha_b = codes "bbbbbbbbbbbbbbbbbbbbbbbbbbbbbbbbbbbbbbbb"

abbrev pub plain_debug : Debug
plain_debug = record { str = λ t. t; chr = λ c. c ∷ [] }

abbrev says : Text → Spawned
says t = finished (record { success = true; stdout = t; stderr = [] })

-- the world counts the calls
abbrev pub host : Host
host = record {
  World = ℕ;
  git = λ argv w. (says (codes " M a"), w + 1);
  git_within = λ argv w. (some (says []), w + 1);
  undo_git = λ argv input w. (says sha_b, w + 1);
  read_head = λ w. ok (codes "ref: refs/heads/main");
  loose_heads = λ w. file (codes "main") (ok sha_a) ∷ [];
  loose_refs = λ w. file (codes "heads/main") (ok sha_a) ∷ [];
  packed_refs = λ w. none;
  disk_write = λ f w. (written, w + 1);
  disk_read = λ f w. none;
  now = λ w. pos w;
  debug = plain_debug;
  to_lowercase = λ t. t;
}

-- what the host reads, and the state with `main` on the other commit
abbrev pub here : Snapshot
here = record {
  head = codes "ref: refs/heads/main";
  refs = (codes "refs/heads/main", sha_a) ∷ [];
  stash_ref = none;
  index_tree = some sha_b;
}

abbrev pub there : Snapshot
there = record {
  head = codes "ref: refs/heads/main";
  refs = (codes "refs/heads/main", sha_b) ∷ [];
  stash_ref = none;
  index_tree = some sha_b;
}

abbrev pub first : Transaction
first = record {
  id = 1;
  timestamp = pos 7;
  description = codes "Commit";
  epoch_at_creation = 3;
  success = true;
}

abbrev pub second : Transaction
second = record {
  id = 2;
  timestamp = pos 9;
  description = codes "CreateBranch";
  epoch_at_creation = 4;
  success = true;
}

abbrev file_of : Transaction → Snapshot → TransactionFile
file_of t s = record {
  meta = record { id = t.id; description = t.description; epoch = t.epoch_at_creation };
  snapshot = s;
}

-- two transactions, out of order in the journal; the later one left the state that the host reads
abbrev pub kept : UndoState
kept = record {
  journal = entry second ∷ blank ∷ entry first ∷ [];
  pre_files = (1, whole (file_of first there)) ∷ (2, whole (file_of second here)) ∷ [];
  post_files = (1, whole (file_of first here)) ∷ (2, whole (file_of second here)) ∷ [];
  marker = missing;
  next_id = 3;
  audit = [];
}

abbrev pub begun : Run host
begun = record { world = 0; trace = []; undo = kept; epoch = 4; events = [] }

-- the same, but the later transaction left another state
abbrev pub outdated : Run host
outdated = record {
  world = 0;
  trace = [];
  undo = record kept { post_files = (2, whole (file_of second there)) ∷ [] };
  epoch = 4;
  events = [];
}
