-- ===== src/WriteQueue/Queue/Epochs.antt =====
-- About the epoch and the events of a round of `run_write_queue` in crates/engine/src/write_queue.rs.
use git_bamboo.Prelude.{
  ℕ, ◌+◌, ◌%◌, ◌^◌, Bool, true, false, List, [], ◌∷◌, ◌++◌, ◌≡◌, Result, ok, err, ◌>>◌,
}
use git_bamboo.Protocol.{Fault}
use git_bamboo.Host.{Host, Run, EngineEvent, graph_invalidated}
use git_bamboo.Undo.Engine.{is_success}
use git_bamboo.WriteQueue.Command.{WriteCommand, WriteResult}
use git_bamboo.WriteQueue.Git.{Git}
use git_bamboo.WriteQueue.Queue.{Turn, command, bumped_elsewhere}
use git_bamboo.WriteQueue.Safety.{Outside, invariant, Invariant}

-- the epoch and the events are these
abbrev Still : ℕ → List EngineEvent → Outside
Still epoch events = record {
  Holds = λ trace e es. (e ≡ epoch) × (es ≡ events);
  behind = λ argv a q. q;
}

-- the epoch behind a success, or behind no success
abbrev pub epoch_after : Bool → ℕ → ℕ
epoch_after true epoch = (epoch + 1) % 2 ^ 64
epoch_after false epoch = epoch

-- the events behind a success, or behind no success, of a command
abbrev pub events_after : WriteCommand → Bool → ℕ → List EngineEvent → List EngineEvent
events_after (WriteCommand.undo id) true epoch events =
    events ++ graph_invalidated (epoch_after true epoch) ∷ []
events_after cmd b epoch events = events

-- The epoch and the events behind a round that began with these, by the reply; without a reply they
-- are as they were.
abbrev pub IsBumped :
    {h : Host} → WriteCommand → ℕ → List EngineEvent → Result Fault WriteResult → Run h → Type 0
IsBumped cmd epoch events (ok reply) s =
    (s.epoch ≡ epoch_after (is_success reply) epoch)
    × (s.events ≡ events_after cmd (is_success reply) epoch events)
IsBumped cmd epoch events (err f) s = (s.epoch ≡ epoch) × (s.events ≡ events)

module _ (h : Host) (epoch : ℕ) (events : List EngineEvent) where
  abbrev inv : Invariant
  inv = invariant (Still epoch events)

abbrev bumps : Bool → ℕ
bumps true = 1
bumps false = 0

-- how many of the replies are successes
unfoldable pub successes : List WriteResult → ℕ
unfolding is_success
successes [] = 0
successes (reply ∷ replies) = bumps (is_success reply) + successes replies

-- how often the watcher bumps the epoch
unfoldable pub elsewhere : List Turn → ℕ
elsewhere [] = 0
elsewhere (command cmd ∷ turns) = elsewhere turns
elsewhere (bumped_elsewhere ∷ turns) = 1 + elsewhere turns
