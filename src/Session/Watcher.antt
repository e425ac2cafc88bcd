-- ===== src/Session/Watcher.antt =====
-- The watcher thread of crates/engine/src/session.rs: how the file system events that arrive are
-- coalesced into batches, each of which is processed as one.
pub mod Batches
use git_bamboo.Prelude.{ℕ, zero, suc, ◌-◌, List, [], ◌∷◌, ◌++◌}
use git_bamboo.Host.{Host, Run}
use git_bamboo.Session.{FilePath, FileEvent, process_event_batch}

abbrev pub max_events_per_batch : ℕ
max_events_per_batch = 4096

-- What the channel gives, in order: an event, an error of the watcher, or no event for as long as the
-- debounce window. The end of the list is the end of the channel.
pub data Signal : Type 0 where
  arrived : FileEvent → Signal
  faulty pause : Signal

-- The inner loop, with the room that is left in the batch: the batch, and what has not been received.
unfoldable pub collect : ℕ → List FileEvent → List Signal → List FileEvent × List Signal
collect zero batch signals = (batch, signals)
collect (suc n) batch [] = (batch, [])
collect (suc n) batch (pause ∷ signals) = (batch, signals)
collect (suc n) batch (faulty ∷ signals) = collect (suc n) batch signals
collect (suc n) batch (arrived e ∷ signals) = collect n (batch ++ e ∷ []) signals

-- The outer loop, with the number of batches until the session is dropped: the batches that are
-- processed, in order, and what is left when it is. Without an event the thread waits, so a
-- pause or an error between two batches changes nothing.
unfoldable pub batches : ℕ → List Signal → List (List FileEvent) × List Signal
unfolding collect
batches n [] = ([], [])
batches n (pause ∷ signals) = batches n signals
batches n (faulty ∷ signals) = batches n signals
batches zero (arrived e ∷ signals) = ([], arrived e ∷ signals)
batches (suc n) (arrived e ∷ signals) =
    let (batch, rest) = collect (max_events_per_batch - 1) (e ∷ []) signals in
    let (later, left) = batches n rest in (batch ∷ later, left)

-- each batch in turn
unfoldable pub process_batches :
    (h : Host) → FilePath → FilePath → List (List FileEvent) → Run h → Run h
unfolding process_event_batch
process_batches h repo_path git_dir [] r = r
process_batches h repo_path git_dir (b ∷ bs) r =
    process_batches h repo_path git_dir bs (process_event_batch h repo_path git_dir b r)

-- the thread, until the session is dropped or the channel ends
unfoldable pub watch : (h : Host) → FilePath → FilePath → ℕ → List Signal → Run h → Run h
unfolding batches process_batches
watch h repo_path git_dir n signals r = process_batches h repo_path git_dir (batches n signals).0 r
