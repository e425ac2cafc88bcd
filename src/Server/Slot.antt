-- ===== src/Server/Slot.antt =====
-- The session slot of crates/engine/src/server.rs. Every request is handled in a task of its own, so
-- `handle_initialize` and `get_any_session` are cut at their locks, sends and waits: what stands
-- between two of these is one step of the task, and a schedule says whose step is next.
pub mod Steps
pub mod Consistent
pub mod Waiting
pub mod Starving
use git_bamboo.Prelude.{
  ℕ, zero, suc, ◌+◌, Bool, true, false, ◌||◌, any, Option, none, some, List, [], ◌∷◌, ◌++◌,
  get_elem?, set, if◌then◌else◌,
}

-- A session is the number of the `Session::open` that gave it. `next` counts these.
pub record Slot : Type 0 where
  pub session : Option ℕ
  pub ready : Bool
  pub next : ℕ

-- How far the task of a message is.
pub data Task : Type 0 where
  -- `initialize`: before its checks; in `Session::open`, with the slot cleared; with a session; with
  -- the session in the slot; with an error of `Session::open`
  arriving opening : Task
  opened published : ℕ → Task
  failing : Task
  -- and its ends: an error of the checks, the result, an error of the opening
  refused : Task
  initialized : ℕ → Task
  open_failed : Task
  -- a request that needs a session: before it looks into the slot; with nothing found there, before
  -- it subscribes; in the loop that waits; behind it; and its ends
  asking missed waiting released : Task
  served : ℕ → Task
  not_initialized : Task

-- `self.session.lock().await.clone()` and what follows
abbrev pub first_look : Option ℕ → Task
first_look (some n) = served n
first_look none = missed

abbrev pub second_look : Option ℕ → Task
second_look (some n) = served n
second_look none = not_initialized

abbrev pub look_at_ready : Bool → Task
look_at_ready true = released
look_at_ready false = waiting

-- a task that has a receiver of the watch channel, from `subscribe` to the end of `get_any_session`
abbrev pub is_listening : Task → Bool
is_listening waiting = true
is_listening released = true
is_listening _ = false

-- `session_ready_tx.send(true)`: `watch::Sender::send` stores nothing if there is no receiver, and
-- the one that the channel was made with is dropped at once.
abbrev pub send : (heard : Bool) → Slot → Slot
send heard c = record c { ready = c.ready || heard }

-- One step of a task; `good` is the result of the checks, and of `Session::open`, and `heard` says
-- whether the channel has a receiver. A task that has come to its end stays there.
unfoldable pub advance : (good heard : Bool) → Slot → Task → Slot × Task
advance good heard c arriving =
    if good then (record c { session = none }, opening) else (c, refused)
advance good heard c opening =
    if good then (record c { next = c.next + 1 }, opened c.next) else (c, failing)
advance good heard c (opened n) = (record c { session = some n }, published n)
advance good heard c (published n) = (send heard c, initialized n)
advance good heard c failing = (send heard c, open_failed)
advance good heard c asking = (c, first_look c.session)
advance good heard c missed = (c, waiting)
advance good heard c waiting = (c, look_at_ready c.ready)
advance good heard c released = (c, second_look c.session)
advance good heard c task = (c, task)

-- `stopping` says that the serve loop has ended.
pub record Server : Type 0 where
  pub slot : Slot
  pub stopping : Bool
  pub tasks : List Task

-- A message arrives, a task makes a step, or the serve loop ends and releases those that wait.
pub data Event : Type 0 where
  initialize request : Event
  move : ℕ → (good : Bool) → Event
  stop : Event

abbrev pub move_task : ℕ → Bool → Server → Option Task → Server
unfolding advance
move_task i good s none = s
move_task i good s (some t) = record s {
  slot = (advance good (any is_listening s.tasks) s.slot t).0;
  tasks = set s.tasks i (advance good (any is_listening s.tasks) s.slot t).1;
}

unfoldable pub step : Event → Server → Server
unfolding move_task
step initialize s = record s { tasks = s.tasks ++ arriving ∷ [] }
step request s = record s { tasks = s.tasks ++ asking ∷ [] }
step (move i good) s = move_task i good s (get_elem? s.tasks i)
step stop s = record s { stopping = true; slot = send (any is_listening s.tasks) s.slot }

unfoldable pub run : List Event → Server → Server
unfolding step
run [] s = s
run (e ∷ es) s = run es (step e s)

-- `BambooServer::new`
abbrev pub new : Server
new = record {
  slot = record { session = none; ready = false; next = 0 };
  stopping = false;
  tasks = [];
}
