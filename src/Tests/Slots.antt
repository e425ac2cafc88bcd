-- ===== src/Tests/Slots.antt =====
-- The session slot of crates/engine/src/server.rs under concrete schedules.
use git_bamboo.Prelude.{true, false, some, List, [], ◌∷◌, ◌++◌, get_elem?, any, ◌≡◌, refl, arith}
use git_bamboo.Server.Slot.{
  Task, waiting, not_initialized, Event, initialize, request, move, step, run, new,
}
use git_bamboo.Server.Slot.Consistent.{IsConsistent, run-new-IsConsistent}
use git_bamboo.Server.Slot.Starving.{run-starves}
use git_bamboo.Server.Slot.Steps.{is_answered}
use git_bamboo.Server.Slot.Waiting.{is_release, run-answers}

-- a request races the `initialize` of a session, and waits; the session is in the slot
abbrev before_send : List Event
before_send =
    initialize ∷ request ∷ move 1 true ∷ move 1 true ∷ move 0 true ∷ move 0 true ∷ move 0 true ∷ []

-- and then the session is announced
abbrev race : List Event
race = before_send ++ move 0 true ∷ []

race_run : get_elem? (run before_send new).tasks 1 ≡ some waiting
unfolding run
race_run = refl

race_released : is_release (move 0 true) (run before_send new) ≡ true
unfolding run
race_released = refl

run-new-IsConsistent_example : IsConsistent (run race new)
run-new-IsConsistent_example = run-new-IsConsistent race

abbrev three_moves : List Event
three_moves = move 1 true ∷ move 1 true ∷ request ∷ move 1 true ∷ []

run-answers_example :
    (t : Task) × (get_elem? (run three_moves (step (move 0 true) (run before_send new))).tasks 1
      ≡ some t)
    × (is_answered t ≡ true)
run-answers_example =
    run-answers (run before_send new) 1 (move 0 true) three_moves race_run race_released
      (omega arith)

-- an `initialize` of a path that is no repository, and a request
abbrev refusals : List Event
refusals = request ∷ initialize ∷ move 1 false ∷ move 0 false ∷ move 0 false ∷ move 0 false ∷ []

run-starves_example : any is_answered (run refusals new).tasks ≡ false
run-starves_example = run-starves refusals refl

-- An `initialize` whose opening fails while nothing waits releases nothing: a request that comes
-- behind it waits.
abbrev unheard : List Event
unheard =
    initialize
    ∷ move 0 true
    ∷ move 0 false
    ∷ move 0 false
    ∷ request
    ∷ move 1 true
    ∷ move 1 true
    ∷ move 1 true
    ∷ []

unheard_run : get_elem? (run unheard new).tasks 1 ≡ some waiting
unfolding run
unheard_run = refl

-- A second `initialize` clears the slot, and a request that comes meanwhile is turned away at once,
-- since the release of the first, which a request has heard, is never taken back.
abbrev again : List Event
again =
    initialize ∷ request ∷ move 2 true ∷ move 3 true ∷ move 3 true ∷ move 3 true ∷ move 3 true ∷ []

turned_away_run : get_elem? (run again (run race new)).tasks 3 ≡ some not_initialized
unfolding run
turned_away_run = refl
