-- ===== src/Tests/Writes.antt =====
-- Commands of the write queue on the test repository, and its pure parts.
use git_bamboo.Prelude.{
  arith, find, All, ℕ, true, false, Option, none, some, List, [], ◌∷◌, ◌++◌, find, All, ◌≡◌, ◌≢◌,
  ◌↔◌, refl, Result, ok, err,
}
use git_bamboo.Prelude.Text.{Text, codes}
use git_bamboo.Protocol.{panicked, lease}
use git_bamboo.WriteQueue.Command.{WriteCommand, WriteResult, ok_output}
use git_bamboo.WriteQueue.Command
use git_bamboo.WriteQueue.Validate.{validate_stash_ref, validate_pushspec}
use git_bamboo.WriteQueue.Validate.Dashes.{IsStashRef, validate_stash_ref_iff}
use git_bamboo.WriteQueue.Porcelain.{Entry, Classified}
use git_bamboo.WriteQueue.Porcelain.RoundTrip.{Row}
use git_bamboo.WriteQueue.Git.{Git, run_git_checked}
use git_bamboo.WriteQueue.Stash.{stash_pop_argv, set_aside, run_with_auto_stash}
use git_bamboo.WriteQueue.Stash.Bracket.{auto_stash-pops}
use git_bamboo.WriteQueue.Safety.{Safe}
use git_bamboo.Undo.Engine.{start}
use git_bamboo.Undo.Engine.Ids.{HasRoom}
use git_bamboo.Undo.Engine.Fresh.{IsFresh}
use git_bamboo.WriteQueue.Queue.Fresh.{run_write_queue-IsFresh}
use git_bamboo.WriteQueue.Queue.{Turn, command, bumped_elsewhere, run_write_queue}
use git_bamboo.WriteQueue.Queue.Arguments.{run_write_queue-Safe}
use git_bamboo.Tests.Hosts.{plain_debug, host, begun}

abbrev push_main : WriteCommand
push_main = Command.push (codes "origin") (codes "main") lease true

begun-Safe : Safe begun
unfolding Safe
begun-Safe = tt

-- a push, a discard, a bump of the watcher, and an undo of what is not there
abbrev three : List Turn
three =
    command push_main
    ∷ command (Command.discard (codes "a" ∷ []))
    ∷ bumped_elsewhere
    ∷ command (Command.undo 9)
    ∷ []

run_write_queue-Safe_example : Safe (run_write_queue host three begun).1
run_write_queue-Safe_example = run_write_queue-Safe host three begun begun-Safe

starts : (start host begun).0 ≡ ok tt
unfolding start git_bamboo.Prelude.pure
starts = refl

has_room : HasRoom 3 begun.undo
unfolding git_bamboo.Undo.Journal.entries
has_room = ground arith

run_write_queue-IsFresh_example : IsFresh 0 (run_write_queue host three (start host begun).1).1.undo
run_write_queue-IsFresh_example =
    run_write_queue-IsFresh host three begun has_room (omega arith) starts

abbrev pull_plain : Git host Text
pull_plain = run_git_checked host (codes "pull" ∷ []) []

set_aside_stashes : (set_aside host (codes "pull") true begun).0 ≡ ok true
unfolding set_aside git_bamboo.Prelude.◌>>=◌ git_bamboo.Prelude.Text.trim
    git_bamboo.Prelude.Text.is_whitespace git_bamboo.WriteQueue.Git.caught
    git_bamboo.WriteQueue.Stash.check_opt
set_aside_stashes = refl

pull_ends : (pull_plain (set_aside host (codes "pull") true begun).1).0 ≡ ok (codes " M a")
unfolding run_git_checked git_bamboo.Prelude.◌>>=◌
pull_ends = refl

pull_lives : (pull_plain (set_aside host (codes "pull") true begun).1).0 ≢ err panicked
pull_lives e = absurd (cc (pull_ends, e))

auto_stash-pops_example :
    (run_with_auto_stash host (codes "pull") true pull_plain begun).1.trace
    ≡ (run_git_checked host
        (codes "pull" ∷ [])
        []
        (set_aside host (codes "pull") true begun).1).1.trace
      ++ (codes "stash" ∷ codes "pop" ∷ []) ∷ []
unfolding set_aside git_bamboo.Prelude.◌>>=◌ git_bamboo.Prelude.Text.trim
    git_bamboo.Prelude.Text.is_whitespace git_bamboo.WriteQueue.Git.caught
    git_bamboo.WriteQueue.Stash.check_opt
auto_stash-pops_example = auto_stash-pops host (codes "pull") true pull_plain begun refl (λ e. cc e)

abbrev rows : List Row
rows =
    record { x = b'R'; y = b' '; path = codes "new"; source = some (codes "old") }
    ∷ record { x = b'U'; y = b'U'; path = codes "both"; source = none }
    ∷ []

abbrev statuses : List Entry
statuses = (codes " M", codes "a") ∷ (codes "??", codes "b") ∷ (codes " A", codes "c") ∷ []

abbrev classes : Classified
classes = record { tracked = codes "a" ∷ []; untracked = codes "b" ∷ []; intent_to_add = [] }

validate_stash_ref_iff_example :
    (validate_stash_ref plain_debug (codes "stash@{3}") ≡ ok tt) ↔ IsStashRef (codes "stash@{3}")
validate_stash_ref_iff_example = validate_stash_ref_iff plain_debug (codes "stash@{3}")

spec_accepted : validate_pushspec plain_debug (codes "a:b") ≡ ok tt
unfolding validate_pushspec git_bamboo.Prelude.Text.is_whitespace
spec_accepted = refl
