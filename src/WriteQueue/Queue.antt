-- ===== src/WriteQueue/Queue.antt =====
-- `run_write`, `run_undo` and the loop of `run_write_queue` in crates/engine/src/write_queue.rs, with
-- `bump_epoch`, `emit` and the enqueueing calls of crates/engine/src/session.rs. A round of the loop
-- is a function on the session's state: the queue has one consumer, so rounds never overlap.
pub mod Undoable
pub mod Journaled
pub mod Keeping
pub mod Epochs
pub mod Fresh
pub mod Arguments
use git_bamboo.Prelude.{
  ℕ, ◌+◌, ◌%◌, ◌^◌, Bool, true, false, Option, none, some, List, [], ◌∷◌, ◌++◌, if◌then◌else◌, Act,
  pure, fail, ◌>>=◌, ◌>>◌, Result, ok, err, is_ok,
}
use git_bamboo.Prelude.Text.{Text, codes}
use git_bamboo.Protocol.{
  Error, plain, structured, BambooError, git_error, to_string, downcast_or_git_error, Fault, raised,
  panicked,
}
use git_bamboo.Host.{Host, Run, EngineEvent, graph_invalidated}
use git_bamboo.Undo.Engine
use git_bamboo.Undo.Engine.{
  UndoOutcome, restored, noop, UndoError, UndoFault, undo_error, undo_panicked, append_audit_log,
  is_success,
}
use git_bamboo.Undo.Journal.{begin}
use git_bamboo.Undo.Journal
use git_bamboo.WriteQueue.Command.{
  WriteCommand, op_summary, UndoSummary, UndoErrorKind, WriteResult, ok_output, failed, undone,
}
use git_bamboo.WriteQueue.Git.{Git, caught}
use git_bamboo.WriteQueue.Worktree
use git_bamboo.WriteQueue.Worktree.{discard_changes}
use git_bamboo.WriteQueue.Execute.{execute_command}

-- a result for the client, and the transaction it is logged under
abbrev pub Answer : Type 0
Answer = WriteResult × ℕ

pub begin_failure : Error → BambooError
begin_failure e = git_error (codes "undo snapshot failed: " ++ to_string e)

pub journal_failure : Error → BambooError
journal_failure e =
    git_error
      (codes "git operation succeeded but is NOT undoable (journal write failed): " ++ to_string e)

abbrev pub structured_answer : Result Error Text → WriteResult
structured_answer (ok output) = ok_output output
structured_answer (err e) = failed (downcast_or_git_error e)

-- every error as a plain git error
abbrev pub flat_answer : Result Error Text → WriteResult
flat_answer (ok output) = ok_output output
flat_answer (err e) = failed (git_error (to_string e))

-- by the outcome of the commit: a mutation that is not journaled is never reported as a success
unfoldable pub finalize : Result Error Text → Result Error (Unit {0}) → WriteResult
finalize (ok output) (err e) = failed (journal_failure e)
finalize (err e) (err e') = structured_answer (err e)
finalize result (ok u) = structured_answer result

abbrev pub undo_answer : Result UndoFault UndoOutcome → ℕ → Result Fault Answer
undo_answer (ok (restored count)) id =
    ok (undone (ok (record { restored_refs = count; noop = false })), id)
undo_answer (ok noop) id = ok (undone (ok (record { restored_refs = 0; noop = true })), id)
undo_answer (err (undo_error e)) id = ok (undone (err (Engine.kind e)), id)
undo_answer (err undo_panicked) id = err panicked

-- What happens to the session, in order: the queue receives a command, or the watcher's task bumps the
-- epoch. A bump while a round runs adds to the counter as one behind it does; only the epochs that the
-- round's own log entries name can tell the two apart.
pub data Turn : Type 0 where
  command : WriteCommand → Turn
  bumped_elsewhere : Turn

module _ (h : Host) where
  -- with the transaction begun
  unfoldable pub execute_and_commit : Text → ℕ → WriteCommand → ℕ → Git h Answer
  unfolding execute_command Journal.commit finalize
  execute_and_commit desc epoch cmd tx_id = do
    result ← caught (execute_command h cmd)
    committed ← caught (Journal.commit h tx_id desc epoch (is_ok result))
    pure (finalize result committed, tx_id)

  unfoldable pub after_begin : Text → ℕ → WriteCommand → Result Error ℕ → Git h Answer
  unfolding execute_and_commit
  after_begin desc epoch cmd (err e) = pure (failed (begin_failure e), 0)
  after_begin desc epoch cmd (ok tx_id) = execute_and_commit desc epoch cmd tx_id

  -- `run_write`
  unfoldable pub run_write : WriteCommand → Git h Answer
  unfolding begin after_begin op_summary
  run_write cmd r =
      (do
        begun ← caught (begin h (op_summary cmd) r.epoch)
        after_begin (op_summary cmd) r.epoch cmd begun)
        r

  -- `run_undo`; a panic of the blocking task would reach the queue as an error of that task
  unfoldable pub run_undo : ℕ → Git h Answer
  unfolding Engine.undo
  run_undo id r = (undo_answer (Engine.undo h id r).0 id, (Engine.undo h id r).1)

  -- how each command is run, and what is reported of it
  unfoldable pub route : WriteCommand → Git h Answer
  unfolding run_undo discard_changes Worktree.resolve_conflict execute_command run_write
  route (WriteCommand.undo transaction_id) = run_undo transaction_id
  route (WriteCommand.discard paths) = do
    result ← caught (discard_changes h paths)
    pure (flat_answer result, 0)
  route (WriteCommand.resolve_conflict path resolution) = do
    result ← caught (Worktree.resolve_conflict h path resolution)
    pure (structured_answer result, 0)
  route (WriteCommand.fetch remote) = do
    result ← caught (execute_command h (WriteCommand.fetch remote))
    pure (flat_answer result, 0)
  route cmd = run_write cmd

  -- `bump_epoch`: the counter is 64 bits wide
  unfoldable pub bump_epoch : Git h ℕ
  bump_epoch r = let new = (r.epoch + 1) % 2 ^ 64 in (ok new, record r { epoch = new })

  -- `emit`; a closed channel is only logged
  unfoldable pub emit : EngineEvent → Git h (Unit {0})
  emit event r = (ok tt, record r { events = r.events ++ event ∷ [] })

  -- only an undo announces the new epoch itself
  unfoldable pub announce : WriteCommand → ℕ → Git h (Unit {0})
  unfolding emit
  announce (WriteCommand.undo transaction_id) epoch = emit (graph_invalidated epoch)
  announce _ epoch = pure tt

  unfoldable pub after_success : WriteCommand → Bool → Git h (Unit {0})
  unfolding bump_epoch announce
  after_success cmd false = pure tt
  after_success cmd true = do new ← bump_epoch; announce cmd new

  -- one round of `run_write_queue`: the reply to the command
  unfoldable pub round : WriteCommand → Git h WriteResult
  unfolding route append_audit_log after_success op_summary is_success
  round cmd r =
      (do
        answer ← route cmd
        logged ← caught (append_audit_log h (op_summary cmd) r.epoch answer.0 answer.1)
        after_success cmd (is_success answer.0)
        pure answer.0)
        r

  -- with the queue's task gone the watcher's task still bumps the epoch
  unfoldable pub without_queue : List Turn → Run h → Run h
  unfolding bump_epoch
  without_queue [] r = r
  without_queue (command cmd ∷ turns) r = without_queue turns r
  without_queue (bumped_elsewhere ∷ turns) r = without_queue turns (bump_epoch r).1

  -- The loop, over the turns in their order: the replies and the state. A panic ends the task, and no
  -- later command is answered.
  unfoldable pub run_write_queue : List Turn → Run h → List WriteResult × Run h
  unfolding round bump_epoch without_queue
  run_write_queue [] r = ([], r)
  run_write_queue (bumped_elsewhere ∷ turns) r = run_write_queue turns (bump_epoch r).1
  run_write_queue (command cmd ∷ turns) r =
      let later = run_write_queue turns (round cmd r).1 in
      elim (round cmd r).0 [
        | ok reply ↦ (reply ∷ later.0, later.1)
        | err e ↦ ([], without_queue turns (round cmd r).1)
      ]

-- Display of `UndoErrorKind`
unfoldable pub kind_message : UndoErrorKind → Text
kind_message UndoErrorKind.not_found = codes "transaction not found"
kind_message (UndoErrorKind.blocked reason) = codes "undo blocked: " ++ reason
kind_message (UndoErrorKind.failure msg) = msg

-- what `enqueue_write` makes of a reply
unfoldable pub write_reply : WriteResult → Result BambooError Text
unfolding kind_message
write_reply (ok_output output) = ok output
write_reply (failed e) = err e
write_reply (undone (ok summary)) = ok []
write_reply (undone (err kind)) = err (git_error (kind_message kind))

-- what `enqueue_undo` makes of a reply
unfoldable pub undo_reply : WriteResult → Result Error (Result UndoErrorKind UndoSummary)
undo_reply (undone result) = ok result
undo_reply (ok_output output) =
    err (plain (codes "internal error: undo command returned a write result"))
undo_reply (failed e) = err (plain (to_string (structured e)))
