-- ===== src/WriteQueue/Queue/Arguments.antt =====
-- The argument lists of the whole of `run_write_queue` in crates/engine/src/write_queue.rs.
use git_bamboo.Prelude.{
  Bool, true, false, List, [], ◌∷◌, All, All-append, Result, ok, err, Preserves, Preserves-pure,
  Preserves-bind, pure, ◌>>=◌,
}
use git_bamboo.Protocol.{Fault}
use git_bamboo.Host.{Host, Run}
use git_bamboo.Undo.Engine.{is_success}
use git_bamboo.WriteQueue.Command.{WriteCommand, op_summary, WriteResult}
use git_bamboo.WriteQueue.Queue.{
  Turn, command, bumped_elsewhere, without_queue, after_success, announce, bump_epoch, emit, round,
  run_write_queue,
}
use git_bamboo.WriteQueue.Queue.Keeping.{route-Keeps, audit-Keeps}
use git_bamboo.WriteQueue.Safety.{Outside, IsSafe, Safe}

abbrev arguments : Outside
arguments = record {
  Holds = λ trace epoch events. All IsSafe trace;
  behind = λ argv a s. All-append IsSafe _ (argv ∷ []) s (a, tt);
}

module _ (h : Host) where
  abbrev AllSafe : Run h → Type 0
  AllSafe r = All IsSafe r.trace

  after-Safe : (cmd : WriteCommand) (b : Bool) → Preserves AllSafe (after_success h cmd b)
  unfolding after_success bump_epoch announce emit pure ◌>>=◌
  after-Safe (WriteCommand.undo id) true = record { at = λ s q. q }
  after-Safe cmd true = record { at = λ s q. q }
  after-Safe cmd false = Preserves-pure tt

  round-Safe : (cmd : WriteCommand) → Preserves AllSafe (round h cmd)
  unfolding round
  round-Safe cmd = record {
    at = λ s q.
        (Preserves-bind {P = AllSafe} _ _ (route-Keeps h arguments cmd) λ answer.
            Preserves-bind _ _ (audit-Keeps h arguments (op_summary cmd) s.epoch answer.0 answer.1)
              λ logged.
                Preserves-bind _ _ (after-Safe cmd (is_success answer.0))
                  λ _. Preserves-pure answer.0).at
          s q;
  }

  without-Safe : (turns : List Turn) (r : Run h) → AllSafe r → AllSafe (without_queue h turns r)
  unfolding without_queue bump_epoch
  without-Safe [] r k = k
  without-Safe (command cmd ∷ turns) r k = without-Safe turns r k
  without-Safe (bumped_elsewhere ∷ turns) r k = without-Safe turns _ k

  -- If every argument list run so far is safe, then so is every one that a queue has run at its end,
  -- whatever commands it is sent, however they end, and also if a panic ends the queue: each argument
  -- is an option that the engine itself writes, or does not begin with a dash, or is the message
  -- behind a final `-m`, and behind `--` there are literal pathspecs only.
  pub run_write_queue-Safe :
      (turns : List Turn) (r : Run h) → Safe r → Safe (run_write_queue h turns r).1
  unfolding run_write_queue bump_epoch Safe
  run_write_queue-Safe [] r k = k
  run_write_queue-Safe (bumped_elsewhere ∷ turns) r k = run_write_queue-Safe turns _ k
  run_write_queue-Safe (command cmd ∷ turns) r k =
      go (round h cmd r).0 (round h cmd r).1 (run_write_queue-Safe turns (round h cmd r).1)
        ((round-Safe cmd).at r k)
    where
      go :
          (x : Result Fault WriteResult) (s : Run h)
          → (AllSafe s → AllSafe (run_write_queue h turns s).1)
          → AllSafe s
          → let later = run_write_queue h turns s in
            let end : List WriteResult × Run h = elim x [
              | ok reply ↦ (reply ∷ later.0, later.1)
              | err e ↦ ([], without_queue h turns s)
            ] in
            AllSafe end.1
      go (err f) s later q = without-Safe turns s q
      go (ok reply) s later q = later q
