-- ===== src/WriteQueue/Queue/Keeping.antt =====
-- About what a round of `run_write_queue` in crates/engine/src/write_queue.rs keeps, up to its reply.
use git_bamboo.Prelude.{ℕ, Result, ok, err, Preserves, Preserves-pure, Preserves-bind}
use git_bamboo.Prelude.Text.{Text}
use git_bamboo.Protocol.{Error}
use git_bamboo.Host.{Host}
use git_bamboo.Undo.Engine.{append_audit_log}
use git_bamboo.Undo.Engine.Counters.{begin-Counts, commit-Counts, audit-Counts, undo-Counts}
use git_bamboo.WriteQueue.Command.{WriteCommand, op_summary, WriteResult}
use git_bamboo.WriteQueue.Git.{caught}
use git_bamboo.WriteQueue.Queue.{execute_and_commit, after_begin, run_write, run_undo, route}
use git_bamboo.WriteQueue.Safety.{Outside, invariant, Invariant, On, caught-Preserves}
use git_bamboo.WriteQueue.Safety.Commands.{discard_changes-Preserves, resolve_conflict-Preserves}
use git_bamboo.WriteQueue.Safety.Argv.{execute_command-Preserves}

module _ (h : Host) (o : Outside) where
  abbrev inv : Invariant
  inv = invariant o

  commit-Keeps :
      (d : Text) (at_epoch : ℕ) (cmd : WriteCommand) (id : ℕ)
      → Preserves (On inv) (execute_and_commit h d at_epoch cmd id)
  unfolding execute_and_commit
  commit-Keeps d at_epoch cmd id =
      Preserves-bind _ _ (caught-Preserves h inv _ (execute_command-Preserves h inv cmd)) λ result.
        Preserves-bind _ _
          (caught-Preserves h inv _ (record { at = (commit-Counts h o id d at_epoch _).at }))
          λ committed. Preserves-pure _

  begun-Keeps :
      (d : Text) (at_epoch : ℕ) (cmd : WriteCommand) (begun : Result Error ℕ)
      → Preserves (On inv) (after_begin h d at_epoch cmd begun)
  unfolding after_begin
  begun-Keeps d at_epoch cmd (err e) = Preserves-pure _
  begun-Keeps d at_epoch cmd (ok id) = commit-Keeps d at_epoch cmd id

  write-Keeps : (cmd : WriteCommand) → Preserves (On inv) (run_write h cmd)
  unfolding run_write
  write-Keeps cmd = record {
    at = λ s q.
        (Preserves-bind {P = On inv} _ _
            (caught-Preserves h inv _
              (record { at = (begin-Counts h o (op_summary cmd) s.epoch).at }))
            (begun-Keeps (op_summary cmd) s.epoch cmd)).at
          s q;
  }

  pub route-Keeps : (cmd : WriteCommand) → Preserves (On inv) (route h cmd)
  unfolding route run_undo
  route-Keeps (WriteCommand.undo id) = record { at = (undo-Counts h o id).at }
  route-Keeps (WriteCommand.discard ps) =
      Preserves-bind _ _ (caught-Preserves h inv _ (discard_changes-Preserves h inv ps))
        λ r. Preserves-pure _
  route-Keeps (WriteCommand.resolve_conflict p k) =
      Preserves-bind _ _ (caught-Preserves h inv _ (resolve_conflict-Preserves h inv p k))
        λ r. Preserves-pure _
  route-Keeps (WriteCommand.fetch remote) =
      Preserves-bind _ _
        (caught-Preserves h inv _ (execute_command-Preserves h inv (WriteCommand.fetch remote)))
        λ r. Preserves-pure _
  route-Keeps cmd = write-Keeps cmd

  pub audit-Keeps :
      (d : Text) (at_epoch : ℕ) (reply : WriteResult) (id : ℕ)
      → Preserves (On inv) (caught (append_audit_log h d at_epoch reply id))
  audit-Keeps d at_epoch reply id =
      caught-Preserves h inv _ (record { at = (audit-Counts h o d at_epoch reply id).at })
