-- ===== src/WriteQueue/Queue/Fresh.antt =====
-- The transaction ids through `run_write_queue` of crates/engine/src/write_queue.rs.
use git_bamboo.Undo.Disk.{UndoState}
use git_bamboo.Undo.Engine.Ids.{HasRoom}
use git_bamboo.Prelude.{
  arith, ◌+◌, ◌^◌, ◌≤◌, ◌<◌, ◌>>◌, List, [], ◌∷◌, ℕ, Bool, true, false, ◌≡◌, Result, ok, err,
  Preserves, Preserves-pure, Preserves-bind, pure, ◌>>=◌, Post, Post-bind, Post-pure,
}
use git_bamboo.Prelude.Text.{Text}
use git_bamboo.Protocol.{Error, Fault, raised, panicked}
use git_bamboo.Host.{Host, Run}
use git_bamboo.Undo.Journal.{begin}
use git_bamboo.Undo.Engine.{is_success, append_audit_log}
use git_bamboo.Undo.Engine.{start}
use git_bamboo.Undo.Engine.Fresh.Start.{IsStarted, start-IsStarted}
use git_bamboo.Undo.Engine.Fresh.{IsFresh, IsBegun}
use git_bamboo.Undo.Engine.Fresh.Steps.{Begun, begin-Begun, commit-IsBegun, undo-IsFresh}
use git_bamboo.WriteQueue.Command.{WriteCommand, op_summary, WriteResult}
use git_bamboo.WriteQueue.Git.{Git, caught, handle}
use git_bamboo.WriteQueue.Queue.{
  Answer, Turn, command, bumped_elsewhere, without_queue, run_write_queue, execute_and_commit,
  after_begin, run_write, run_undo, route, after_success, announce, bump_epoch, emit, round,
}
use git_bamboo.WriteQueue.Safety.{Invariant, On, caught-Preserves}
use git_bamboo.WriteQueue.Safety.Commands.{discard_changes-Preserves, resolve_conflict-Preserves}
use git_bamboo.WriteQueue.Safety.Argv.{execute_command-Preserves}

abbrev Fresh : ℕ → Invariant
Fresh room = record { Holds = λ trace u epoch events. IsFresh room u; behind = λ argv a q. q }

abbrev Started : ℕ → ℕ → Invariant
Started room id = record {
  Holds = λ trace u epoch events. IsBegun room id u;
  behind = λ argv a q. q;
}

less_room : (m n : ℕ) (u : UndoState) → n ≤ m → IsFresh m u → IsFresh n u
less_room m n u k q = (q.0, q.1, q.2, omega (arith, q.3))

-- how many commands there are
abbrev pub commands : List Turn → ℕ
commands [] = 0
commands (command cmd ∷ turns) = 1 + commands turns
commands (bumped_elsewhere ∷ turns) = commands turns

module _ (h : Host) (room : ℕ) where
  -- a beginning that failed, as a value
  abbrev CaughtBegun : Result Fault (Result Error ℕ) → Run h → Type 0
  CaughtBegun (ok (ok id)) s = IsBegun room id s.undo
  CaughtBegun (ok (err e)) s = IsFresh room s.undo
  CaughtBegun (err f) s = IsFresh room s.undo

  handle-Begun :
      (x : Result Fault ℕ) (s : Run h)
      → Begun h room x s
      → CaughtBegun (handle x s).0 (handle x s).1
  handle-Begun (ok id) s q = q
  handle-Begun (err (raised e)) s q = q
  handle-Begun (err panicked) s q = q

  begin-CaughtBegun :
      (d : Text) (epoch : ℕ) → Post (On (Fresh (room + 1))) (caught (begin h d epoch)) CaughtBegun
  unfolding caught
  begin-CaughtBegun d epoch = record {
    at = λ s q.
        handle-Begun (begin h d epoch s).0 (begin h d epoch s).1
          ((begin-Begun h room d epoch).at s q);
  }

  commit-Started :
      (d : Text) (epoch : ℕ) (cmd : WriteCommand) (id : ℕ)
      → Preserves (On (Started room id)) (execute_and_commit h d epoch cmd id)
  unfolding execute_and_commit
  commit-Started d epoch cmd id =
      let inv = Started room id in
      Preserves-bind _ _ (caught-Preserves h inv _ (execute_command-Preserves h inv cmd)) λ result.
        Preserves-bind _ _
          (caught-Preserves h inv _ (record { at = (commit-IsBegun h room id d epoch _).at }))
          λ committed. Preserves-pure _

  begun-IsFresh :
      (d : Text) (epoch : ℕ) (cmd : WriteCommand) (begun : Result Error ℕ)
      → Post (CaughtBegun (ok begun)) (after_begin h d epoch cmd begun) (λ x. On (Fresh room))
  unfolding after_begin
  begun-IsFresh d epoch cmd (err e) = Post-pure _ λ s q. q
  begun-IsFresh d epoch cmd (ok id) = record {
    at = λ s q. ((commit-Started d epoch cmd id).at s q).0;
  }

  write-IsFresh :
      (cmd : WriteCommand) → Post (On (Fresh (room + 1))) (run_write h cmd) (λ x. On (Fresh room))
  unfolding run_write
  write-IsFresh cmd = record {
    at = λ s q.
        (Post-bind {Q = CaughtBegun} {R = λ x. On (Fresh room)} _ _
            (begin-CaughtBegun (op_summary cmd) s.epoch)
            (begun-IsFresh (op_summary cmd) s.epoch cmd) (λ e s q. q)).at
          s q;
  }

  spare :
      {A : Type 0} (m : Git h A)
      → Preserves (On (Fresh (room + 1))) m
      → Post (On (Fresh (room + 1))) m (λ x. On (Fresh room))
  spare m k = record { at = λ s q. less_room (room + 1) room (m s).1.undo (omega arith) (k.at s q) }

  route-IsFresh :
      (cmd : WriteCommand) → Post (On (Fresh (room + 1))) (route h cmd) (λ x. On (Fresh room))
  unfolding route run_undo
  route-IsFresh (WriteCommand.undo id) = record {
    at = (spare (run_undo h id) (record { at = (undo-IsFresh h (room + 1) id).at })).at;
  }
  route-IsFresh (WriteCommand.discard ps) =
      let inv = Fresh (room + 1) in
      spare _ (
        Preserves-bind _ _ (caught-Preserves h inv _ (discard_changes-Preserves h inv ps))
          λ r. Preserves-pure _)
  route-IsFresh (WriteCommand.resolve_conflict p k) =
      let inv = Fresh (room + 1) in
      spare _ (
        Preserves-bind _ _ (caught-Preserves h inv _ (resolve_conflict-Preserves h inv p k))
          λ r. Preserves-pure _)
  route-IsFresh (WriteCommand.fetch remote) =
      let inv = Fresh (room + 1) in
      spare _ (
        Preserves-bind _ _
          (caught-Preserves h inv _ (execute_command-Preserves h inv (WriteCommand.fetch remote)))
          λ r. Preserves-pure _)
  route-IsFresh cmd = write-IsFresh cmd

  audit-IsFresh :
      (d : Text) (epoch : ℕ) (reply : WriteResult) (id : ℕ)
      → Preserves (On (Fresh room)) (append_audit_log h d epoch reply id)
  unfolding append_audit_log
  audit-IsFresh d epoch reply id = record { at = λ s q. q }

  after-IsFresh :
      (cmd : WriteCommand) (b : Bool) → Preserves (On (Fresh room)) (after_success h cmd b)
  unfolding after_success bump_epoch announce emit pure ◌>>=◌
  after-IsFresh (WriteCommand.undo id) true = record { at = λ s q. q }
  after-IsFresh cmd true = record { at = λ s q. q }
  after-IsFresh cmd false = Preserves-pure tt

  behind_route :
      (cmd : WriteCommand) (epoch : ℕ) (answer : Answer)
      → Preserves (On (Fresh room)) (do
        logged ← caught (append_audit_log h (op_summary cmd) epoch answer.0 answer.1)
        after_success h cmd (is_success answer.0)
        pure answer.0)
  behind_route cmd epoch answer =
      Preserves-bind _ _
        (caught-Preserves h (Fresh room) _ (audit-IsFresh (op_summary cmd) epoch answer.0 answer.1))
        λ logged.
          Preserves-bind _ _ (after-IsFresh cmd (is_success answer.0)) λ _. Preserves-pure answer.0

  round-IsFresh :
      (cmd : WriteCommand) → Post (On (Fresh (room + 1))) (round h cmd) (λ x. On (Fresh room))
  unfolding round
  round-IsFresh cmd = record {
    at = λ s q.
        (Post-bind {Q = λ x. On (Fresh room)} {R = λ x. On (Fresh room)} _ _ (route-IsFresh cmd)
            (λ answer. record { at = (behind_route cmd s.epoch answer).at }) (λ e s q. q)).at
          s q;
  }

module _ (h : Host) where
  without-IsFresh :
      (turns : List Turn) (r : Run h)
      → IsFresh (commands turns) r.undo
      → IsFresh 0 (without_queue h turns r).undo
  unfolding without_queue bump_epoch
  without-IsFresh [] r k = k
  without-IsFresh (command cmd ∷ turns) r k =
      without-IsFresh turns r
        (less_room (1 + commands turns) (commands turns) r.undo (omega arith) k)
  without-IsFresh (bumped_elsewhere ∷ turns) r k = without-IsFresh turns _ k

  queue-IsFresh :
      (turns : List Turn) (r : Run h)
      → IsFresh (commands turns) r.undo
      → IsFresh 0 (run_write_queue h turns r).1.undo
  unfolding run_write_queue bump_epoch
  queue-IsFresh [] r q = q
  queue-IsFresh (bumped_elsewhere ∷ turns) r q = queue-IsFresh turns _ q
  queue-IsFresh (command cmd ∷ turns) r q =
      go (round h cmd r).0 (round h cmd r).1 (queue-IsFresh turns (round h cmd r).1) (
        (round-IsFresh h (commands turns) cmd).at r
          (less_room (1 + commands turns) (commands turns + 1) r.undo (omega arith) q))
    where
      go :
          (x : Result Fault WriteResult) (s : Run h)
          → (IsFresh (commands turns) s.undo → IsFresh 0 (run_write_queue h turns s).1.undo)
          → IsFresh (commands turns) s.undo
          → let later = run_write_queue h turns s in
            let end : List WriteResult × Run h = elim x [
              | ok reply ↦ (reply ∷ later.0, later.1)
              | err e ↦ ([], without_queue h turns s)
            ] in
            IsFresh 0 end.1.undo
      go (err f) s later k = without-IsFresh turns s k
      go (ok reply) s later k = later k

  -- If an engine starts, with any recovery, over files of the undo directory whose ids leave room for
  -- as many as there are commands before the counter wraps at 2 ^ 64, then behind the queue of these
  -- commands, however they end, the id of the next transaction is larger than that of every
  -- transaction in the journal and of every snapshot file, and has not wrapped.
  pub run_write_queue-IsFresh :
      (turns : List Turn) (r : Run h)
      → HasRoom (commands turns) r.undo
      → 1 + commands turns < 2 ^ 64
      → (start h r).0 ≡ ok tt
      → IsFresh 0 (run_write_queue h turns (start h r).1).1.undo
  run_write_queue-IsFresh turns r v k e = queue-IsFresh turns (start h r).1 (rw e at started_at)
    where
      started_at : IsStarted (commands turns) (start h r).0 (start h r).1
      started_at = start-IsStarted h (commands turns) r v k
