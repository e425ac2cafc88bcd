-- ===== src/WriteQueue/Queue/Journaled.antt =====
-- About a round of `run_write_queue` in crates/engine/src/write_queue.rs and the journal.
use git_bamboo.Prelude.{
  ℕ, Bool, true, false, ◌≡◌, refl, ◌∙◌, Result, ok, err, Act, pure, ◌>>=◌, ◌>>◌, Post, Post-bind,
  Post-pure,
}
use git_bamboo.Prelude.Text.{Text}
use git_bamboo.Protocol.{Fault, raised, panicked}
use git_bamboo.Host.{Host, Run}
use git_bamboo.Undo.Engine.{append_audit_log, is_success}
use git_bamboo.WriteQueue.Command.{WriteCommand, op_summary, WriteResult, ok_output, failed, undone}
use git_bamboo.WriteQueue.Git.{caught, handle}
use git_bamboo.WriteQueue.Queue.{Answer, route, run_write, announce, after_success, round}
use git_bamboo.WriteQueue.Queue.Undoable.{IsJournaled, IsUndoable, run_write-IsUndoable}

-- the commands that run in a transaction
abbrev pub is_journaled : WriteCommand → Bool
is_journaled (WriteCommand.undo id) = false
is_journaled (WriteCommand.discard paths) = false
is_journaled (WriteCommand.resolve_conflict path resolution) = false
is_journaled (WriteCommand.fetch remote) = false
is_journaled _ = true

-- a reply of success is about a command that is in the journal as one
abbrev pub IsKept : {h : Host} → Result Fault WriteResult → Run h → Type 0
IsKept (ok (ok_output output)) s = (id : ℕ) × IsJournaled id true s
IsKept (ok (failed e)) s = Unit
IsKept (ok (undone e)) s = ⊥
IsKept (err f) s = Unit

module _ (h : Host) where
  IsUndoable-same :
      (x : Result Fault Answer) (s s' : Run h)
      → s'.undo.journal ≡ s.undo.journal
      → IsUndoable x s
      → IsUndoable x s'
  IsUndoable-same (ok (ok_output output, id)) s s' e q = record {
    tx = q.tx;
    before = q.before;
    id_is = q.id_is;
    success_is = q.success_is;
    appended = e ∙ q.appended;
  }
  IsUndoable-same (ok (failed x, id)) s s' e q = tt
  IsUndoable-same (ok (undone x, id)) s s' e q = q
  IsUndoable-same (err f) s s' e q = tt

  IsUndoable-IsKept :
      (reply : WriteResult) (id : ℕ) (s : Run h)
      → IsUndoable (ok (reply, id)) s
      → IsKept (ok reply) s
  IsUndoable-IsKept (ok_output output) id s q = (id, q)
  IsUndoable-IsKept (failed e) id s q = tt
  IsUndoable-IsKept (undone e) id s q = q

  route-run_write : (cmd : WriteCommand) → is_journaled cmd ≡ true → route h cmd ≡ run_write h cmd
  unfolding route
  route-run_write (WriteCommand.undo id) e = cc
  route-run_write (WriteCommand.discard paths) e = cc
  route-run_write (WriteCommand.resolve_conflict path resolution) e = cc
  route-run_write (WriteCommand.fetch remote) e = cc
  route-run_write cmd e = refl

  -- the journal stays
  handle-journal :
      {A : Type 0} (x : Result Fault A) (s : Run h) → (handle x s).1.undo.journal ≡ s.undo.journal
  handle-journal (ok a) s = refl
  handle-journal (err (raised e)) s = refl
  handle-journal (err panicked) s = refl

  audit-journal :
      (operation : Text) (epoch : ℕ) (reply : WriteResult) (id : ℕ) (s : Run h)
      → (caught (append_audit_log h operation epoch reply id) s).1.undo.journal ≡ s.undo.journal
  unfolding caught append_audit_log
  audit-journal operation epoch reply id s = handle-journal _ _

  announce-journal :
      (cmd : WriteCommand) (epoch : ℕ) (s : Run h)
      → (announce h cmd epoch s).1.undo.journal ≡ s.undo.journal
  unfolding announce pure
  announce-journal (WriteCommand.undo id) epoch s = refl
  announce-journal cmd epoch s = refl

  after_success-journal :
      (cmd : WriteCommand) (b : Bool) (s : Run h)
      → (after_success h cmd b s).1.undo.journal ≡ s.undo.journal
  unfolding after_success pure ◌>>=◌
  after_success-journal cmd false s = refl
  after_success-journal cmd true s = announce-journal cmd _ _

  keeping :
      {E A : Type 0} (answer : Answer) (m : Act (Run h) E A)
      → ((s : Run h) → (m s).1.undo.journal ≡ s.undo.journal)
      → Post (IsUndoable (ok answer)) m (λ x s. IsUndoable (ok answer) s)
  keeping answer m k = record { at = λ s q. IsUndoable-same (ok answer) s (m s).1 (k s) q }

  route-IsUndoable :
      (cmd : WriteCommand) → is_journaled cmd ≡ true → Post (λ s. Unit) (route h cmd) IsUndoable
  route-IsUndoable cmd e =
      rw (route-run_write cmd e) (record { at = λ s p. run_write-IsUndoable h cmd s })

  behind_route :
      (cmd : WriteCommand) (epoch : ℕ) (answer : Answer)
      → Post
          (IsUndoable (ok answer))
          (do
            logged ← caught (append_audit_log h (op_summary cmd) epoch answer.0 answer.1)
            after_success h cmd (is_success answer.0)
            pure answer.0)
          IsKept
  behind_route cmd epoch answer =
      let log = caught (append_audit_log h (op_summary cmd) epoch answer.0 answer.1) in
      Post-bind {R = IsKept} log _
        (keeping answer log (audit-journal (op_summary cmd) epoch answer.0 answer.1))
        (λ logged.
          Post-bind {R = IsKept} (after_success h cmd (is_success answer.0)) _
            (keeping answer (after_success h cmd (is_success answer.0))
              (after_success-journal cmd (is_success answer.0)))
            (λ u. Post-pure answer.0 (λ s q. IsUndoable-IsKept answer.0 answer.1 s q))
            (λ f s q. tt))
        (λ f s q. tt)

  -- If a round answers a command that runs in a transaction with its output, then the journal ends
  -- in a line of a transaction that is marked as a success; it never answers it as an undo.
  pub round-IsKept :
      (cmd : WriteCommand) (r : Run h)
      → is_journaled cmd ≡ true
      → IsKept (round h cmd r).0 (round h cmd r).1
  unfolding round
  round-IsKept cmd r e =
      (Post-bind {R = IsKept} (route h cmd) _ (route-IsUndoable cmd e) (behind_route cmd r.epoch)
          (λ f s q. tt)).at
        r tt
