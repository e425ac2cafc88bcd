-- ===== src/WriteQueue/Queue/Undoable.antt =====
-- What `run_write` of crates/engine/src/write_queue.rs reports as a success can be undone.
use git_bamboo.Prelude.{
  ℕ, Bool, true, List, ◌≡◌, refl, Result, ok, err, is_ok, Act, Post, Post-bind, Post-pure,
}
use git_bamboo.Prelude.Text.{Text}
use git_bamboo.Protocol.{Error, Fault, raised, panicked}
use git_bamboo.Host.{DiskOutcome, written, refused, cut_short, Host, Run}
use git_bamboo.Undo.Disk.{Transaction, Line, entry, unfinished, post, journal_file}
use git_bamboo.Undo.Snapshots.{read_snapshot}
use git_bamboo.Undo.Journal.{
  append_line, settle, write_snapshot, append_entry, replace_journal, begin,
}
use git_bamboo.Undo.Journal
use git_bamboo.WriteQueue.Command.{WriteCommand, op_summary, ok_output, failed, undone}
use git_bamboo.WriteQueue.Git.{Git, caught, handle}
use git_bamboo.WriteQueue.Execute.{execute_command}
use git_bamboo.WriteQueue.Queue.{Answer, finalize, execute_and_commit, after_begin, run_write}

-- the journal is one to which the transaction `id` was appended, with this mark of success
pub record IsJournaled {h : Host} (id : ℕ) (success : Bool) (s : Run h) : Type 0 where
  pub tx : Transaction
  pub before : List Line
  pub id_is : tx.id ≡ id
  pub success_is : tx.success ≡ success
  pub appended : s.undo.journal ≡ append_line (entry tx) before

abbrev WhenOk : {h : Host} {E A : Type 0} → (Run h → Type 0) → Result E A → Run h → Type 0
WhenOk P (ok a) s = P s
WhenOk P (err e) s = Unit

abbrev WhenCaught :
    {h : Host} {A : Type 0} → (Run h → Type 0) → Result Fault (Result Error A) → Run h → Type 0
WhenCaught P (ok x) s = WhenOk P x s
WhenCaught P (err e) s = Unit

-- an answer of success names a transaction that is in the journal as a success, and no answer is
-- that of an undo
abbrev pub IsUndoable : {h : Host} → Result Fault Answer → Run h → Type 0
IsUndoable (ok (ok_output output, id)) s = IsJournaled id true s
IsUndoable (ok (failed e, id)) s = Unit
IsUndoable (ok (undone e, id)) s = ⊥
IsUndoable (err f) s = Unit

module _ (h : Host) where
  settle-IsJournaled :
      (o : DiskOutcome) (s : Run h) (w : h.World) (tx : Transaction)
      → let x =
          settle o s.undo.journal
            (append_line (entry tx) s.undo.journal)
            (append_line unfinished s.undo.journal) in
        WhenOk
          (IsJournaled tx.id tx.success)
          x.0
          (record s { world = w; undo = record s.undo { journal = x.1 } })
  settle-IsJournaled written s w tx = record {
    tx = tx;
    before = s.undo.journal;
    id_is = refl;
    success_is = refl;
    appended = refl;
  }
  settle-IsJournaled (refused f) s w tx = tt
  settle-IsJournaled (cut_short f) s w tx = tt

  anything : {E A : Type 0} (P : Run h → Type 0) (m : Act (Run h) E A) → Post P m (λ x s. Unit)
  anything P m = record { at = λ s p. tt }

  commit-IsJournaled :
      (id : ℕ) (d : Text) (epoch : ℕ) (success : Bool)
      → Post (λ s. Unit) (Journal.commit h id d epoch success) (WhenOk (IsJournaled id success))
  unfolding Journal.commit append_entry replace_journal
  commit-IsJournaled id d epoch success =
      Post-bind _ _ (anything _ (read_snapshot h))
        (λ snapshot.
          Post-bind _ _ (anything _ (write_snapshot h post id _))
            (λ u. record {
              at = λ s p.
                  settle-IsJournaled (h.disk_write journal_file s.world).0 s
                    (h.disk_write journal_file s.world).1 _;
            })
            (λ e s q. tt))
        (λ e s q. tt)

  handle-WhenCaught :
      {A : Type 0} (P : Run h → Type 0) (x : Result Fault A) (s : Run h)
      → WhenOk P x s
      → WhenCaught P (handle x s).0 (handle x s).1
  handle-WhenCaught P (ok a) s q = q
  handle-WhenCaught P (err (raised e)) s q = tt
  handle-WhenCaught P (err panicked) s q = tt

  caught-WhenCaught :
      {A : Type 0} {P Q : Run h → Type 0} (m : Git h A)
      → Post P m (WhenOk Q)
      → Post P (caught m) (WhenCaught Q)
  unfolding caught
  caught-WhenCaught {Q} m v = record { at = λ s p. handle-WhenCaught Q (m s).0 (m s).1 (v.at s p) }

  finalize-IsUndoable :
      (id : ℕ) (result : Result Error Text) (committed : Result Error (Unit {0})) (s : Run h)
      → WhenOk (IsJournaled id (is_ok result)) committed s
      → IsUndoable (ok (finalize result committed, id)) s
  unfolding finalize
  finalize-IsUndoable id (ok output) (ok u) s q = q
  finalize-IsUndoable id (ok output) (err e) s q = tt
  finalize-IsUndoable id (err e) (ok u) s q = tt
  finalize-IsUndoable id (err e) (err e') s q = tt

  commit_later :
      (d : Text) (epoch : ℕ) (cmd : WriteCommand) (id : ℕ)
      → Post (λ s. Unit) (execute_and_commit h d epoch cmd id) IsUndoable
  unfolding execute_and_commit
  commit_later d epoch cmd id =
      Post-bind _ _ (anything _ (caught (execute_command h cmd)))
        (λ result.
          Post-bind _ _ (caught-WhenCaught _ (commit-IsJournaled id d epoch (is_ok result)))
            (λ committed. Post-pure _ (finalize-IsUndoable id result committed)) (λ e s q. tt))
        (λ e s q. tt)

  begun-IsUndoable :
      (d : Text) (epoch : ℕ) (cmd : WriteCommand) (begun : Result Error ℕ)
      → Post (λ s. Unit) (after_begin h d epoch cmd begun) IsUndoable
  unfolding after_begin
  begun-IsUndoable d epoch cmd (ok id) = commit_later d epoch cmd id
  begun-IsUndoable d epoch cmd (err e) = Post-pure _ λ s p. tt

  -- When `run_write` answers a command with its output, a line of the transaction that the answer
  -- names, marked as a success, has been appended to the journal; it never answers as an undo does.
  pub run_write-IsUndoable :
      (cmd : WriteCommand) (r : Run h) → IsUndoable (run_write h cmd r).0 (run_write h cmd r).1
  unfolding run_write
  run_write-IsUndoable cmd r =
      (Post-bind {P = λ s. Unit {0}} _ _ (anything _ (caught (begin h (op_summary cmd) r.epoch)))
          (begun-IsUndoable (op_summary cmd) r.epoch cmd) (λ e s q. tt)).at
        r tt
