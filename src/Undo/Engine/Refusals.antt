-- ===== src/Undo/Engine/Refusals.antt =====
-- An undo that crates/engine/src/undo.rs refuses.
use git_bamboo.Prelude.{
  ℕ, not, Option, none, some, List, find, last?, ◌≡◌, refl, Result, ok, err, Post, Post-bind,
  Post-pure, Post-fail, Post-if, Preserves,
}
use git_bamboo.Protocol.{Fault, raised, panicked}
use git_bamboo.Host.{Host, Run}
use git_bamboo.Undo.Disk.{Snapshot, Transaction, same_snapshot, pre, post}
use git_bamboo.Undo.Snapshots.{Undo}
use git_bamboo.Undo.Engine.{
  not_found, blocked, io, git, UndoFault, undo_error, mapped, with_error, with_id, check_unchanged,
  drop_failed, undo_checked, undo_target, roll_back, undo,
}
use git_bamboo.Undo.Engine.Keeping.{Has, Is, read_journal-Has, load_snapshot-Has, read_snapshot-Has}

-- Both refusals leave the engine's files, its counter and its log as they were in `r`.
abbrev Refused : {h : Host} → Run h → UndoFault → Run h → Type 0
Refused r (undo_error not_found) s = s.undo ≡ r.undo
Refused r (undo_error (blocked reason)) s = s.undo ≡ r.undo
Refused r _ s = Unit

abbrev pub IsRefusal : {h : Host} {A : Type 0} → Run h → Result UndoFault A → Run h → Type 0
IsRefusal r (ok a) s = Unit
IsRefusal r (err f) s = Refused r f s

-- with success too, nothing has changed yet
abbrev Early : {h : Host} {A : Type 0} → Run h → Result UndoFault A → Run h → Type 0
Early r (ok a) s = s.undo ≡ r.undo
Early r (err f) s = Refused r f s

module _ {h : Host} (r : Run h) where
  mapped-Early :
      {A : Type 0} (x : Result Fault A) (s : Run h)
      → s.undo ≡ r.undo
      → Early r (mapped io x s).0 (mapped io x s).1
  mapped-Early (ok a) s q = q
  mapped-Early (err (raised e)) s q = tt
  mapped-Early (err panicked) s q = tt

  -- a step that changes none of the files
  io-Early :
      {A : Type 0} (m : Undo h A)
      → Preserves (Has (Is r.undo)) m
      → Post (Has (Is r.undo)) (with_error io m) (Early r)
  io-Early m k = record { at = λ s p. mapped-Early (m s).0 (m s).1 (k.at s p) }

  mapped_io :
      {A : Type 0} (x : Result Fault A) (s : Run h)
      → IsRefusal r (mapped io x s).0 (mapped io x s).1
  mapped_io (ok a) s = tt
  mapped_io (err (raised e)) s = tt
  mapped_io (err panicked) s = tt

  mapped_git :
      {A : Type 0} (x : Result Fault A) (s : Run h)
      → IsRefusal r (mapped git x s).0 (mapped git x s).1
  mapped_git (ok a) s = tt
  mapped_git (err (raised e)) s = tt
  mapped_git (err panicked) s = tt

  -- a step that fails in no such way
  io_step :
      {A : Type 0} {P : Run h → Type 0} (m : Undo h A) → Post P (with_error io m) (IsRefusal r)
  io_step m = record { at = λ s p. mapped_io (m s).0 (m s).1 }

  git_step :
      {A : Type 0} {P : Run h → Type 0} (m : Undo h A) → Post P (with_error git m) (IsRefusal r)
  git_step m = record { at = λ s p. mapped_git (m s).0 (m s).1 }

module _ (h : Host) (r : Run h) where
  roll_back-IsRefusal :
      (id : ℕ) (t : Transaction) (snapshot : Snapshot)
      → Post (Has (Is r.undo)) (roll_back h id t snapshot) (IsRefusal r)
  unfolding roll_back
  roll_back-IsRefusal id t snapshot =
      Post-bind _ _ (io_step r _)
        (λ u.
          Post-bind _ _ (io_step r _)
            (λ u.
              Post-bind _ _ (git_step r _)
                (λ n.
                  Post-bind _ _ (io_step r _)
                    (λ u. Post-bind _ _ (io_step r _) (λ u. Post-pure _ λ s p. tt) (λ e s q. q))
                    (λ e s q. q))
                (λ e s q. q))
            (λ e s q. q))
        (λ e s q. q)

  check-Early : (id : ℕ) → Post (Has (Is r.undo)) (check_unchanged h id) (Early r)
  unfolding check_unchanged
  check-Early id =
      Post-bind _ _ (io-Early r _ (load_snapshot-Has h (Is r.undo) id post))
        (λ expected.
          Post-bind _ _ (io-Early r _ (read_snapshot-Has h (Is r.undo)))
            (λ current.
              Post-if (same_snapshot current expected) _ _ (λ _. Post-pure _ λ s p. p)
                (λ _. Post-fail _ λ s p. p))
            (λ e s q. q))
        (λ e s q. q)

  checked-IsRefusal :
      (id : ℕ) (t : Transaction) (o : Option Transaction)
      → Post (Has (Is r.undo)) (undo_checked h id t o) (IsRefusal r)
  unfolding undo_checked
  checked-IsRefusal id t none = Post-fail _ λ s p. tt
  checked-IsRefusal id t (some latest) =
      Post-bind _ _ (check-Early latest.id)
        (λ u.
          Post-bind _ _ (io-Early r _ (load_snapshot-Has h (Is r.undo) id pre))
            (λ snapshot. roll_back-IsRefusal id t snapshot) (λ e s q. q))
        (λ e s q. q)

  target-IsRefusal :
      (ts : List Transaction) (id : ℕ) (o : Option Transaction)
      → Post (Has (Is r.undo)) (undo_target h ts id o) (IsRefusal r)
  unfolding undo_target drop_failed
  target-IsRefusal ts id none = Post-fail _ λ s p. p
  target-IsRefusal ts id (some t) =
      Post-if (not t.success) _ _
        (λ _. Post-bind _ _ (io_step r _) (λ u. Post-pure _ λ s p. tt) (λ e s q. q))
        (λ _. checked-IsRefusal id t (last? ts))

  -- An undo that answers `not found` or `blocked` has changed neither the journal nor a snapshot file,
  -- the marker, the counter or the log.
  pub undo-IsRefusal : (id : ℕ) → IsRefusal r (undo h id r).0 (undo h id r).1
  unfolding undo
  undo-IsRefusal id =
      (Post-bind _ _ (io-Early r _ (read_journal-Has h (Is r.undo)))
          (λ ts. target-IsRefusal ts id (find (with_id id) ts)) (λ e s q. q)).at
        r refl
