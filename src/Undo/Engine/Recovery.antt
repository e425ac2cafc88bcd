-- ===== src/Undo/Engine/Recovery.antt =====
-- The recovery at the start of the engine in crates/engine/src/undo.rs.
use git_bamboo.Prelude.{
  ℕ, none, keep, ◌≡◌, ◌≢◌, refl, ap, ◌∙◌, Result, ok, err, pure, ◌>>=◌, continue, Post, Post-bind,
}
use git_bamboo.Protocol.{Fault, raised, panicked}
use git_bamboo.Host.{written, Host, Run}
use git_bamboo.Undo.Disk.{
  Snapshot, TransactionFile, UndoState, Stored, missing, whole, DiskFile, marker_file, journal_file,
}
use git_bamboo.Undo.Journal.{
  transactions, before, read_fault, read_journal, write_tmp, replace_journal, truncate_journal_at,
}
use git_bamboo.Undo.Journal.Truncation.{IsTruncation, truncate-IsTruncation}
use git_bamboo.Undo.Rollback.{restore_snapshot, set_marker, ignore_error}
use git_bamboo.Undo.Engine.{restore_or_warn, finish, read_marker, recover_from, recover}
use git_bamboo.Undo.Engine.Keeping.{Is, restore_snapshot-Has}

-- every read and every change of a file of the undo directory works
pub record IsWorking (h : Host) : Type 0 where
  pub writes : (f : DiskFile) (w : h.World) → (h.disk_write f w).0 ≡ written
  pub reads : (f : DiskFile) (w : h.World) → h.disk_read f w ≡ none

module _ (h : Host) (works : IsWorking h) where
  truncates : (id : ℕ) (r : Run h) → (truncate_journal_at h id r).0 ≡ ok tt
  unfolding truncate_journal_at read_journal write_tmp replace_journal ◌>>=◌
  truncates id r = rw (works.reads journal_file r.world) (rw works.writes (rw works.writes refl))

  -- with success, what is left of the journal; no failure at all
  abbrev IsCut : ℕ → Run h → Result Fault (Unit {0}) → Run h → Type 0
  IsCut id r (ok u) s = transactions s.undo.journal ≡ keep (before id) (transactions r.undo.journal)
  IsCut id r (err f) s = ⊥

  truncate-IsCut : (id : ℕ) (r : Run h) → Post (λ s. s ≡ r) (truncate_journal_at h id) (IsCut id r)
  truncate-IsCut id r = record {
    at = λ s e. rw e (go _ _ (truncates id r) (truncate-IsTruncation h id r));
  }
    where
      go :
          (x : Result Fault (Unit {0})) (s : Run h)
          → x ≡ ok tt
          → IsTruncation id r x s
          → IsCut id r x s
      go (ok u) s e t = t
      go (err f) s e t = absurd (cc e)

  warn-IsCut :
      (id : ℕ) (r : Run h) (snapshot : Snapshot)
      → ((s : Run h) → (restore_snapshot h snapshot s).0 ≢ err panicked)
      → Post (IsCut id r (ok tt)) (restore_or_warn h snapshot) (IsCut id r)
  unfolding restore_or_warn ◌>>=◌ pure ignore_error
  warn-IsCut id r snapshot lives = record {
    at = λ s q. go (restore_snapshot h snapshot s).0 (restore_snapshot h snapshot s).1 (lives s) (
        ap (λ (u : UndoState). transactions u.journal)
          ((restore_snapshot-Has h (Is s.undo) snapshot).at s refl)
        ∙ q);
  }
    where
      go :
          (x : Result Fault ℕ) (s : Run h)
          → x ≢ err panicked
          → IsCut id r (ok tt) s
          → let (y, t) = continue x (λ n. pure tt) s in
            IsCut id r (ignore_error h y t).0 (ignore_error h y t).1
      go (ok n) s live q = q
      go (err (raised e)) s live q = q
      go (err panicked) s live q = absurd (live refl)

  -- and the marker is gone
  abbrev IsSettled : ℕ → Run h → Result Fault (Unit {0}) → Run h → Type 0
  IsSettled id r (ok u) s =
      (s.undo.marker ≡ missing)
      × (transactions s.undo.journal ≡ keep (before id) (transactions r.undo.journal))
  IsSettled id r (err f) s = ⊥

  unmark-IsSettled :
      (id : ℕ) (r : Run h) (m : Stored)
      → Post (IsCut id r (ok tt)) (set_marker h missing m) (IsSettled id r)
  unfolding set_marker
  unmark-IsSettled id r m = record { at = λ s q. rw works.writes (refl, q) }

  finish-IsSettled :
      (file : TransactionFile) (r : Run h)
      → ((s : Run h) → (restore_snapshot h file.snapshot s).0 ≢ err panicked)
      → Post (λ s. s ≡ r) (finish h file) (IsSettled file.meta.id r)
  unfolding finish
  finish-IsSettled file r lives =
      Post-bind _ _ (truncate-IsCut file.meta.id r)
        (λ u.
          Post-bind _ _ (warn-IsCut file.meta.id r file.snapshot lives)
            (λ u. unmark-IsSettled file.meta.id r (whole file)) (λ e s q. q))
        (λ e s q. q)

recover-finish :
    (h : Host) (r : Run h) (file : TransactionFile)
    → IsWorking h
    → r.undo.marker ≡ whole file
    → recover h r ≡ finish h file r
unfolding recover recover_from read_marker
recover-finish h r file works marked =
    ap (λ m. recover_from h m r) marked
    ∙ ap (λ o. read_fault o (read_marker h (whole file)) r) (works.reads marker_file r.world)

-- If the marker of an undo is there, every read and change of the engine's files works, and the
-- process does not end in the restoration, then recovery succeeds, removes the marker, and leaves a
-- journal that reads as exactly the transactions before the one of the marker.
pub recover-IsSettled :
    (h : Host) (r : Run h) (file : TransactionFile)
    → IsWorking h
    → r.undo.marker ≡ whole file
    → ((s : Run h) → (restore_snapshot h file.snapshot s).0 ≢ err panicked)
    → ((recover h r).0 ≡ ok tt)
      × ((recover h r).1.undo.marker ≡ missing)
      × (transactions (recover h r).1.undo.journal
          ≡ keep (before file.meta.id) (transactions r.undo.journal))
recover-IsSettled h r file works marked lives =
    rw (recover-finish h r file works marked) (
      go (finish h file r).0 (finish h file r).1
        ((finish-IsSettled h works file r lives).at r refl))
  where
    go :
        (x : Result Fault (Unit {0})) (s : Run h)
        → IsSettled h works file.meta.id r x s
        → (x ≡ ok tt)
          × (s.undo.marker ≡ missing)
          × (transactions s.undo.journal ≡ keep (before file.meta.id) (transactions r.undo.journal))
    go (ok u) s q = (refl, q.0, q.1)
    go (err f) s q = absurd q
