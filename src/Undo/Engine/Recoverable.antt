-- ===== src/Undo/Engine/Recoverable.antt =====
-- `undo` of crates/engine/src/undo.rs can be finished from wherever it stops.
use git_bamboo.Prelude.Text.{Text}
use git_bamboo.Prelude.{◌>>◌, keep, ℕ, ◌≡◌, Result, ok, err}
use git_bamboo.Host.{Host, Run}
use git_bamboo.Undo.Disk.{DiskFile, Snapshot, Transaction, Stored, whole}
use git_bamboo.Undo.Snapshots.{Undo}
use git_bamboo.Undo.Journal.{transactions, before}
use git_bamboo.Undo.Rollback.{restore_snapshot}
use git_bamboo.Undo.Engine.{marker_for}

-- the marker of an undo, whole
abbrev IsMarked : {h : Host} → Stored → Run h → Type 0
IsMarked m s = s.undo.marker ≡ m

-- between two states of the world only the engine's own files have been written
pub data Written (h : Host) (w : h.World) : h.World → Type 0 where
  none_yet : Written h w w
  one_more : {w' : h.World} → Written h w w' → (f : DiskFile) → Written h w (h.disk_write f w').1

-- Behind the whole undo: the journal reads as the transactions before the undone one, and, with that
-- and with the marker in place, a restoration of the snapshot came to its end, behind which only the
-- engine's own files have been written.
pub record IsRestored {h : Host} (r : Run h) (id : ℕ) (m : Stored) (snapshot : Snapshot) (s : Run h)
    : Type 0 where
  pub start : Run h
  pub count : ℕ
  pub marked : start.undo.marker ≡ m
  pub cut : transactions start.undo.journal ≡ keep (before id) (transactions r.undo.journal)
  pub ended : (restore_snapshot h snapshot start).0 ≡ ok count
  pub world : Written h (restore_snapshot h snapshot start).1.world s.world
  pub journal : s.undo.journal ≡ start.undo.journal

-- Where an undo may stop: with the journal of `r`, so that nothing is undone; with the marker, from
-- which the rest can be done; or with everything done.
pub data IsRecoverable {h : Host} (r : Run h) (id : ℕ) (m : Stored) (snapshot : Snapshot)
    (s : Run h) : Type 0 where
  untouched : s.undo.journal ≡ r.undo.journal → IsRecoverable r id m snapshot s
  resumable : s.undo.marker ≡ m → IsRecoverable r id m snapshot s
  finished : IsRestored r id m snapshot s → IsRecoverable r id m snapshot s

module _ (h : Host) (id : ℕ) (target : Transaction) (snapshot : Snapshot) (r : Run h) where
  abbrev mark : Stored
  mark = whole (marker_for target id snapshot)

  -- with success the marker is written
  abbrev Marking : {A : Type 0} {E : Type 0} → Result E A → Run h → Type 0
  Marking (ok a) s = (s.undo.marker ≡ mark) × (s.undo.journal ≡ r.undo.journal)
  Marking (err e) s = s.undo.journal ≡ r.undo.journal

  -- with success the journal is cut
  abbrev Cutting : {A : Type 0} {E : Type 0} → Result E A → Run h → Type 0
  Cutting (ok a) s =
      (s.undo.marker ≡ mark)
      × (transactions s.undo.journal ≡ keep (before id) (transactions r.undo.journal))
  Cutting (err e) s = s.undo.marker ≡ mark

  -- with success the restoration has come to its end
  abbrev Restoring : {A : Type 0} {E : Type 0} → Result E A → Run h → Type 0
  Restoring (ok a) s = IsRestored r id mark snapshot s
  Restoring (err e) s = s.undo.marker ≡ mark

  -- a write of one of the engine's files other than the journal
  abbrev Done : Run h → Type 0
  Done s = IsRestored r id mark snapshot s

  abbrev Sound : {A : Type 0} {E : Type 0} → Result E A → Run h → Type 0
  Sound x s = IsRecoverable r id mark snapshot s
