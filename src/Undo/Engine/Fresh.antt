-- ===== src/Undo/Engine/Fresh.antt =====
-- The transaction ids in the files of crates/engine/src/undo.rs.
pub mod Steps
pub mod Start
use git_bamboo.Prelude.Text.{Text}
use git_bamboo.WriteQueue.Safety.{Invariant}
use git_bamboo.Prelude.{
  ◌+◌, ◌^◌, ℕ, ◌+◌, ◌≤◌, ◌<◌, Bool, true, false, not, ◌==◌, leb, if◌then◌else◌, Option, none, some,
  List, [], ◌∷◌, map, keep, All, All-mono, ◌≡◌, refl, arith, Result, ok, err, pure, fail, ◌>>=◌,
  Preserves, Preserves-pure, Preserves-if, Preserves-bind, Post, Post-bind, Post-pure,
}
use git_bamboo.Prelude.Text.{Text}
use git_bamboo.Protocol.{Fault}
use git_bamboo.Host.{EngineEvent, DiskOutcome, written, refused, cut_short, Host, Run, EngineEvent}
use git_bamboo.Undo.Disk.{
  Transaction, TransactionFile, SnapshotKind, pre, post, Line, blank, corrupt, unfinished, entry,
  Stored, whole, torn, store, Files, UndoState, DiskFile, journal_file, marker_file, snapshot_file,
  undo_dir,
}
use git_bamboo.Undo.Snapshots.{Undo, read_snapshot}
use git_bamboo.Undo.Journal.{
  entries, insert_by_id, sort_by_id, transactions, before, append_line, settle, read_fault,
  files_of, with_files, write_snapshot, read_journal, replace_journal, write_tmp,
  truncate_journal_at, take_id, begin, append_entry, commit,
}
use git_bamboo.Undo.Journal.Truncation.{entries-map}
use git_bamboo.Undo.Rollback.{
  set_marker, remove_file, prune_kind, unless_unreadable, prune_snapshots,
}
use git_bamboo.Undo.Engine.{undo, initial_id}
use git_bamboo.Undo.Engine.Ids.{initial_id-above}
use git_bamboo.Undo.Engine.Keeping.{Has, read_snapshot-Has}
use git_bamboo.Undo.Engine.Steps.{undo-Has}

abbrev pub Below : ℕ → List Transaction → Type 0
Below n ts = All (λ (t : Transaction). t.id < n) ts

abbrev pub FilesBelow : ℕ → Files → Type 0
FilesBelow n files = All (λ (f : ℕ × Stored). f.0 < n) files

-- the next id is larger than that of every transaction in the journal and of every snapshot file, and
-- `m` ids can be taken before the counter wraps
abbrev pub IsFresh : ℕ → UndoState → Type 0
IsFresh m u =
    Below u.next_id (entries u.journal)
    × FilesBelow u.next_id u.pre_files
    × FilesBelow u.next_id u.post_files
    × (u.next_id + m < 2 ^ 64)

-- and the id of the transaction that has begun is smaller than it
abbrev pub IsBegun : ℕ → ℕ → UndoState → Type 0
IsBegun m id u = IsFresh m u × (id < u.next_id)

-- these as invariants of all but the world
abbrev pub FreshIds : ℕ → Invariant
FreshIds m = record { Holds = λ trace u epoch events. IsFresh m u; behind = λ argv a q. q }

abbrev pub BegunId : ℕ → ℕ → Invariant
BegunId m id = record { Holds = λ trace u epoch events. IsBegun m id u; behind = λ argv a q. q }

if-All :
    {A : Type 0} (P : A → Type 0) (b : Bool) (xs ys : List A)
    → All P xs
    → All P ys
    → All P (if b then xs else ys)
if-All P true xs ys v w = v
if-All P false xs ys v w = w

pub keep-All :
    {A : Type 0} (P : A → Type 0) (p : A → Bool) (xs : List A) → All P xs → All P (keep p xs)
keep-All P p [] v = tt
keep-All P p (x ∷ xs) v = let rest = keep-All P p xs v.1 in if-All P (p x) _ _ (v.0, rest) rest

insert-Below :
    (n : ℕ) (t : Transaction) (ts : List Transaction)
    → t.id < n
    → Below n ts
    → Below n (insert_by_id t ts)
unfolding insert_by_id
insert-Below n t [] k v = (k, tt)
insert-Below n t (u ∷ us) k v = if-All _ (leb t.id u.id) _ _ (k, v) (v.0, insert-Below n t us k v.1)

pub sort-Below : (n : ℕ) (ts : List Transaction) → Below n ts → Below n (sort_by_id ts)
unfolding sort_by_id
sort-Below n [] v = tt
sort-Below n (t ∷ ts) v = insert-Below n t (sort_by_id ts) v.0 (sort-Below n ts v.1)

pub store-Below :
    (n id : ℕ) (s : Stored) (files : Files)
    → id < n
    → FilesBelow n files
    → FilesBelow n (store id s files)
unfolding store
store-Below n id s [] k v = (k, tt)
store-Below n id s ((i, old) ∷ files) k v =
    if-All _ (i == id) _ _ (k, v.1) (v.0, store-Below n id s files k v.1)

abbrev LineBelow : ℕ → Line → Type 0
LineBelow n (entry t) = t.id < n
LineBelow n _ = Unit

one-Below : (n : ℕ) (l : Line) → LineBelow n l → Below n (entries (l ∷ []))
unfolding entries
one-Below n blank k = tt
one-Below n corrupt k = tt
one-Below n unfinished k = tt
one-Below n (entry t) k = (k, tt)

pub append-Below :
    (n : ℕ) (l : Line) (ls : List Line)
    → LineBelow n l
    → Below n (entries ls)
    → Below n (entries (append_line l ls))
unfolding append_line entries
append-Below n l [] k v = one-Below n l k
append-Below n blank (unfinished ∷ []) k v = tt
append-Below n corrupt (unfinished ∷ []) k v = tt
append-Below n unfinished (unfinished ∷ []) k v = tt
append-Below n (entry t) (unfinished ∷ []) k v = tt
append-Below n l (blank ∷ []) k v = one-Below n l k
append-Below n l (corrupt ∷ []) k v = one-Below n l k
append-Below n l (entry t ∷ []) k v = (v.0, one-Below n l k)
append-Below n l (blank ∷ m ∷ ls) k v = append-Below n l (m ∷ ls) k v
append-Below n l (corrupt ∷ m ∷ ls) k v = append-Below n l (m ∷ ls) k v
append-Below n l (unfinished ∷ m ∷ ls) k v = append-Below n l (m ∷ ls) k v
append-Below n l (entry t ∷ m ∷ ls) k v = (v.0, append-Below n l (m ∷ ls) k v.1)

-- a file has its old, its new or its torn content
pub settle-any :
    {A : Type 0} (P : A → Type 0) (o : DiskOutcome) (old new cut : A)
    → P old
    → P new
    → P cut
    → P (settle {A = A} o old new cut).1
settle-any P written old new cut a b c = b
settle-any P (refused f) old new cut a b c = a
settle-any P (cut_short f) old new cut a b c = c

pub files-Below :
    (m : ℕ) (kind : SnapshotKind) (u : UndoState)
    → IsFresh m u
    → FilesBelow u.next_id (files_of kind u)
files-Below m pre u q = q.1
files-Below m post u q = q.2

pub with-IsFresh :
    (m : ℕ) (kind : SnapshotKind) (u : UndoState) (files : Files)
    → IsFresh m u
    → FilesBelow u.next_id files
    → IsFresh m (with_files kind files u)
with-IsFresh m pre u files q v = (q.0, v, q.2, q.3)
with-IsFresh m post u files q v = (q.0, q.1, v, q.3)

pub with-IsBegun :
    (m id : ℕ) (kind : SnapshotKind) (u : UndoState) (files : Files)
    → IsBegun m id u
    → FilesBelow u.next_id files
    → IsBegun m id (with_files kind files u)
with-IsBegun m id pre u files q v = (with-IsFresh m pre u files q.0 v, q.1)
with-IsBegun m id post u files q v = (with-IsFresh m post u files q.0 v, q.1)
