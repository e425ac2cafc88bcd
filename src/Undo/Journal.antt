-- ===== src/Undo/Journal.antt =====
-- The journal and the transactions of crates/engine/src/undo.rs.
pub mod Truncation
use git_bamboo.Prelude.{
  ℕ, ◌+◌, ◌%◌, ◌^◌, Bool, true, false, Option, none, some, List, [], ◌∷◌, ◌++◌, map, reverse, keep,
  take, ltb, leb, if◌then◌else◌, Act, pure, fail, ◌>>=◌, ◌>>◌, Result, ok, err,
}
use Prim.Native.Nat.{max}
use git_bamboo.Prelude.Text.{Text, codes}
use git_bamboo.Protocol.{Error, plain, Fault, raised, panicked, UndoEntry}
use git_bamboo.Host.{DiskOutcome, written, refused, cut_short, Host, Run}
use git_bamboo.Undo.Disk.{
  Snapshot, Transaction, TransactionMeta, TransactionFile, SnapshotKind, pre, post, Line, blank,
  corrupt, unfinished, entry, Stored, missing, torn, whole, stored, store, Files, UndoState,
  DiskFile, journal_file, journal_tmp, snapshot_file,
}
use git_bamboo.Undo.Snapshots.{Undo, read_snapshot}

-- the transactions of the lines that parse
unfoldable pub entries : List Line → List Transaction
entries [] = []
entries (blank ∷ ls) = entries ls
entries (corrupt ∷ ls) = entries ls
entries (unfinished ∷ ls) = entries ls
entries (entry t ∷ ls) = t ∷ entries ls

-- `sort_by_key(|t| t.id)`, which is stable
unfoldable pub insert_by_id : Transaction → List Transaction → List Transaction
insert_by_id t [] = t ∷ []
insert_by_id t (u ∷ us) =
    let rest = insert_by_id t us in if leb t.id u.id then t ∷ u ∷ us else u ∷ rest

unfoldable pub sort_by_id : List Transaction → List Transaction
unfolding insert_by_id
sort_by_id [] = []
sort_by_id (t ∷ ts) = insert_by_id t (sort_by_id ts)

-- the content of the journal, read and sorted
unfoldable pub transactions : List Line → List Transaction
unfolding entries sort_by_id
transactions ls = sort_by_id (entries ls)

abbrev pub before : ℕ → Transaction → Bool
before id t = ltb t.id id

-- what `truncate_journal_at` writes
unfoldable pub truncated : ℕ → List Line → List Line
unfolding transactions
truncated id ls = map entry (keep (before id) (transactions ls))

abbrev joined : Line → Line
joined unfinished = unfinished
joined _ = corrupt

-- An append goes on at the end of the file: after an unfinished line the new one is part of it, and
-- the two together do not parse.
unfoldable pub append_line : Line → List Line → List Line
append_line l [] = l ∷ []
append_line l (unfinished ∷ []) = joined l ∷ []
append_line l (blank ∷ []) = blank ∷ l ∷ []
append_line l (corrupt ∷ []) = corrupt ∷ l ∷ []
append_line l (entry t ∷ []) = entry t ∷ l ∷ []
append_line l (m ∷ n ∷ ls) = m ∷ append_line l (n ∷ ls)

-- the outcome of a change of one file, as a result, with the file's content before and after
abbrev pub settle : {A : Type 0} → DiskOutcome → A → A → A → Result Fault (Unit {0}) × A
settle written old new cut = (ok tt, new)
settle (refused f) old new cut = (err f, old)
settle (cut_short f) old new cut = (err f, cut)

abbrev pub read_fault : {A S : Type 0} → Option Text → Act S Fault A → Act S Fault A
read_fault none m = m
read_fault (some msg) m = fail (raised (plain msg))

-- a snapshot file read back
abbrev pub loaded : {S : Type 0} → Stored → Act S Fault Snapshot
loaded missing = fail (raised (plain (codes "snapshot file not found")))
loaded torn = fail (raised (plain (codes "failed to parse snapshot")))
loaded (whole file) = pure file.snapshot

abbrev pub files_of : SnapshotKind → UndoState → Files
files_of pre u = u.pre_files
files_of post u = u.post_files

abbrev pub with_files : SnapshotKind → Files → UndoState → UndoState
with_files pre files u = record u { pre_files = files }
with_files post files u = record u { post_files = files }

module _ (h : Host) where
  -- `write_durable` of a snapshot file
  unfoldable pub write_snapshot : SnapshotKind → ℕ → TransactionFile → Undo h (Unit {0})
  unfolding store
  write_snapshot kind id file r =
      let (outcome, w) = h.disk_write (snapshot_file kind id) r.world in
      let files = files_of kind r.undo in
      let (result, files') =
        settle outcome files (store id (whole file) files) (store id torn files) in
      (result, record r { world = w; undo = with_files kind files' r.undo })

  -- `read_journal`
  unfoldable pub read_journal : Undo h (List Transaction)
  read_journal r =
      read_fault (h.disk_read journal_file r.world) (pure (transactions r.undo.journal)) r

  -- `load_snapshot`
  unfoldable pub load_snapshot : ℕ → SnapshotKind → Undo h Snapshot
  load_snapshot id kind r =
      read_fault (h.disk_read (snapshot_file kind id) r.world)
        (loaded (stored id (files_of kind r.undo))) r

  -- `fs::rename` and appends of the journal: the file is as before, or has the new lines; an append
  -- that was cut short ends in a line that does not parse
  unfoldable pub replace_journal : DiskFile → List Line → List Line → Undo h (Unit {0})
  replace_journal which new cut r =
      let (outcome, w) = h.disk_write which r.world in
      let (result, lines) = settle outcome r.undo.journal new cut in
      (result, record r { world = w; undo = record r.undo { journal = lines } })

  -- a write of the temporary file, which nothing reads
  unfoldable pub write_tmp : Undo h (Unit {0})
  write_tmp r =
      let (outcome, w) = h.disk_write journal_tmp r.world in
      ((settle outcome tt tt tt).0, record r { world = w })

  -- `truncate_journal_at`; a rename is never cut short
  unfoldable pub truncate_journal_at : ℕ → Undo h (Unit {0})
  unfolding read_journal write_tmp replace_journal
  truncate_journal_at id = do
    ts ← read_journal
    write_tmp
    λ r. replace_journal journal_file (map entry (keep (before id) ts)) r.undo.journal r

  -- `fetch_add`
  unfoldable pub take_id : Undo h ℕ
  take_id r = (
    ok r.undo.next_id,
    record r { undo = record r.undo { next_id = (r.undo.next_id + 1) % 2 ^ 64 } },
  )

  -- `begin`
  unfoldable pub begin : Text → ℕ → Undo h ℕ
  unfolding take_id read_snapshot write_snapshot
  begin description epoch = do
    id ← take_id
    snapshot ← read_snapshot h
    write_snapshot pre id (record {
      meta = record { id = id; description = description; epoch = epoch };
      snapshot = snapshot;
    })
    pure id

  unfoldable pub append_entry : Transaction → Undo h (Unit {0})
  append_entry tx r =
      replace_journal journal_file (append_line (entry tx) r.undo.journal)
        (append_line unfinished r.undo.journal) r

  -- `commit`
  unfoldable pub commit : ℕ → Text → ℕ → Bool → Undo h (Unit {0})
  unfolding read_snapshot write_snapshot append_entry replace_journal append_line
  commit id description epoch success = do
    snapshot ← read_snapshot h
    write_snapshot post id (record {
      meta = record { id = id; description = description; epoch = epoch };
      snapshot = snapshot;
    })
    λ r.
        append_entry
          (record {
            id = id;
            timestamp = h.now r.world;
            description = description;
            epoch_at_creation = epoch;
            success = success;
          })
          r

  -- `list_transactions`
  unfoldable pub list_transactions : ℕ → Undo h (List UndoEntry)
  unfolding read_journal
  list_transactions limit = do
    ts ← read_journal
    pure (
        take limit (
          reverse (
            map
              (λ (t : Transaction). record {
                id = t.id;
                timestamp = t.timestamp;
                description = t.description;
                epoch_at_creation = t.epoch_at_creation;
              })
              ts)))
