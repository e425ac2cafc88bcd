-- ===== src/Undo/Engine/Fresh/Steps.antt =====
-- What crates/engine/src/undo.rs does with the transaction ids.
use git_bamboo.Prelude.{
  ◌+◌, ℕ, ◌<◌, Bool, leb, Option, none, some, List, [], ◌∷◌, map, keep, All-mono, arith, Result, ok,
  err, pure, fail, ◌>>=◌, Preserves, Preserves-pure, Preserves-if, Preserves-bind, Post, Post-bind,
  Post-pure,
}
use git_bamboo.Prelude.Text.{Text}
use git_bamboo.Protocol.{Fault}
use git_bamboo.Host.{Host, Run}
use git_bamboo.Undo.Disk.{
  Transaction, TransactionFile, SnapshotKind, pre, post, unfinished, entry, Stored, whole, torn,
  store, Files, journal_file, snapshot_file, undo_dir,
}
use git_bamboo.Undo.Snapshots.{Undo}
use git_bamboo.Undo.Journal.{
  entries, transactions, before, append_line, read_fault, files_of, write_snapshot, read_journal,
  replace_journal, write_tmp, truncate_journal_at, take_id, begin, append_entry, commit,
}
use git_bamboo.Undo.Journal.Truncation.{entries-map}
use git_bamboo.Undo.Rollback.{
  set_marker, remove_file, prune_kind, unless_unreadable, prune_snapshots,
}
use git_bamboo.Undo.Engine.{undo}
use git_bamboo.Undo.Engine.Keeping.{Has, read_snapshot-Has}
use git_bamboo.Undo.Engine.Steps.{undo-Has}
use git_bamboo.Undo.Engine.Fresh.{
  FreshIds, BegunId, Below, FilesBelow, IsFresh, IsBegun, keep-All, sort-Below, store-Below,
  append-Below, settle-any, files-Below, with-IsFresh, with-IsBegun,
}

module _ (h : Host) (room : ℕ) where
  write-IsBegun :
      (id : ℕ) (kind : SnapshotKind) (file : TransactionFile)
      → Preserves (Has (BegunId room id)) (write_snapshot h kind id file)
  unfolding write_snapshot
  write-IsBegun id kind file = record {
    at = λ s q.
        let files = files_of kind s.undo in
        let old = files-Below room kind s.undo q.0 in
        with-IsBegun room id kind s.undo _ q (
          settle-any (FilesBelow s.undo.next_id) (h.disk_write (snapshot_file kind id) s.world).0
            files (store id (whole file) files) (store id torn files) old
            (store-Below s.undo.next_id id (whole file) files q.1 old)
            (store-Below s.undo.next_id id torn files q.1 old));
  }

  append-IsFresh : (tx : Transaction) → Preserves (Has (BegunId room tx.id)) (append_entry h tx)
  unfolding append_entry replace_journal
  append-IsFresh tx = record {
    at = λ s q.
        let n = s.undo.next_id in
        let ls = s.undo.journal in
        let journal =
          settle-any (λ ls. Below n (entries ls)) (h.disk_write journal_file s.world).0 ls
            (append_line (entry tx) ls) (append_line unfinished ls) q.0.0
            (append-Below n (entry tx) ls q.1 q.0.0) (append-Below n unfinished ls tt q.0.0) in
        ((journal, q.0.1, q.0.2, q.0.3), q.1);
  }

  -- with success the id of a transaction is one that has begun
  abbrev pub Begun : Result Fault ℕ → Run h → Type 0
  Begun (ok id) s = IsBegun room id s.undo
  Begun (err f) s = IsFresh room s.undo

  take-Begun : Post (Has (FreshIds (room + 1))) (take_id h) Begun
  unfolding take_id
  take-Begun = record {
    at = λ s q.
        let n = s.undo.next_id in
        (
          (
            All-mono (entries s.undo.journal) (λ t v. omega arith) q.0,
            All-mono s.undo.pre_files (λ f v. omega arith) q.1,
            All-mono s.undo.post_files (λ f v. omega arith) q.2,
            omega arith,
          ),
          omega arith,
        );
  }

  -- a step of `begin` behind the taking of the id
  then_Begun :
      {A : Type 0} (id : ℕ) (m : Undo h A) (f : A → Undo h ℕ)
      → Preserves (Has (BegunId room id)) m
      → ((a : A) → Post (Has (BegunId room id)) (f a) Begun)
      → Post (Has (BegunId room id)) (m >>= f) Begun
  then_Begun id m f k kf =
      Post-bind {Q = λ x. Has (BegunId room id)} {R = Begun} m f (record { at = k.at }) kf
        (λ e s q. q.0)

  -- A transaction that begins has an id of its own.
  pub begin-Begun :
      (d : Text) (epoch : ℕ) → Post (Has (FreshIds (room + 1))) (begin h d epoch) Begun
  unfolding begin
  begin-Begun d epoch =
      Post-bind {Q = Begun} {R = Begun} (take_id h) _ take-Begun
        (λ id.
          then_Begun id _ _ (read_snapshot-Has h (BegunId room id))
            λ snapshot. then_Begun id _ _ (write-IsBegun id pre _) λ _. Post-pure id λ s q. q)
        (λ e s q. q)

  -- A commit of a transaction that has begun keeps the ids apart.
  pub commit-IsBegun :
      (id : ℕ) (d : Text) (epoch : ℕ) (success : Bool)
      → Preserves (Has (BegunId room id)) (commit h id d epoch success)
  unfolding commit
  commit-IsBegun id d epoch success =
      Preserves-bind _ _ (read_snapshot-Has h (BegunId room id)) λ snapshot.
        Preserves-bind _ _ (write-IsBegun id post _) λ _. record {
          at = λ s q.
              (append-IsFresh (record {
                id = id;
                timestamp = h.now s.world;
                description = d;
                epoch_at_creation = epoch;
                success = success;
              })).at
                s q;
        }

  -- with success the transactions that were read are below the next id
  abbrev HasRead : Result Fault (List Transaction) → Run h → Type 0
  HasRead (ok ts) s = IsFresh room s.undo × Below s.undo.next_id ts
  HasRead (err f) s = IsFresh room s.undo

  reading :
      (o : Option Text) (s : Run h)
      → IsFresh room s.undo
      → let m : Undo h (List Transaction) = pure (transactions s.undo.journal) in
        HasRead (read_fault o m s).0 (read_fault o m s).1
  unfolding pure fail transactions
  reading none s q = (q, sort-Below s.undo.next_id (entries s.undo.journal) q.0)
  reading (some msg) s q = q

  read-HasRead : Post (Has (FreshIds room)) (read_journal h) HasRead
  unfolding read_journal
  read-HasRead = record { at = λ s q. reading (h.disk_read journal_file s.world) s q }

  pub truncate-IsFresh : (id : ℕ) → Preserves (Has (FreshIds room)) (truncate_journal_at h id)
  unfolding truncate_journal_at write_tmp replace_journal
  truncate-IsFresh id = record {
    at =
        (Post-bind {Q = HasRead} {R = λ x. Has (FreshIds room)} (read_journal h) _ read-HasRead
          (λ ts.
            Post-bind {Q = λ x. HasRead (ok ts)} {R = λ x. Has (FreshIds room)} _ _
              (record { at = λ s q. q })
              (λ _. record {
                at = λ s q.
                    let n = s.undo.next_id in
                    let kept = keep (before id) ts in
                    let below : Below n (entries (map entry kept)) =
                      rw (entries-map kept)
                        (keep-All (λ (t : Transaction). t.id < n) (before id) ts q.1) in
                    (
                      settle-any (λ ls. Below n (entries ls)) (h.disk_write journal_file s.world).0
                          s.undo.journal (map entry kept) s.undo.journal q.0.0 below q.0.0,
                      q.0.1,
                      q.0.2,
                      q.0.3,
                    );
              })
              (λ e s q. q.0))
          (λ e s q. q)).at;
  }

  pub marker-IsFresh : (new cut : Stored) → Preserves (Has (FreshIds room)) (set_marker h new cut)
  unfolding set_marker
  marker-IsFresh new cut = record { at = λ s q. q }

  remove-IsFresh :
      (kind : SnapshotKind) (id : ℕ) → Preserves (Has (FreshIds room)) (remove_file h kind id)
  unfolding remove_file
  remove-IsFresh kind id = record {
    at = λ s q.
        let files = files_of kind s.undo in
        let old = files-Below room kind s.undo q in
        with-IsFresh room kind s.undo _ q (
          settle-any (FilesBelow s.undo.next_id) (h.disk_write (snapshot_file kind id) s.world).0
            files _ files old (keep-All (λ (f : ℕ × Stored). f.0 < s.undo.next_id) _ files old)
            old);
  }

  prune_kind-IsFresh :
      (kind : SnapshotKind) (id : ℕ) (files : Files)
      → Preserves (Has (FreshIds room)) (prune_kind h kind id files)
  unfolding prune_kind
  prune_kind-IsFresh kind id [] = Preserves-pure tt
  prune_kind-IsFresh kind id ((i, s) ∷ files) =
      Preserves-if (leb id i) _ _
        (λ _. Preserves-bind _ _ (remove-IsFresh kind i) λ _. prune_kind-IsFresh kind id files)
        (λ _. prune_kind-IsFresh kind id files)

  readable-IsFresh :
      (o : Option Text) (m : Undo h (Unit {0}))
      → Preserves (Has (FreshIds room)) m
      → Preserves (Has (FreshIds room)) (unless_unreadable h o m)
  unfolding unless_unreadable
  readable-IsFresh none m k = k
  readable-IsFresh (some msg) m k = Preserves-pure tt

  prune-IsFresh : (id : ℕ) → Preserves (Has (FreshIds room)) (prune_snapshots h id)
  unfolding prune_snapshots
  prune-IsFresh id = record {
    at = λ s q.
        (readable-IsFresh (h.disk_read undo_dir s.world) _ (
            Preserves-bind _ _ (prune_kind-IsFresh pre id s.undo.pre_files)
              λ _. prune_kind-IsFresh post id s.undo.post_files)).at
          s q;
  }

  -- An undo keeps the next id above all that are left.
  pub undo-IsFresh : (id : ℕ) → Preserves (Has (FreshIds room)) (undo h id)
  undo-IsFresh =
      undo-Has h (FreshIds room)
        (record { marks = marker-IsFresh; truncates = truncate-IsFresh; prunes = prune-IsFresh })
