-- ===== src/Undo/Engine/Keeping.antt =====
-- The steps of crates/engine/src/undo.rs that leave the engine's own files alone.
use git_bamboo.WriteQueue.Safety.{Invariant, On, IsSafe, is_fine, word, done, fine_no_dash}
use git_bamboo.Prelude.{
  false, arith, fail, ◌>>=◌, ℕ, Option, none, some, List, [], ◌∷◌, ◌≡◌, refl, Result, ok, err, pure,
  Preserves, Preserves-pure, Preserves-fail, Preserves-if, Preserves-bind, is_empty, not,
}
use git_bamboo.Prelude.Text.{eq, Debug, first_is, starts_with, Text, codes, trim}
use git_bamboo.Protocol.{Error, Fault, raised, panicked}
use git_bamboo.Host.{Host, Run}
use git_bamboo.WriteQueue.Validate.{validate_full_ref_name, validate_sha}
use git_bamboo.Undo.Disk.{
  Snapshot, UndoState, SnapshotKind, Stored, missing, torn, whole, stored, journal_file,
  snapshot_file,
}
use git_bamboo.Undo.Snapshots.{
  Undo, lift_error, run_git, read_index_tree, read_snapshot, tree_result, text_result, read_refs,
}
use git_bamboo.Undo.Journal.{
  read_fault, loaded, files_of, transactions, read_journal, load_snapshot,
}
use git_bamboo.Undo.Rollback.{
  RefUpdate, run, run_script, ignore_error, restore_index, set_head, restore_head, ref_target,
  script, restore_snapshot,
}

-- that the engine's files, its counter and its log are those of `u`
abbrev pub Is : UndoState → Invariant
Is u = record { Holds = λ trace v epoch events. v ≡ u; behind = λ argv a q. q }

sha_head : (d : Debug) (t : Text) → validate_sha d t ≡ ok tt → first_is b'-' t ≡ false
unfolding validate_sha
sha_head d [] h = refl
sha_head d (c ∷ t) h = ground arith

ref_head : (d : Debug) (t : Text) → validate_full_ref_name d t ≡ ok tt → first_is b'-' t ≡ false
unfolding validate_full_ref_name starts_with
ref_head d [] h = refl
ref_head d (c ∷ t) h = ground arith

module _ {h : Host} where
  -- what holds of all but the world
  abbrev pub Has : Invariant → Run h → Type 0
  Has = On

module _ (h : Host) (p : Invariant) where
  pub lift-Has : {A : Type 0} (c : Result Error A) → Preserves (Has {h = h} p) (lift_error c)
  unfolding lift_error
  lift-Has (ok a) = Preserves-pure a
  lift-Has (err e) = Preserves-fail (raised e)

  -- what follows a check may use that it passed
  lift-bind-Has :
      {A B : Type 0} (c : Result Error A) (f : A → Undo h B)
      → ((a : A) → c ≡ ok a → Preserves (Has p) (f a))
      → Preserves (Has p) (lift_error c >>= f)
  unfolding lift_error pure fail ◌>>=◌
  lift-bind-Has (ok a) f k = record { at = (k a refl).at }
  lift-bind-Has (err e) f k = record { at = λ s q. q }

  run_git-Has :
      (args : List Text) (input : Text) → IsSafe args → Preserves (Has p) (run_git h args input)
  unfolding run_git
  run_git-Has args input v = record { at = λ s q. p.behind args v q }

  tree_state : (x : Result Fault Text) (s : Run h) → (tree_result x s).1 ≡ s
  tree_state (ok t) s = refl
  tree_state (err (raised e)) s = refl
  tree_state (err panicked) s = refl

  index-Has : Preserves (Has p) (read_index_tree h)
  unfolding read_index_tree is_fine eq
  index-Has = record {
    at = λ s q. rw tree_state ((run_git-Has (codes "write-tree" ∷ []) [] (word refl done)).at s q);
  }

  pub read_snapshot-Has : Preserves (Has p) (read_snapshot h)
  unfolding read_snapshot
  read_snapshot-Has = record {
    at = λ s q.
        (Preserves-bind _ _ (lift-Has (text_result (h.read_head s.world))) λ head.
            Preserves-bind _ _ (lift-Has (read_refs h s.world))
              λ found. Preserves-bind _ _ index-Has λ tree. Preserves-pure _).at
          s q;
  }

  run-Has : (args : List Text) (input : Text) → IsSafe args → Preserves (Has p) (run h args input)
  unfolding run
  run-Has args input v = Preserves-bind _ _ (run_git-Has args input v) λ out. Preserves-pure tt

  script-Has : (us : List RefUpdate) → Preserves (Has p) (run_script h us)
  unfolding run_script is_fine eq
  script-Has [] = Preserves-pure tt
  script-Has (x ∷ us) = run-Has _ _ (word refl (word refl done))

  pub ignored_state : (x : Result Fault (Unit {0})) (s : Run h) → (ignore_error h x s).1 ≡ s
  unfolding ignore_error
  ignored_state (ok t) s = refl
  ignored_state (err (raised e)) s = refl
  ignored_state (err panicked) s = refl

  restore_index-Has : (tree : Option Text) → Preserves (Has p) (restore_index h tree)
  unfolding restore_index is_fine eq
  restore_index-Has none = Preserves-pure tt
  restore_index-Has (some tree) = lift-bind-Has _ _ λ _ e.
      let safe = word refl (word (fine_no_dash tree (sha_head h.debug tree e)) done) in
      record {
        at = λ s q. rw ignored_state ((run-Has (codes "read-tree" ∷ tree ∷ []) [] safe).at s q);
      }

  set_head-Has : (head : Text) (o : Option Text) → Preserves (Has p) (set_head h head o)
  unfolding set_head is_fine eq
  set_head-Has head (some rest) = lift-bind-Has _ _ λ _ e. run-Has _ _ (
      word refl (word refl (word (fine_no_dash (trim rest) (ref_head h.debug (trim rest) e)) done)))
  set_head-Has head none =
      Preserves-if (not (is_empty head)) _ _
        (λ _. lift-bind-Has _ _ λ _ e. run-Has _ _ (
          word refl (
            word refl
              (word refl (word (fine_no_dash (trim head) (sha_head h.debug (trim head) e)) done)))))
        (λ _. Preserves-fail _)

  -- A restoration changes refs, the index and HEAD only.
  pub restore_snapshot-Has : (target : Snapshot) → Preserves (Has p) (restore_snapshot h target)
  unfolding restore_snapshot restore_head
  restore_snapshot-Has target = Preserves-bind _ _ read_snapshot-Has λ current.
      Preserves-bind _ _ (lift-Has (script h current.refs target.refs)) λ us.
        Preserves-bind _ _ (script-Has us) λ _.
          Preserves-bind _ _ (restore_index-Has target.index_tree) λ _.
            Preserves-bind _ _ (set_head-Has target.head (ref_target target.head))
              λ _. Preserves-pure _

  loaded_Has :
      {A : Type 0} (o : Option Text) (m : Undo h A)
      → Preserves (Has p) m
      → Preserves (Has p) (read_fault o m)
  loaded_Has none m k = k
  loaded_Has (some msg) m k = Preserves-fail _

  pub read_journal-Has : Preserves (Has p) (read_journal h)
  unfolding read_journal
  read_journal-Has = record {
    at = λ s q.
        (loaded_Has (h.disk_read journal_file s.world) (pure (transactions s.undo.journal))
            (Preserves-pure _)).at
          s q;
  }

  stored_Has : (x : Stored) → Preserves (Has {h = h} p) (loaded x)
  stored_Has missing = Preserves-fail _
  stored_Has torn = Preserves-fail _
  stored_Has (whole file) = Preserves-pure _

  pub load_snapshot-Has :
      (id : ℕ) (kind : SnapshotKind) → Preserves (Has p) (load_snapshot h id kind)
  unfolding load_snapshot
  load_snapshot-Has id kind = record {
    at = λ s q.
        (loaded_Has (h.disk_read (snapshot_file kind id) s.world)
            (loaded (stored id (files_of kind s.undo))) (stored_Has _)).at
          s q;
  }
