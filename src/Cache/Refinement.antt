-- ===== src/Cache/Refinement.antt =====
-- About the operations of crates/engine/src/cache.rs, each with the function on four maps that it is
-- compared with.
use git_bamboo.Prelude.{
  ℕ, Bool, true, false, not, Option, none, some, [], ◌∷◌, is_empty, if◌then◌else◌, pure, ◌>>◌, refl,
}
use git_bamboo.Prelude.Maps.{Map}
use git_bamboo.Prelude.Text.{Text}
use git_bamboo.Cache.Store.{
  Table, commit_meta, commit_lanes, cache_epoch, repo_fingerprint, Value, Views, look, put, empty,
  Redb, IsStore,
}
use git_bamboo.Cache.{
  epoch_key, fingerprint_key, next_epoch, reusable, in_write, in_read, clear_table, insert_lanes,
  put_lanes_with_epoch, get_cached_epoch, invalidate_on_epoch_change, reconcile, clear_lanes,
  create_tables, stored_state, start_over, choose, is_epoch,
}
use git_bamboo.Cache.Clearing.{clear_table-Turns}
use git_bamboo.Cache.Atomic.{
  Turns, Atomic, Turns-pure, Turns-bind, Atomic-bind, Atomic-pure, Atomic-then, in_write-Atomic,
  in_read-Atomic,
}

abbrev pub nothing : Views → Unit {0}
nothing s = tt

-- what `put_lanes_with_epoch` is for
abbrev pub store_each : Map ℕ → Views → Views
store_each [] s = s
store_each ((id, lane) ∷ lanes) s = store_each lanes (put commit_lanes id (some lane) s)

abbrev pub store_lanes : Map ℕ → ℕ → Views → Views
store_lanes lanes epoch s =
    if is_empty lanes then s else put cache_epoch epoch_key (some epoch) (store_each lanes s)

-- what `invalidate_on_epoch_change` is for
abbrev pub invalidated : (Table → Text → Bool) → ℕ → Views → Views
invalidated u e s =
    if is_epoch (s.epochs epoch_key) e
    then s
    else put cache_epoch epoch_key (some e) (empty u commit_lanes s)

-- what the opening of a cache does to its tables
abbrev pub reset : (Table → Text → Bool) → Text → ℕ → Views → Views
reset u fp e s =
    put repo_fingerprint fingerprint_key (some fp)
      (put cache_epoch epoch_key (some e) (empty u commit_lanes (empty u commit_meta s)))

abbrev pub reconcile_with : (Table → Text → Bool) → Text → Option ℕ → Option ℕ → Views → Views
reconcile_with u fp stored_epoch (some e) s = s
reconcile_with u fp stored_epoch none s = reset u fp (next_epoch stored_epoch) s

abbrev pub epoch_of : Option ℕ → Option ℕ → ℕ
epoch_of stored_epoch (some e) = e
epoch_of stored_epoch none = next_epoch stored_epoch

abbrev pub reused : Text → Views → Option ℕ
reused fp s = reusable (s.fingerprints fingerprint_key) (s.epochs epoch_key) fp

module _ (r : Redb) (w : IsStore r) where
  pub open_table-Turns : (t : Table) → Turns w.txn_views (r.open_table t) nothing (λ s. s)
  open_table-Turns t = record { at = λ x a h. (refl, w.open_table_keeps t x) }

  pub insert-Turns :
      (t : Table) (k : Text) (v : Value t)
      → Turns w.txn_views (r.insert t k v) nothing (put t k (some v))
  insert-Turns t k v = record { at = λ x a h. (refl, w.insert_puts t k v x h) }

  pub find-Turns :
      (t : Table) (k : Text) → Turns w.txn_views (r.find t k) (λ s. look t s k) (λ s. s)
  find-Turns t k = record { at = λ x a h. (w.find_finds t k x a h, w.find_keeps t k x) }

  insert_lanes-Turns :
      (lanes : Map ℕ) → Turns w.txn_views (insert_lanes r lanes) nothing (store_each lanes)
  unfolding insert_lanes
  insert_lanes-Turns [] = Turns-pure tt
  insert_lanes-Turns ((id, lane) ∷ lanes) =
      Turns-bind (r.insert commit_lanes id lane) (insert-Turns commit_lanes id lane)
        (λ _. insert_lanes-Turns lanes)

  -- Lanes and their epoch are stored together, or neither is.
  pub put_lanes_with_epoch-Atomic :
      (lanes : Map ℕ) (epoch : ℕ)
      → Atomic w.db_views (put_lanes_with_epoch r lanes epoch) nothing (store_lanes lanes epoch)
  unfolding put_lanes_with_epoch
  put_lanes_with_epoch-Atomic [] epoch = Atomic-pure tt
  put_lanes_with_epoch-Atomic (l ∷ lanes) epoch = in_write-Atomic r w _ (
      Turns-bind (r.open_table commit_lanes) (open_table-Turns commit_lanes) λ _.
        Turns-bind (insert_lanes r (l ∷ lanes)) (insert_lanes-Turns (l ∷ lanes)) λ _.
          Turns-bind (r.open_table cache_epoch) (open_table-Turns cache_epoch)
            λ _. insert-Turns cache_epoch epoch_key epoch)

  get_cached_epoch-Atomic :
      Atomic w.db_views (get_cached_epoch r) (λ s. s.epochs epoch_key) (λ s. s)
  unfolding get_cached_epoch
  get_cached_epoch-Atomic = in_read-Atomic r w _ (
      Turns-bind (r.open_table cache_epoch) (open_table-Turns cache_epoch)
        λ _. find-Turns cache_epoch epoch_key)

  clear_lanes-Turns :
      (e : ℕ)
      → Turns w.txn_views
          (clear_lanes r e)
          nothing
          (λ s. put cache_epoch epoch_key (some e) (empty w.unreadable commit_lanes s))
  unfolding clear_lanes
  clear_lanes-Turns e = Turns-bind (r.open_table commit_lanes) (open_table-Turns commit_lanes) λ _.
      Turns-bind (clear_table r commit_lanes) (clear_table-Turns r w commit_lanes) λ _.
        Turns-bind (r.open_table cache_epoch) (open_table-Turns cache_epoch)
          λ _. insert-Turns cache_epoch epoch_key e

  invalidate_when :
      (b : Bool) (e : ℕ)
      → Atomic w.db_views
          (if b then pure false else in_write r (clear_lanes r e) >> pure true)
          (λ s. not b)
          (λ s.
            if b then s else put cache_epoch epoch_key (some e) (empty w.unreadable commit_lanes s))
  invalidate_when true e = Atomic-pure false
  invalidate_when false e =
      Atomic-then (in_write r (clear_lanes r e)) true
        (in_write-Atomic r w (clear_lanes r e) (clear_lanes-Turns e))

  pub invalidate_on_epoch_change-Atomic :
      (e : ℕ)
      → Atomic w.db_views
          (invalidate_on_epoch_change r e)
          (λ s. not (is_epoch (s.epochs epoch_key) e))
          (invalidated w.unreadable e)
  unfolding invalidate_on_epoch_change
  invalidate_on_epoch_change-Atomic e =
      Atomic-bind (get_cached_epoch r) get_cached_epoch-Atomic
        (λ cached. invalidate_when (is_epoch cached e) e)

  create_tables-Turns : Turns w.txn_views (create_tables r) nothing (λ s. s)
  unfolding create_tables
  create_tables-Turns = Turns-bind (r.open_table commit_meta) (open_table-Turns commit_meta) λ _.
      Turns-bind (r.open_table commit_lanes) (open_table-Turns commit_lanes) λ _.
        Turns-bind (r.open_table cache_epoch) (open_table-Turns cache_epoch)
          λ _. open_table-Turns repo_fingerprint

  stored_state-Turns :
      Turns {A = Option Text × Option ℕ} w.txn_views
        (stored_state r)
        (λ s. (s.fingerprints fingerprint_key, s.epochs epoch_key))
        (λ s. s)
  unfolding stored_state
  stored_state-Turns =
      Turns-bind (r.open_table repo_fingerprint) (open_table-Turns repo_fingerprint) λ _.
        Turns-bind (r.find repo_fingerprint fingerprint_key)
          (find-Turns repo_fingerprint fingerprint_key)
          λ fp. Turns-bind (r.open_table cache_epoch) (open_table-Turns cache_epoch) λ _.
            Turns-bind (r.find cache_epoch epoch_key) (find-Turns cache_epoch epoch_key)
              λ epoch. Turns-pure (fp, epoch)

  start_over-Turns :
      (fp : Text) (e : ℕ) → Turns w.txn_views (start_over r fp e) nothing (reset w.unreadable fp e)
  unfolding start_over
  start_over-Turns fp e = Turns-bind (create_tables r) create_tables-Turns λ _.
      Turns-bind (clear_table r commit_meta) (clear_table-Turns r w commit_meta) λ _.
        Turns-bind (clear_table r commit_lanes) (clear_table-Turns r w commit_lanes) λ _.
          Turns-bind (r.insert cache_epoch epoch_key e) (insert-Turns cache_epoch epoch_key e)
            λ _. insert-Turns repo_fingerprint fingerprint_key fp

  choose-Atomic :
      (fp : Text) (stored_epoch o : Option ℕ)
      → Atomic w.db_views
          (choose r fp stored_epoch o)
          (λ s. epoch_of stored_epoch o)
          (reconcile_with w.unreadable fp stored_epoch o)
  choose-Atomic fp stored_epoch (some e) = Atomic-pure e
  choose-Atomic fp stored_epoch none =
      let e = next_epoch stored_epoch in
      Atomic-then (in_write r (start_over r fp e)) e
        (in_write-Atomic r w (start_over r fp e) (start_over-Turns fp e))

  pub reconcile-Atomic :
      (fp : Text)
      → Atomic w.db_views
          (reconcile r fp)
          (λ s. epoch_of (s.epochs epoch_key) (reused fp s))
          (λ s. reconcile_with w.unreadable fp (s.epochs epoch_key) (reused fp s) s)
  unfolding reconcile
  reconcile-Atomic fp =
      Atomic-bind (in_write r (create_tables r))
        (in_write-Atomic r w (create_tables r) create_tables-Turns)
        λ _.
          Atomic-bind (in_read r (stored_state r))
            (in_read-Atomic r w (stored_state r) stored_state-Turns)
            λ (stored_fp, stored_epoch).
              choose-Atomic fp stored_epoch (reusable stored_fp stored_epoch fp)
