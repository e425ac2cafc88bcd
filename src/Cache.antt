-- ===== src/Cache.antt =====
-- crates/engine/src/cache.rs: the durable cache of commit metadata and lanes, and its epoch.
pub mod Store
pub mod Atomic
pub mod Opening
pub mod Clearing
pub mod Refinement
pub mod Promises
pub mod RoundTrip
use git_bamboo.Prelude.{
  ℕ, zero, suc, ◌+◌, ◌%◌, ◌^◌, Bool, true, false, ◌&&◌, not, ◌==◌, Option, none, some, List, [],
  ◌∷◌, is_empty, is_some, if◌then◌else◌, Result, ok, err, Act, pure, fail, ◌>>=◌, ◌>>◌,
}
use git_bamboo.Prelude.Maps.{Map, get, insert}
use git_bamboo.Prelude.Text.{Text, codes, eq}
use git_bamboo.Protocol.{ℤ, Error, plain}
use git_bamboo.Cache.Store.{
  Table, commit_meta, commit_lanes, cache_epoch, repo_fingerprint, Value, Redb,
}

abbrev pub epoch_key : Text
epoch_key = codes "epoch"

abbrev pub fingerprint_key : Text
fingerprint_key = codes "fingerprint"

pub record CachedCommit : Type 0 where
  pub message : Text
  pub author_name : Text
  pub author_email : Text
  pub author_time : ℤ
  pub parent_ids : List Text

-- serde_json on a `CachedCommit`
pub record Codec : Type 0 where
  pub to_vec : CachedCommit → Result Error Text
  pub from_slice : Text → Option CachedCommit

abbrev pub lift : {S A : Type 0} → Result Error A → Act S Error A
lift r s = (r, s)

-- a row that cannot be read is left where it is
abbrev pub readable_keys : List (Result Error Text) → List Text
readable_keys [] = []
readable_keys (ok k ∷ entries) = k ∷ readable_keys entries
readable_keys (err _ ∷ entries) = readable_keys entries

abbrev same_fingerprint : Option Text → Text → Bool
same_fingerprint none fingerprint = false
same_fingerprint (some fp) fingerprint = eq fp fingerprint

-- `stored_epoch.unwrap_or(0) + 1`, a `u64`
unfoldable pub next_epoch : Option ℕ → ℕ
next_epoch none = 1
next_epoch (some e) = (e + 1) % 2 ^ 64

-- the epoch to reuse, if the stored fingerprint matches and there is one
unfoldable pub reusable : Option Text → Option ℕ → Text → Option ℕ
reusable stored_fp none fingerprint = none
reusable stored_fp (some e) fingerprint =
    if same_fingerprint stored_fp fingerprint then some e else none

-- what a transaction answers, by its commit
abbrev pub committed : {A : Type 0} → A → Result Error (Unit {0}) → Result Error A
committed a (ok _) = ok a
committed a (err e) = err e

abbrev pub is_epoch : Option ℕ → ℕ → Bool
is_epoch none e = false
is_epoch (some c) e = c == e

abbrev pub add_decoded : Text → Option CachedCommit → Map CachedCommit → Map CachedCommit
add_decoded id none out = out
add_decoded id (some meta) out = insert id meta out

abbrev pub add_meta : Codec → Text → Option Text → Map CachedCommit → Map CachedCommit
add_meta c id none out = out
add_meta c id (some bytes) out = add_decoded id (c.from_slice bytes) out

module _ (r : Redb) where
  abbrev pub end_write : {A : Type 0} → Result Error A → r.Txn → r.Db → Result Error A × r.Db
  end_write (err e) x d = (err e, d)
  end_write (ok a) x d = (committed a (r.commit x d).0, (r.commit x d).1)

  abbrev pub run_write :
      {A : Type 0} → Act r.Txn Error A → Result Error r.Txn → r.Db → Result Error A × r.Db
  run_write body (err e) d = (err e, d)
  run_write body (ok x) d = end_write (body x).0 (body x).1 d

  -- A write transaction around its body: `begin_write`, the body, `commit`. A body that fails drops it.
  unfoldable pub in_write : {A : Type 0} → Act r.Txn Error A → Act r.Db Error A
  in_write body d = run_write body (r.begin_write d).0 (r.begin_write d).1

  abbrev pub run_read : {A : Type 0} → Act r.Txn Error A → Result Error r.Txn → Result Error A
  run_read body (err e) = err e
  run_read body (ok x) = (body x).0

  unfoldable pub in_read : {A : Type 0} → Act r.Txn Error A → Act r.Db Error A
  in_read body d = (run_read body (r.begin_read d).0, (r.begin_read d).1)

  unfoldable pub remove_all : Table → List Text → Act r.Txn Error (Unit {0})
  remove_all t [] = pure tt
  remove_all t (k ∷ ks) = r.remove t k >> remove_all t ks

  -- `clear_table`
  unfoldable pub clear_table : Table → Act r.Txn Error (Unit {0})
  unfolding remove_all
  clear_table t = do entries ← r.iter t; remove_all t (readable_keys entries)

  -- the loop of `put_lanes_with_epoch`
  unfoldable pub insert_lanes : Map ℕ → Act r.Txn Error (Unit {0})
  insert_lanes [] = pure tt
  insert_lanes ((id, lane) ∷ lanes) = r.insert commit_lanes id lane >> insert_lanes lanes

  unfoldable pub put_lanes_with_epoch : Map ℕ → ℕ → Act r.Db Error (Unit {0})
  unfolding in_write insert_lanes
  put_lanes_with_epoch lanes epoch =
      if is_empty lanes
      then pure tt
      else in_write (do
        r.open_table commit_lanes
        insert_lanes lanes
        r.open_table cache_epoch
        r.insert cache_epoch epoch_key epoch)

  unfoldable pub get_cached_epoch : Act r.Db Error (Option ℕ)
  unfolding in_read
  get_cached_epoch = in_read (do r.open_table cache_epoch; r.find cache_epoch epoch_key)

  -- the transaction of `invalidate_on_epoch_change`
  unfoldable pub clear_lanes : ℕ → Act r.Txn Error (Unit {0})
  unfolding clear_table
  clear_lanes current_epoch = do
    r.open_table commit_lanes
    clear_table commit_lanes
    r.open_table cache_epoch
    r.insert cache_epoch epoch_key current_epoch

  unfoldable pub invalidate_on_epoch_change : ℕ → Act r.Db Error Bool
  unfolding in_write clear_lanes get_cached_epoch
  invalidate_on_epoch_change current_epoch = do
    cached ← get_cached_epoch
    if is_epoch cached current_epoch
        then pure false
        else in_write (clear_lanes current_epoch) >> pure true

  -- the three transactions of `open`
  unfoldable pub create_tables : Act r.Txn Error (Unit {0})
  create_tables = do
    r.open_table commit_meta
    r.open_table commit_lanes
    r.open_table cache_epoch
    r.open_table repo_fingerprint

  unfoldable pub stored_state : Act r.Txn Error (Option Text × Option ℕ)
  stored_state = do
    r.open_table repo_fingerprint
    fp ← r.find repo_fingerprint fingerprint_key
    r.open_table cache_epoch
    epoch ← r.find cache_epoch epoch_key
    pure (fp, epoch)

  unfoldable pub start_over : Text → ℕ → Act r.Txn Error (Unit {0})
  unfolding clear_table create_tables
  start_over fingerprint new_epoch = do
    create_tables
    clear_table commit_meta
    clear_table commit_lanes
    r.insert cache_epoch epoch_key new_epoch
    r.insert repo_fingerprint fingerprint_key fingerprint

  abbrev pub choose : Text → Option ℕ → Option ℕ → Act r.Db Error ℕ
  choose fingerprint stored_epoch (some e) = pure e
  choose fingerprint stored_epoch none =
      in_write (start_over fingerprint (next_epoch stored_epoch)) >> pure (next_epoch stored_epoch)

  -- The part of `open` behind the opening of the database: the tables, the stored state, and the
  -- epoch to start with.
  unfoldable pub reconcile : Text → Act r.Db Error ℕ
  unfolding in_write in_read create_tables stored_state start_over
  reconcile fingerprint = do
    in_write create_tables
    (stored_fp, stored_epoch) ← in_read stored_state
    choose fingerprint stored_epoch (reusable stored_fp stored_epoch fingerprint)

  module _ (c : Codec) where
    unfoldable pub insert_metas : Map CachedCommit → Act r.Txn Error (Unit {0})
    insert_metas [] = pure tt
    insert_metas ((id, meta) ∷ entries) = do
      bytes ← lift (c.to_vec meta)
      r.insert commit_meta id bytes
      insert_metas entries

    unfoldable pub put_commit_metas : Map CachedCommit → Act r.Db Error (Unit {0})
    unfolding in_write insert_metas
    put_commit_metas entries =
        if is_empty entries
        then pure tt
        else in_write (r.open_table commit_meta >> insert_metas entries)

    -- the loop of `get_commit_metas`
    unfoldable pub find_metas : List Text → Map CachedCommit → Act r.Txn Error (Map CachedCommit)
    find_metas [] out = pure out
    find_metas (id ∷ ids) out =
        if is_some (get id out)
        then find_metas ids out
        else do bytes ← r.find commit_meta id; find_metas ids (add_meta c id bytes out)

    unfoldable pub get_commit_metas : List Text → Act r.Db Error (Map CachedCommit)
    unfolding in_read find_metas
    get_commit_metas ids = in_read (r.open_table commit_meta >> find_metas ids [])
