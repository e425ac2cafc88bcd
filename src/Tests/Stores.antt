-- ===== src/Tests/Stores.antt =====
-- A database in memory, in which every call works, for the cache.
use mathlib.Core.Path.{fun_ext}
use git_bamboo.Prelude.{
  ℕ, false, none, some, List, [], ◌∷◌, any, if◌then◌else◌, Result, ok, ◌≡◌, refl, sym, ap, arith,
  ◌∙◌, ok_injective,
}
use git_bamboo.Prelude.Maps.{Map, get}
use git_bamboo.Prelude.Text.{Text, eq, eq_iff}
use git_bamboo.Protocol.{Error}
use git_bamboo.Cache.Store.{
  Table, commit_meta, commit_lanes, cache_epoch, repo_fingerprint, Value, Views, look, replace,
  assign, put, is_key, Redb, IsStore,
}

pub record Tables : Type 0 where
  pub metas : Map Text
  pub lanes : Map ℕ
  pub epochs : Map ℕ
  pub fingerprints : Map Text

module _ {V : Type 0} where
  abbrev without : Text → Map V → Map V
  without k [] = []
  without k ((q, v) ∷ m) = let rest = without k m in if eq k q then rest else (q, v) ∷ rest

  abbrev keys : Map V → List (Result Error Text)
  keys [] = []
  keys ((q, v) ∷ m) = ok q ∷ keys m

  get-keys : (m : Map V) (q : Text) → any (is_key q) (keys m) ≡ false → get q m ≡ none
  unfolding get
  get-keys [] q h = refl
  get-keys ((k, v) ∷ m) q h = ground (arith, get-keys m q)

  get-without :
      (k : Text) (m : Map V) (q : Text) → get q (without k m) ≡ assign k none (λ p. get p m) q
  unfolding get
  get-without k [] q = ground arith
  get-without k ((p, v) ∷ m) q =
      ground (arith, get-without k m q, eq_iff k p, eq_iff q k, eq_iff q p)

abbrev pub show_tables : Tables → Views
show_tables x = record {
  metas = λ q. get q x.metas;
  lanes = λ q. get q x.lanes;
  epochs = λ q. get q x.epochs;
  fingerprints = λ q. get q x.fingerprints;
}

abbrev pub insert_in : (t : Table) → Text → Value t → Tables → Tables
insert_in commit_meta k v x = record x { metas = (k, v) ∷ x.metas }
insert_in commit_lanes k v x = record x { lanes = (k, v) ∷ x.lanes }
insert_in cache_epoch k v x = record x { epochs = (k, v) ∷ x.epochs }
insert_in repo_fingerprint k v x = record x { fingerprints = (k, v) ∷ x.fingerprints }

abbrev pub remove_in : Table → Text → Tables → Tables
remove_in commit_meta k x = record x { metas = without k x.metas }
remove_in commit_lanes k x = record x { lanes = without k x.lanes }
remove_in cache_epoch k x = record x { epochs = without k x.epochs }
remove_in repo_fingerprint k x = record x { fingerprints = without k x.fingerprints }

abbrev pub keys_in : Table → Tables → List (Result Error Text)
keys_in commit_meta x = keys x.metas
keys_in commit_lanes x = keys x.lanes
keys_in cache_epoch x = keys x.epochs
keys_in repo_fingerprint x = keys x.fingerprints

abbrev pub memory : Redb
memory = record {
  Db = Tables;
  Txn = Tables;
  begin_read = λ d. (ok d, d);
  begin_write = λ d. (ok d, d);
  commit = λ x d. (ok tt, x);
  open_table = λ t x. (ok tt, x);
  find = λ t k x. (ok (look t (show_tables x) k), x);
  insert = λ t k v x. (ok tt, insert_in t k v x);
  remove = λ t k x. (ok tt, remove_in t k x);
  iter = λ t x. (ok (keys_in t x), x);
}

pub insert_in-puts :
    (t : Table) (k : Text) (v : Value t) (x : Tables)
    → show_tables (insert_in t k v x) ≡ put t k (some v) (show_tables x)
unfolding get
insert_in-puts commit_meta k v x = refl
insert_in-puts commit_lanes k v x = refl
insert_in-puts cache_epoch k v x = refl
insert_in-puts repo_fingerprint k v x = refl

pub remove_in-puts :
    (t : Table) (k : Text) (x : Tables)
    → show_tables (remove_in t k x) ≡ put t k none (show_tables x)
remove_in-puts commit_meta k x =
    ap (λ f. replace commit_meta f (show_tables x)) (fun_ext (get-without k x.metas))
remove_in-puts commit_lanes k x =
    ap (λ f. replace commit_lanes f (show_tables x)) (fun_ext (get-without k x.lanes))
remove_in-puts cache_epoch k x =
    ap (λ f. replace cache_epoch f (show_tables x)) (fun_ext (get-without k x.epochs))
remove_in-puts repo_fingerprint k x =
    ap (λ f. replace repo_fingerprint f (show_tables x)) (fun_ext (get-without k x.fingerprints))

pub keys_in-lists :
    (t : Table) (x : Tables) (q : Text)
    → any (is_key q) (keys_in t x) ≡ false
    → look t (show_tables x) q ≡ none
keys_in-lists commit_meta x q h = get-keys x.metas q h
keys_in-lists commit_lanes x q h = get-keys x.lanes q h
keys_in-lists cache_epoch x q h = get-keys x.epochs q h
keys_in-lists repo_fingerprint x q h = get-keys x.fingerprints q h

unfoldable pub memory-IsStore : IsStore memory
memory-IsStore = record {
  db_views = show_tables;
  txn_views = show_tables;
  begin_read_sees = λ d x h. ap show_tables (sym (ok_injective h));
  begin_read_keeps = λ d. refl;
  begin_write_sees = λ d x h. ap show_tables (sym (ok_injective h));
  begin_write_keeps = λ d. refl;
  commit_applies = λ x d h. refl;
  commit_fails = λ x d e h. cc;
  open_table_keeps = λ t x. refl;
  find_keeps = λ t k x. refl;
  find_finds = λ t k x o h. sym (ok_injective h);
  insert_puts = λ t k v x h. insert_in-puts t k v x;
  remove_puts = λ t k x h. remove_in-puts t k x;
  iter_keeps = λ t x. refl;
  unreadable = λ t k. false;
  iter_skips = λ t x entries h k u. cc;
  iter_lists =
      λ t x entries h k u i. keys_in-lists t x k (ap (any (is_key k)) (ok_injective h) ∙ i);
}
