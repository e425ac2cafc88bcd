-- ===== src/Cache/Store.antt =====
-- The tables of crates/engine/src/cache.rs, and redb, the database that keeps them, as an interface:
-- its operations, and what its documentation says of them, seen as four maps.
use git_bamboo.Prelude.{
  ℕ, Bool, true, false, Option, none, some, List, any, if◌then◌else◌, Result, ok, err, Act, ◌≡◌,
}
use git_bamboo.Prelude.Text.{Text, eq}
use git_bamboo.Protocol.{Error}

pub data Table : Type 0 where
  commit_meta commit_lanes cache_epoch repo_fingerprint : Table

-- The key of every table is a text. The bytes of a commit's metadata are what serde_json writes.
abbrev pub Value : Table → Type 0
Value commit_meta = Text
Value commit_lanes = ℕ
Value cache_epoch = ℕ
Value repo_fingerprint = Text

pub record Views : Type 0 where
  pub metas : Text → Option Text
  pub lanes : Text → Option ℕ
  pub epochs : Text → Option ℕ
  pub fingerprints : Text → Option Text

abbrev pub look : (t : Table) → Views → Text → Option (Value t)
look commit_meta s = s.metas
look commit_lanes s = s.lanes
look cache_epoch s = s.epochs
look repo_fingerprint s = s.fingerprints

abbrev pub replace : (t : Table) → (Text → Option (Value t)) → Views → Views
replace commit_meta f s = record s { metas = f }
replace commit_lanes f s = record s { lanes = f }
replace cache_epoch f s = record s { epochs = f }
replace repo_fingerprint f s = record s { fingerprints = f }

abbrev pub assign {ℓ} : {A : Type ℓ} → Text → A → (Text → A) → Text → A
assign k v f q = if eq q k then v else f q

abbrev pub put : (t : Table) → Text → Option (Value t) → Views → Views
put t k v s = replace t (assign k v (look t s)) s

-- a table without its values, those apart whose rows cannot be read
abbrev pub empty : (Table → Text → Bool) → Table → Views → Views
empty unreadable t s = replace t (λ q. if unreadable t q then look t s q else none) s

abbrev pub is_key : Text → Result Error Text → Bool
is_key q (ok k) = eq q k
is_key q (err _) = false

-- A database and a transaction on it. Every operation may fail; a transaction that is dropped before
-- its commit is aborted.
pub record Redb : Type 1 where
  pub Db : Type 0
  pub Txn : Type 0
  pub begin_read : Act Db Error Txn
  pub begin_write : Act Db Error Txn
  pub commit : Txn → Act Db Error (Unit {0})
  pub open_table : Table → Act Txn Error (Unit {0})
  pub find : (t : Table) → Text → Act Txn Error (Option (Value t))
  pub insert : (t : Table) → Text → Value t → Act Txn Error (Unit {0})
  pub remove : Table → Text → Act Txn Error (Unit {0})
  -- the keys of a table, each of which may be unreadable
  pub iter : Table → Act Txn Error (List (Result Error Text))

-- What redb documents: a transaction begins with what the database holds, sees its own changes, and
-- takes effect as a whole when a commit succeeds and not at all when it fails; a listing of keys that
-- begins shows every key, except for those whose rows it yields as errors, if the file is damaged.
pub record IsStore (r : Redb) : Type 0 where
  pub db_views : r.Db → Views
  pub txn_views : r.Txn → Views
  pub begin_read_sees :
      (d : r.Db) (x : r.Txn) → (r.begin_read d).0 ≡ ok x → txn_views x ≡ db_views d
  pub begin_read_keeps : (d : r.Db) → db_views (r.begin_read d).1 ≡ db_views d
  pub begin_write_sees :
      (d : r.Db) (x : r.Txn) → (r.begin_write d).0 ≡ ok x → txn_views x ≡ db_views d
  pub begin_write_keeps : (d : r.Db) → db_views (r.begin_write d).1 ≡ db_views d
  pub commit_applies :
      (x : r.Txn) (d : r.Db) → (r.commit x d).0 ≡ ok tt → db_views (r.commit x d).1 ≡ txn_views x
  pub commit_fails :
      (x : r.Txn) (d : r.Db) (e : Error)
      → (r.commit x d).0 ≡ err e
      → db_views (r.commit x d).1 ≡ db_views d
  pub open_table_keeps : (t : Table) (x : r.Txn) → txn_views (r.open_table t x).1 ≡ txn_views x
  pub find_keeps : (t : Table) (k : Text) (x : r.Txn) → txn_views (r.find t k x).1 ≡ txn_views x
  pub find_finds :
      (t : Table) (k : Text) (x : r.Txn) (o : Option (Value t))
      → (r.find t k x).0 ≡ ok o
      → o ≡ look t (txn_views x) k
  pub insert_puts :
      (t : Table) (k : Text) (v : Value t) (x : r.Txn)
      → (r.insert t k v x).0 ≡ ok tt
      → txn_views (r.insert t k v x).1 ≡ put t k (some v) (txn_views x)
  pub remove_puts :
      (t : Table) (k : Text) (x : r.Txn)
      → (r.remove t k x).0 ≡ ok tt
      → txn_views (r.remove t k x).1 ≡ put t k none (txn_views x)
  pub unreadable : Table → Text → Bool
  pub iter_keeps : (t : Table) (x : r.Txn) → txn_views (r.iter t x).1 ≡ txn_views x
  pub iter_lists :
      (t : Table) (x : r.Txn) (entries : List (Result Error Text))
      → (r.iter t x).0 ≡ ok entries
      → (k : Text) → unreadable t k ≡ false
      → any (is_key k) entries ≡ false
      → look t (txn_views x) k ≡ none
  pub iter_skips :
      (t : Table) (x : r.Txn) (entries : List (Result Error Text))
      → (r.iter t x).0 ≡ ok entries
      → (k : Text) → unreadable t k ≡ true
      → any (is_key k) entries ≡ false
