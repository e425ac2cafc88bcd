-- ===== src/Cache/RoundTrip.antt =====
-- About storing and reading commit metadata with crates/engine/src/cache.rs.
use git_bamboo.Prelude.{
  Bool, true, false, Bool-cases, Option, none, some, List, [], ◌∷◌, any, is_some, if◌then◌else◌, ok,
  ok_injective, ◌≡◌, refl, sym, ap, arith, ◌∙◌, inl, inr,
}
use git_bamboo.Prelude.Maps.{Map, get, insert, get-insert_same}
use git_bamboo.Prelude.Text.{Text, eq, eq_iff, eq-false}
use git_bamboo.Cache.Store.{commit_meta, Views, put, Redb, IsStore}
use git_bamboo.Cache.{
  CachedCommit, Codec, lift, insert_metas, put_commit_metas, add_meta, add_decoded, find_metas,
  get_commit_metas,
}
use git_bamboo.Cache.Atomic.{
  Turns, Atomic, Turns-pure, Turns-bind, Atomic-pure, in_write-Atomic, in_read-Atomic,
}
use git_bamboo.Cache.Refinement.{nothing, open_table-Turns, insert-Turns, find-Turns}

-- serde_json writes every `CachedCommit`, and reads back what it wrote
pub record IsCodec (c : Codec) : Type 0 where
  pub bytes : CachedCommit → Text
  pub writes : (m : CachedCommit) → c.to_vec m ≡ ok (bytes m)
  pub reads : (m : CachedCommit) → c.from_slice (bytes m) ≡ some m

abbrev pub or_else : {A : Type 0} → Option A → Option A → Option A
or_else (some a) o = some a
or_else none o = o

-- the entry that counts, of a list with several for a key
abbrev pub latest : {A : Type 0} → Text → Map A → Option A
latest id [] = none
latest id ((k, a) ∷ m) = or_else (latest id m) (if eq id k then some a else none)

abbrev found : Codec → Views → List Text → Map CachedCommit → Map CachedCommit
found c s [] out = out
found c s (id ∷ ids) out =
    if is_some (get id out)
    then found c s ids out
    else found c s ids (add_meta c id (s.metas id) out)

abbrev pub store_metas : (CachedCommit → Text) → Map CachedCommit → Views → Views
store_metas bytes [] s = s
store_metas bytes ((id, meta) ∷ entries) s =
    store_metas bytes entries (put commit_meta id (some (bytes meta)) s)

module _ (c : Codec) (r : Redb) (w : IsStore r) where
  find_metas-Turns :
      (ids : List Text) (out : Map CachedCommit)
      → Turns w.txn_views (find_metas r c ids out) (λ s. found c s ids out) (λ s. s)
  unfolding find_metas
  find_metas-Turns [] out = Turns-pure out
  find_metas-Turns (id ∷ ids) out = elim (Bool-cases (is_some (get id out))) [
    | inl y ↦ rw y (find_metas-Turns ids out)
    | inr n ↦ rw n (
        Turns-bind (r.find commit_meta id) (find-Turns r w commit_meta id)
          λ bytes. find_metas-Turns ids (add_meta c id bytes out))
  ]

  lift-Turns :
      (k : IsCodec c) (m : CachedCommit)
      → Turns w.txn_views (lift (c.to_vec m)) (λ s. k.bytes m) (λ s. s)
  lift-Turns k m = record { at = λ x a h. (ok_injective (sym h ∙ k.writes m), refl) }

  insert_metas-Turns :
      (k : IsCodec c) (entries : Map CachedCommit)
      → Turns w.txn_views (insert_metas r c entries) nothing (store_metas k.bytes entries)
  unfolding insert_metas
  insert_metas-Turns k [] = Turns-pure tt
  insert_metas-Turns k ((id, meta) ∷ entries) =
      Turns-bind (lift (c.to_vec meta)) (lift-Turns k meta) λ bytes.
        Turns-bind (r.insert commit_meta id bytes) (insert-Turns r w commit_meta id bytes)
          λ _. insert_metas-Turns k entries

  pub put_commit_metas-Atomic :
      (k : IsCodec c) (entries : Map CachedCommit)
      → Atomic w.db_views (put_commit_metas r c entries) nothing (store_metas k.bytes entries)
  unfolding put_commit_metas
  put_commit_metas-Atomic k [] = Atomic-pure tt
  put_commit_metas-Atomic k (e ∷ entries) = in_write-Atomic r w _ (
      Turns-bind (r.open_table commit_meta) (open_table-Turns r w commit_meta)
        λ _. insert_metas-Turns k (e ∷ entries))

  pub get_commit_metas-Atomic :
      (ids : List Text)
      → Atomic w.db_views (get_commit_metas r c ids) (λ s. found c s ids []) (λ s. s)
  unfolding get_commit_metas
  get_commit_metas-Atomic ids = in_read-Atomic r w _ (
      Turns-bind (r.open_table commit_meta) (open_table-Turns r w commit_meta)
        λ _. find_metas-Turns ids [])

abbrev pick : {A B : Type 0} → (A → B) → Option A → Option B → Option B
pick f (some a) o = some (f a)
pick f none o = o

pick-or_else :
    {A B : Type 0} (f : A → B) (o : Option A) (b : Bool) (a : A) (p : Option B)
    → pick f o (if b then some (f a) else p) ≡ pick f (or_else o (if b then some a else none)) p
pick-or_else f (some x) b a p = refl
pick-or_else f none true a p = refl
pick-or_else f none false a p = refl

-- the last entry with a key is the one that stays
store_metas-latest :
    (bytes : CachedCommit → Text) (entries : Map CachedCommit) (s : Views) (id : Text)
    → (store_metas bytes entries s).metas id ≡ pick bytes (latest id entries) (s.metas id)
store_metas-latest bytes [] s id = refl
store_metas-latest bytes ((k, meta) ∷ entries) s id =
    store_metas-latest bytes entries (put commit_meta k (some (bytes meta)) s) id
    ∙ pick-or_else bytes (latest id entries) (eq id k) meta (s.metas id)

module _ (c : Codec) (s : Views) (id : Text) where
  add_decoded-other :
      (q : Text) (o : Option CachedCommit) (out : Map CachedCommit)
      → eq id q ≡ false
      → get id (add_decoded q o out) ≡ get id out
  unfolding get insert
  add_decoded-other q none out n = refl
  add_decoded-other q (some m) out n = rw n refl

  add_meta-other :
      (q : Text) (o : Option Text) (out : Map CachedCommit)
      → eq id q ≡ false
      → get id (add_meta c q o out) ≡ get id out
  add_meta-other q none out n = refl
  add_meta-other q (some b) out n = add_decoded-other q (c.from_slice b) out n

  module _ (meta : CachedCommit) where
    other_key :
        (q : Text) (out : Map CachedCommit)
        → is_some (get q out) ≡ false
        → get id out ≡ some meta
        → eq id q ≡ false
    other_key q out n h = eq-false id q λ e. ground arith

    found_kept :
        (ids : List Text) (out : Map CachedCommit)
        → get id out ≡ some meta
        → get id (found c s ids out) ≡ some meta
    found_kept [] out h = h
    found_kept (q ∷ ids) out h = elim (Bool-cases (is_some (get q out))) [
      | inl y ↦ rw y (found_kept ids out h)
      | inr n ↦ rw n (
          found_kept ids (add_meta c q (s.metas q) out)
            (add_meta-other q (s.metas q) out (other_key q out n h) ∙ h))
    ]

    added :
        (b : Text) (out : Map CachedCommit)
        → s.metas id ≡ some b
        → c.from_slice b ≡ some meta
        → get id (add_meta c id (s.metas id) out) ≡ some meta
    added b out p q = rw p (rw q (get-insert_same id meta out))

    found_all :
        (ids : List Text) (out : Map CachedCommit) (b : Text)
        → s.metas id ≡ some b
        → c.from_slice b ≡ some meta
        → get id out ≡ none
        → any (eq id) ids ≡ true
        → get id (found c s ids out) ≡ some meta
    found_all [] out b p q n i = cc
    found_all (k ∷ ids) out b p q n i = elim (Bool-cases (eq id k)) [
      | inl y ↦
          let e = (eq_iff id k).0 y in
          rw (← e) (rw n (found_kept ids (add_meta c id (s.metas id) out) (added b out p q)))
      | inr m ↦ elim (Bool-cases (is_some (get k out))) [
        | inl y ↦ rw y (found_all ids out b p q n (ground arith))
        | inr w ↦ rw w (
            found_all ids (add_meta c k (s.metas k) out) b p q
              (add_meta-other k (s.metas k) out m ∙ n) (ground arith))
      ]
    ]

-- If metadata has been stored for some ids, a later reading that succeeds has, for every id that it
-- asks for and that was stored, the metadata of the last entry with that id.
pub get_commit_metas-put :
    (c : Codec) (r : Redb) (w : IsStore r) (k : IsCodec c) (entries : Map CachedCommit)
    (ids : List Text) (d : r.Db) (out : Map CachedCommit) (id : Text) (meta : CachedCommit)
    → (put_commit_metas r c entries d).0 ≡ ok tt
    → (get_commit_metas r c ids (put_commit_metas r c entries d).1).0 ≡ ok out
    → any (eq id) ids ≡ true
    → latest id entries ≡ some meta
    → get id out ≡ some meta
unfolding get
get_commit_metas-put c r w k entries ids d out id meta stored read asked last =
    let d' = (put_commit_metas r c entries d).1 in
    let now = ((put_commit_metas-Atomic c r w k entries).done d tt stored).1 in
    let got = ((get_commit_metas-Atomic c r w ids).done d' out read).0 in
    let there =
      ap (λ s. s.metas id) now
      ∙ store_metas-latest k.bytes entries (w.db_views d) id
      ∙ ap (λ o. pick k.bytes o ((w.db_views d).metas id)) last in
    rw got
      (found_all c (w.db_views d') id meta ids [] (k.bytes meta) there (k.reads meta) refl asked)
