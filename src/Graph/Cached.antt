-- ===== src/Graph/Cached.antt =====
-- About the epoch in the cache after `read_graph_page` of crates/engine/src/gix_read.rs.
use mathlib.Core.Path.{subst}
use git_bamboo.Prelude.{
  ℕ, Bool, true, Bool-cases, Option, some, none, [], ◌∷◌, Result, ok, err, Result-cases, Act,
  Preserves, Post, Post-if, Post-fail, Post_mono, Post-bind, ==_iff, ◌≡◌, refl, ap, ◌∙◌, inl, inr,
}
use git_bamboo.Prelude.Maps.{Map}
use git_bamboo.Prelude.Text.{Text, eq}
use git_bamboo.Protocol.{Error, GraphViewport, GraphPage}
use git_bamboo.Cache.{
  CachedCommit, Codec, epoch_key, is_epoch, invalidate_on_epoch_change, get_commit_metas,
  put_commit_metas, put_lanes_with_epoch,
}
use git_bamboo.Cache.Store.{Table, Views, Redb, IsStore, commit_meta, put}
use git_bamboo.Cache.Atomic.{Atomic}
use git_bamboo.Cache.Refinement.{
  invalidated, store_lanes, put_lanes_with_epoch-Atomic, invalidate_on_epoch_change-Atomic,
}
use git_bamboo.Cache.RoundTrip.{
  IsCodec, store_metas, get_commit_metas-Atomic, put_commit_metas-Atomic,
}
use git_bamboo.Graph.{read_graph_page, is_stale}
use git_bamboo.Graph.Guards.{Kept, Looked, Answered, read_body-Answered}
use git_bamboo.Reader.{Repository, Reading, read_epoch, on_repo, on_cache}

-- the tables hold the epoch `n`
abbrev Holds : ℕ → Views → Type 0
Holds n t = t.epochs epoch_key ≡ some n

store_metas-epochs :
    (bytes : CachedCommit → Text) (entries : Map CachedCommit) (t : Views)
    → (store_metas bytes entries t).epochs ≡ t.epochs
store_metas-epochs bytes [] t = refl
store_metas-epochs bytes ((id, meta) ∷ entries) t =
    store_metas-epochs bytes entries (put commit_meta id (some (bytes meta)) t)

store_lanes-Holds :
    (n : ℕ) (lanes : Map ℕ) (t : Views) → Holds n t → Holds n (store_lanes lanes n t)
unfolding eq
store_lanes-Holds n [] t h = h
store_lanes-Holds n (l ∷ lanes) t h = refl

is_epoch-some : (o : Option ℕ) (n : ℕ) → is_epoch o n ≡ true → o ≡ some n
is_epoch-some none n h = cc
is_epoch-some (some e) n h = ap some ((==_iff e n).0 h)

invalidated-Holds : (u : Table → Text → Bool) (n : ℕ) (t : Views) → Holds n (invalidated u n t)
unfolding eq
invalidated-Holds u n t = elim (Bool-cases (is_epoch (t.epochs epoch_key) n)) [
  | inl y ↦ rw y (is_epoch-some (t.epochs epoch_key) n y)
  | inr m ↦ rw m refl
]

module _ (p : Repository) (r : Redb) (c : Codec) (w : IsStore r) (k : IsCodec c) where
  abbrev InCache : ℕ → Reading p r → Type 0
  InCache n s = Holds n (w.db_views s.cache)

  on_cache-InCache :
      {A : Type 0} {g : Views → A} {f : Views → Views} (n : ℕ) (m : Act r.Db Error A)
      → Atomic w.db_views m g f
      → ((t : Views) → Holds n t → Holds n (f t))
      → Preserves (InCache n) (on_cache p r m)
  unfolding on_cache
  on_cache-InCache n m v i = record {
    at = λ s h. elim (Result-cases (m s.cache).0) [
      | inl (a, e) ↦ rw (v.done s.cache a e).1 (i (w.db_views s.cache) h)
      | inr (x, e) ↦ rw (v.failed s.cache x e) h
    ];
  }

  read_epoch-Looked : (n : ℕ) → Post (InCache n) (read_epoch p r) (Looked p r c n (InCache n))
  unfolding read_epoch
  read_epoch-Looked n = record { at = λ s h e. h }

  on_repo-InCache :
      {A : Type 0} (n : ℕ) (m : Act p.World Error A) → Preserves (InCache n) (on_repo p r m)
  unfolding on_repo
  on_repo-InCache n m = record { at = λ s h. h }

  InCache-Kept : (n : ℕ) → Kept p r c n (InCache n)
  InCache-Kept n = record {
    looked = read_epoch-Looked n;
    repo = λ A m. on_repo-InCache n m;
    metas_read = λ ids.
        on_cache-InCache n (get_commit_metas r c ids) (get_commit_metas-Atomic c r w ids)
          (λ t h. h);
    metas_stored = λ entries.
        on_cache-InCache n (put_commit_metas r c entries) (put_commit_metas-Atomic c r w k entries)
          (λ t h. ap (λ f. f epoch_key) (store_metas-epochs k.bytes entries t) ∙ h);
    lanes_stored = λ lanes.
        on_cache-InCache n (put_lanes_with_epoch r lanes n)
          (put_lanes_with_epoch-Atomic r w lanes n) (store_lanes-Holds n lanes);
  }

  -- an invalidation that succeeds
  abbrev Invalidated : ℕ → Result Error Bool → Reading p r → Type 0
  Invalidated n (ok b) s = InCache n s
  Invalidated n (err e) s = Unit

  after :
      (n : ℕ) (x : Result Error Bool) (s : Reading p r)
      → ((b : Bool) → x ≡ ok b → InCache n s)
      → Invalidated n x s
  after n (ok b) s f = f b refl
  after n (err e) s f = tt

  invalidate-Invalidated :
      (n : ℕ) → Post (λ s. Unit {0}) (on_cache p r (invalidate_on_epoch_change r n)) (Invalidated n)
  unfolding on_cache
  invalidate-Invalidated n = record {
    at = λ s h.
        after n (invalidate_on_epoch_change r n s.cache).0
          (on_cache p r (invalidate_on_epoch_change r n) s).1
          (λ b e.
            rw ((invalidate_on_epoch_change-Atomic r w n).done s.cache b e).1
              (invalidated-Holds w.unreadable n (w.db_views s.cache)));
  }

  abbrev Stored : Result Error GraphPage → Reading p r → Type 0
  Stored (ok page) s = InCache page.epoch s
  Stored (err e) s = Unit

  Answered-Stored :
      (n : ℕ) (v : GraphViewport) (x : Result Error GraphPage) (s : Reading p r)
      → Answered p r c n v (InCache n) x s
      → Stored x s
  Answered-Stored n v (ok page) s (e, l, h) = rw e h
  Answered-Stored n v (err e) s h = tt

  read_graph_page-Stored :
      (v : GraphViewport) → Post (λ s. Unit {0}) (read_graph_page p r c v) Stored
  unfolding read_graph_page
  read_graph_page-Stored v =
      Post-bind {Q = λ _ s. Unit {0}} (read_epoch p r) _ (record { at = λ s h. tt })
        (λ n.
          Post-if (is_stale v.epoch n) _ _ (λ _. Post-fail _ (λ s h. tt))
            (λ _.
              Post_mono _
                (Post-bind (on_cache p r (invalidate_on_epoch_change r n)) _
                  (invalidate-Invalidated n)
                  (λ _. read_body-Answered p r c n v (InCache n) (InCache-Kept n)) (λ e s q. tt))
                (Answered-Stored n v)))
        (λ e s q. tt)

  -- If the database is what redb documents and serde_json reads back what it writes, then the cache
  -- holds the epoch of a page that is returned, whatever epoch it held before and whether or not the
  -- metadata and the lanes of the page could be stored.
  pub read_graph_page-epoch :
      (v : GraphViewport) (s : Reading p r) (page : GraphPage)
      → (read_graph_page p r c v s).0 ≡ ok page
      → (w.db_views (read_graph_page p r c v s).1.cache).epochs epoch_key ≡ some page.epoch
  read_graph_page-epoch v s page i =
      subst (λ x. Stored x (read_graph_page p r c v s).1) i ((read_graph_page-Stored v).at s tt)
