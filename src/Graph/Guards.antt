-- ===== src/Graph/Guards.antt =====
-- What the steps of `read_graph_page` in crates/engine/src/gix_read.rs keep, for any property of the
-- state that single calls keep.
use git_bamboo.Prelude.{
  arith, ◌≤◌, length, length-take, take, drop, ℕ, if◌then◌else◌, ◌==◌, ==_iff, Option, none, some,
  List, [], ◌∷◌, map, is_empty, Result, ok, err, Act, pure, fail, ◌>>=◌, Preserves, Preserves-pure,
  Preserves-bind, Post, Post-pure, Post-if, Post-bind, ◌≡◌, refl,
}
use git_bamboo.Prelude.Maps.{Map, get}
use git_bamboo.Prelude.Text.{Text}
use git_bamboo.Protocol.{Error, Commit, GraphViewport, GraphPage}
use git_bamboo.Cache.{
  CachedCommit, Codec, get_commit_metas, put_commit_metas, put_lanes_with_epoch, lift,
}
use git_bamboo.Cache.Store.{Redb}
use git_bamboo.Graph.{
  collect_tips, take_ids, id_and_lane, resolve_one, resolve, read_tips, lay_out, read_rows,
  empty_page,
}
use git_bamboo.Graph.Lanes.{assign_lanes}
use git_bamboo.Graph.Page.{page_end, page_start, page_of}
use git_bamboo.Reader.{
  Repository, Reading, read_epoch, on_repo, on_cache, ignoring, mismatch, guard_epoch,
}

take-le : {A : Type 0} (n : ℕ) (xs : List A) → length (take n xs) ≤ n
take-le n xs = omega (arith, length-take {0} n xs)

module _ (p : Repository) (r : Redb) (c : Codec) where
  -- the counter has just been read as `e`
  abbrev pub Looked : ℕ → (Reading p r → Type 0) → Result Error ℕ → Reading p r → Type 0
  Looked n P (ok e) s = e ≡ n → P s
  Looked n P (err e) s = Unit

  -- What single calls keep, in a reading that began at epoch `n`: only a reading of the counter may
  -- break it, when it gives another epoch.
  pub record Kept (n : ℕ) (P : Reading p r → Type 0) : Type 1 where
    pub looked : Post P (read_epoch p r) (Looked n P)
    pub repo : (A : Type 0) (m : Act p.World Error A) → Preserves P (on_repo p r m)
    pub metas_read : (ids : List Text) → Preserves P (on_cache p r (get_commit_metas r c ids))
    pub metas_stored :
        (entries : Map CachedCommit) → Preserves P (on_cache p r (put_commit_metas r c entries))
    pub lanes_stored : (lanes : Map ℕ) → Preserves P (on_cache p r (put_lanes_with_epoch r lanes n))

  -- a page is of epoch `n` and has no more rows than are asked for, and what is kept holds
  abbrev pub Answered :
      ℕ → GraphViewport → (Reading p r → Type 0) → Result Error GraphPage → Reading p r → Type 0
  Answered n v P (ok page) s = (page.epoch ≡ n) × (length page.commits ≤ v.limit) × P s
  Answered n v P (err e) s = Unit

  module _ (n : ℕ) (v : GraphViewport) (P : Reading p r → Type 0) (k : Kept n P) where
    ignoring-Preserves :
        {A : Type 0} (m : Act (Reading p r) Error A) → Preserves P m → Preserves P (ignoring p r m)
    unfolding ignoring
    ignoring-Preserves m v = record { at = λ s h. v.at s h }

    lift-Preserves : {A : Type 0} (o : Result Error A) → Preserves P (lift o)
    lift-Preserves o = record { at = λ s h. h }

    resolve_one-Preserves :
        (id : Text) (o : Option CachedCommit)
        (rest : Act (Reading p r) Error (List Commit × Map CachedCommit))
        → Preserves P rest
        → Preserves P (resolve_one p r c id o rest)
    resolve_one-Preserves id (some meta) rest v =
        Preserves-bind rest _ v λ (commits, misses). Preserves-pure _
    resolve_one-Preserves id none rest v =
        Preserves-bind (on_repo p r (p.find_commit id)) _ (k.repo _ (p.find_commit id))
          λ meta. Preserves-bind rest _ v λ (commits, misses). Preserves-pure _

    resolve-Preserves :
        (cached : Map CachedCommit) (ids : List Text) → Preserves P (resolve p r c cached ids)
    unfolding resolve
    resolve-Preserves cached [] = Preserves-pure ([], [])
    resolve-Preserves cached (id ∷ ids) =
        resolve_one-Preserves id (get id cached) (resolve p r c cached ids)
          (resolve-Preserves cached ids)

    -- HEAD is read as a call that cannot fail
    pub read_tips-Preserves : Preserves P (read_tips p r c)
    unfolding read_tips on_repo
    read_tips-Preserves =
        Preserves-bind (on_repo p r p.references) _ (k.repo _ p.references) λ refs.
          Preserves-bind (lift (collect_tips refs [])) _ (lift-Preserves (collect_tips refs []))
            λ tips. record { at = λ s h. (k.repo _ p.head_commit).at s h }

    -- a first part that reads no epoch
    pub Answered-behind :
        {A : Type 0} (m : Act (Reading p r) Error A) (f : A → Act (Reading p r) Error GraphPage)
        → Preserves P m
        → ((a : A) → Post P (f a) (Answered n v P))
        → Post P (m >>= f) (Answered n v P)
    Answered-behind m f v w = Post-bind {Q = λ _ s. P s} m f (record { at = v.at }) w (λ e s q. tt)

    mismatch-Answered :
        (actual e : ℕ) → Post (λ s. e ≡ n → P s) (mismatch p r actual) (Answered n v P)
    unfolding mismatch read_epoch ◌>>=◌ fail
    mismatch-Answered actual e = record { at = λ s h. tt }

    guard_epoch-Answered :
        (rest : Act (Reading p r) Error GraphPage)
        → Post P rest (Answered n v P)
        → Post P (guard_epoch p r n rest) (Answered n v P)
    unfolding guard_epoch
    guard_epoch-Answered rest v =
        Post-bind (read_epoch p r) _ k.looked
          (λ e.
            Post-if (e == n) rest (mismatch p r n)
              (λ y. record { at = λ s h. v.at s (h ((==_iff e n).0 y)) })
              (λ _. mismatch-Answered n e))
          (λ e s q. tt)

    lay_out-Answered : (rows : List Commit) → Post P (lay_out p r c v n rows) (Answered n v P)
    unfolding lay_out page_of
    lay_out-Answered rows =
        let entries = map id_and_lane (assign_lanes rows) in
        let store = on_cache p r (put_lanes_with_epoch r entries n) in
        Answered-behind (ignoring p r store) _ (ignoring-Preserves store (k.lanes_stored entries))
          (λ _. guard_epoch-Answered _ (
            Post-pure _ (λ s h. (
              refl,
              take-le v.limit (drop (page_start v (assign_lanes rows)) (assign_lanes rows)),
              h,
            ))))

    pub read_rows-Answered : (tips : List Text) → Post P (read_rows p r c v n tips) (Answered n v P)
    unfolding read_rows
    read_rows-Answered tips =
        Answered-behind (on_repo p r (p.rev_walk tips)) _ (k.repo _ (p.rev_walk tips)) λ walk.
          Answered-behind (lift (take_ids (page_end v) walk)) _
            (lift-Preserves (take_ids (page_end v) walk))
            λ ids. guard_epoch-Answered _ (
              Answered-behind (on_cache p r (get_commit_metas r c ids)) _ (k.metas_read ids)
                λ cached.
                  Answered-behind (resolve p r c cached ids) _ (resolve-Preserves cached ids)
                    λ (commits, misses).
                      Answered-behind (ignoring p r (on_cache p r (put_commit_metas r c misses))) _
                        (ignoring-Preserves (on_cache p r (put_commit_metas r c misses))
                          (k.metas_stored misses))
                        λ _. lay_out-Answered commits)

    -- what follows the invalidation
    pub read_body-Answered :
        Post P
          (do
            tips ← read_tips p r c
            if is_empty tips then pure (empty_page v n) else read_rows p r c v n tips)
          (Answered n v P)
    read_body-Answered = Answered-behind (read_tips p r c) _ read_tips-Preserves λ tips.
        Post-if (is_empty tips) _ _ (λ _. Post-pure _ (λ s h. (refl, omega arith, h)))
          (λ _. read_rows-Answered tips)
