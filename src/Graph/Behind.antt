-- ===== src/Graph/Behind.antt =====
-- The last reading of the epoch in `read_graph_page` of crates/engine/src/gix_read.rs.
use git_bamboo.Prelude.{
  if◌then◌else◌, ℕ, ◌==◌, ==_iff, is_empty, map, List, Result, ok, err, Act, pure, ◌>>=◌, fail,
  Post, Post-fail, Post-pure, Post-if, Post-bind, ◌≡◌, refl, sym, ◌∙◌, ◌⊎◌, inl, inr,
}
use git_bamboo.Prelude.Text.{Text}
use git_bamboo.Protocol.{Error, Commit, GraphViewport, GraphPage}
use git_bamboo.Cache.{
  Codec, invalidate_on_epoch_change, get_commit_metas, put_commit_metas, put_lanes_with_epoch, lift,
}
use git_bamboo.Cache.Store.{Redb}
use git_bamboo.Graph.{
  read_graph_page, read_rows, lay_out, read_tips, is_stale, take_ids, resolve, ignoring,
  id_and_lane, empty_page,
}
use git_bamboo.Graph.Lanes.{assign_lanes}
use git_bamboo.Graph.Page.{page_of, page_end}
use git_bamboo.Reader.{Repository, Reading, read_epoch, mismatch, guard_epoch, on_repo, on_cache}

module _ (p : Repository) (r : Redb) (c : Codec) where
  -- the last that has been read of the repository is the counter, and it was `n`
  abbrev pub IsReread : ℕ → Reading p r → Type 0
  IsReread n s = (w : p.World) × (s.world ≡ (p.current_epoch w).1) × ((p.current_epoch w).0 ≡ n)

  -- a page is that of a repository without refs, or the counter has been read behind all else
  abbrev pub Late : GraphViewport → Result Error GraphPage → Reading p r → Type 0
  Late v (ok page) s = (page ≡ empty_page v page.epoch) ⊎ IsReread page.epoch s
  Late v (err e) s = Unit

  abbrev Any : Reading p r → Type 0
  Any s = Unit

  module _ (v : GraphViewport) (n : ℕ) where
    behind :
        {A : Type 0} (m : Act (Reading p r) Error A) (f : A → Act (Reading p r) Error GraphPage)
        → ((a : A) → Post Any (f a) (Late v))
        → Post Any (m >>= f) (Late v)
    behind m f k = Post-bind {Q = λ _. Any} m f (record { at = λ s h. tt }) k (λ e s q. tt)

    mismatch-Late : {P : Reading p r → Type 0} (actual : ℕ) → Post P (mismatch p r actual) (Late v)
    unfolding mismatch read_epoch ◌>>=◌ fail
    mismatch-Late actual = record { at = λ s h. tt }

    guard-Late :
        (rest : Act (Reading p r) Error GraphPage)
        → Post Any rest (Late v)
        → Post Any (guard_epoch p r n rest) (Late v)
    unfolding guard_epoch
    guard-Late rest k =
        behind (read_epoch p r) _
          (λ e. Post-if (e == n) rest (mismatch p r n) (λ _. k) (λ _. mismatch-Late n))

    -- what the reading of the counter leaves
    abbrev HasRead : Result Error ℕ → Reading p r → Type 0
    HasRead (ok e) s = IsReread e s
    HasRead (err e) s = Unit

    read-HasRead : Post Any (read_epoch p r) HasRead
    unfolding read_epoch
    read-HasRead = record { at = λ s h. (s.world, refl, refl) }

    last-Late :
        (page : GraphPage) → page.epoch ≡ n → Post Any (guard_epoch p r n (pure page)) (Late v)
    unfolding guard_epoch
    last-Late page h =
        Post-bind {Q = HasRead} (read_epoch p r) _ read-HasRead
          (λ e.
            Post-if (e == n) (pure page) (mismatch p r n)
              (λ y. Post-pure page λ s q. inr (q.0, q.1, q.2 ∙ (==_iff e n).0 y ∙ sym h))
              (λ _. mismatch-Late n))
          (λ e s q. tt)

    lay_out-Late : (rows : List Commit) → Post Any (lay_out p r c v n rows) (Late v)
    unfolding lay_out page_of
    lay_out-Late rows =
        behind
          (ignoring p r
            (on_cache p r (put_lanes_with_epoch r (map id_and_lane (assign_lanes rows)) n)))
          _ (λ _. last-Late _ refl)

    rows-Late : (tips : List Text) → Post Any (read_rows p r c v n tips) (Late v)
    unfolding read_rows
    rows-Late tips = behind (on_repo p r (p.rev_walk tips)) _ λ walk.
        behind (lift (take_ids (page_end v) walk)) _ λ ids. guard-Late _ (
          behind (on_cache p r (get_commit_metas r c ids)) _ λ cached.
            behind (resolve p r c cached ids) _ λ (commits, misses).
              behind (ignoring p r (on_cache p r (put_commit_metas r c misses))) _
                λ _. lay_out-Late commits)

    tips-Late :
        Post Any
          (do
            tips ← read_tips p r c
            if is_empty tips then pure (empty_page v n) else read_rows p r c v n tips)
          (Late v)
    tips-Late = behind (read_tips p r c) _ λ tips.
        Post-if (is_empty tips) _ _ (λ _. Post-pure _ (λ s h. inl refl)) (λ _. rows-Late tips)

  pub read_graph_page-Late : (v : GraphViewport) → Post Any (read_graph_page p r c v) (Late v)
  unfolding read_graph_page
  read_graph_page-Late v = behind v 0 (read_epoch p r) _ λ n.
      Post-if (is_stale v.epoch n) _ _ (λ _. Post-fail _ (λ s h. tt))
        (λ _. behind v n (on_cache p r (invalidate_on_epoch_change r n)) _ λ _. tips-Late v n)
