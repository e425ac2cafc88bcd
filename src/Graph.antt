-- ===== src/Graph.antt =====
-- `read_graph_page` of crates/engine/src/gix_read.rs: a page of the commit graph with its lanes.
pub mod Lanes
pub mod Page
pub mod Guards
pub mod Behind
pub mod Current
pub mod Cached
pub mod Limits
use git_bamboo.Prelude.{
  ℕ, zero, suc, ◌-◌, Bool, true, false, not, ◌&&◌, ◌==◌, Option, none, some, List, [], ◌∷◌, ◌++◌,
  map, any, is_empty, if◌then◌else◌, Result, ok, err, Act, pure, fail, ◌>>=◌, ◌>>◌,
}
use git_bamboo.Prelude.Maps.{Map, get}
use git_bamboo.Prelude.Text.{Text, eq}
use git_bamboo.Protocol.{Error, structured, epoch_mismatch, Commit, GraphViewport, GraphPage}
use git_bamboo.Cache.{
  CachedCommit, Codec, invalidate_on_epoch_change, get_commit_metas, put_commit_metas,
  put_lanes_with_epoch, lift,
}
use git_bamboo.Cache.Store.{Redb}
use git_bamboo.Graph.Lanes.{assign_lanes}
use git_bamboo.Graph.Page.{page_end, page_of}
use git_bamboo.Reader.{
  Reference, Repository, Reading, read_epoch, on_repo, on_cache, ignoring, guard_epoch,
}

-- `if !tips.contains(&id)`
abbrev pub add_tip : Text → List Text → List Text
add_tip id tips = if any (eq id) tips then tips else tips ++ id ∷ []

abbrev pub add_peeled : Result Error Text → List Text → List Text
add_peeled (ok id) tips = add_tip id tips
add_peeled (err _) tips = tips

-- the loop over the refs: one that resolves to no commit is skipped
unfoldable pub collect_tips : List (Result Error Reference) → List Text → Result Error (List Text)
collect_tips [] tips = ok tips
collect_tips (err e ∷ refs) tips = err e
collect_tips (ok ref ∷ refs) tips = collect_tips refs (add_peeled ref.peeled tips)

abbrev and_id : Text → Result Error (List Text) → Result Error (List Text)
and_id id (ok ids) = ok (id ∷ ids)
and_id id (err e) = err e

-- the loop over the walk, with the number of ids that are still wanted; the id that ends the loop
-- must be readable too
unfoldable pub take_ids : ℕ → List (Result Error Text) → Result Error (List Text)
take_ids n [] = ok []
take_ids n (err e ∷ walk) = err e
take_ids zero (ok id ∷ walk) = ok []
take_ids (suc n) (ok id ∷ walk) = and_id id (take_ids n walk)

abbrev pub to_commit : Text → CachedCommit → Commit
to_commit id meta = record {
  id = id;
  message = meta.message;
  author_name = meta.author_name;
  author_email = meta.author_email;
  author_time = meta.author_time;
  parent_ids = meta.parent_ids;
  lane = 0;
}

abbrev pub id_and_lane : Commit → Text × ℕ
id_and_lane c = (c.id, c.lane)

abbrev pub empty_page : GraphViewport → ℕ → GraphPage
empty_page v epoch = record {
  commits = [];
  total_approx = 0;
  has_more = false;
  epoch = epoch;
  anchor_commit = v.anchor_commit;
}

-- `viewport.epoch != 0 && viewport.epoch != current_epoch`
abbrev pub is_stale : ℕ → ℕ → Bool
is_stale e current_epoch = not (e == 0) && not (e == current_epoch)

module _ (p : Repository) (r : Redb) (c : Codec) where
  abbrev pub resolve_one :
      Text
      → Option CachedCommit
      → Act (Reading p r) Error (List Commit × Map CachedCommit)
      → Act (Reading p r) Error (List Commit × Map CachedCommit)
  resolve_one id (some meta) rest = do
    (commits, misses) ← rest
    pure (to_commit id meta ∷ commits, misses)
  resolve_one id none rest = do
    meta ← on_repo p r (p.find_commit id)
    (commits, misses) ← rest
    pure (to_commit id meta ∷ commits, (id, meta) ∷ misses)

  -- the loop over the ids: the commits, and those that the cache did not have
  unfoldable pub resolve :
      Map CachedCommit → List Text → Act (Reading p r) Error (List Commit × Map CachedCommit)
  resolve cached [] = pure ([], [])
  resolve cached (id ∷ ids) = resolve_one id (get id cached) (resolve cached ids)

  -- the tips of the refs and HEAD
  unfoldable pub read_tips : Act (Reading p r) Error (List Text)
  unfolding collect_tips
  read_tips = do
    refs ← on_repo p r p.references
    tips ← lift (collect_tips refs [])
    λ s. (
      ok (add_peeled (p.head_commit s.world).0 tips),
      record s { world = (p.head_commit s.world).1 },
    )

  -- from the metadata to the page
  unfoldable pub lay_out : GraphViewport → ℕ → List Commit → Act (Reading p r) Error GraphPage
  lay_out v current_epoch rows = do
    let commits = assign_lanes rows
    ignoring p r (on_cache p r (put_lanes_with_epoch r (map id_and_lane commits) current_epoch))
    guard_epoch p r current_epoch (pure (page_of v current_epoch commits))

  -- from the walk to the page
  unfoldable pub read_rows : GraphViewport → ℕ → List Text → Act (Reading p r) Error GraphPage
  unfolding resolve lay_out take_ids
  read_rows v current_epoch tips = do
    walk ← on_repo p r (p.rev_walk tips)
    ids ← lift (take_ids (page_end v) walk)
    guard_epoch p r current_epoch (do
      cached ← on_cache p r (get_commit_metas r c ids)
      (commits, misses) ← resolve cached ids
      ignoring p r (on_cache p r (put_commit_metas r c misses))
      lay_out v current_epoch commits)

  unfoldable pub read_graph_page : GraphViewport → Act (Reading p r) Error GraphPage
  unfolding read_tips read_rows
  read_graph_page v = do
    current_epoch ← read_epoch p r
    if is_stale v.epoch current_epoch
        then fail (structured (epoch_mismatch current_epoch v.epoch))
        else (do
          on_cache p r (invalidate_on_epoch_change r current_epoch)
          tips ← read_tips
          if is_empty tips
              then pure (empty_page v current_epoch)
              else read_rows v current_epoch tips)
