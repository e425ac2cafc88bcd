-- ===== src/Server/Dispatch/Pages.antt =====
-- About the answers of `dispatch_with_session` in crates/engine/src/server.rs to `getGraph`.
use Prim.Native.Nat.{min}
use git_bamboo.Prelude.{
  ℕ, ◌≤◌, ◌>>=◌, Bool, true, false, Bool-cases, Option, none, some, List, [], ◌∷◌, ◌++◌, length,
  Result, ok, err, map_err, and_then, Result-cases, ok_injective, ◌==◌, ◌≡◌, refl, sym, ap, inl,
  inr, arith, ◌∙◌,
}
use git_bamboo.Prelude.Text.{Text, codes}
use git_bamboo.Protocol.{Error, BambooError, epoch_mismatch, GraphPage, downcast_or_git_error}
use git_bamboo.Protocol.Requests.{GetGraph}
use git_bamboo.Graph.{read_graph_page, is_stale}
use git_bamboo.Reader.{read_epoch}
use git_bamboo.Graph.Limits.{read_graph_page-limit}
use git_bamboo.Server.Methods.{get_graph, parse_method, Reply}
use git_bamboo.Server.Dispatch.{
  Handling, done, capped, parse_params, with_params, answer_read, to_json_value,
}
use git_bamboo.Server.Dispatch.Table.{
  Backend, State, Handled, run_method, run_known, dispatch_with_session,
}

get_graph-known : parse_method (codes "getGraph") ≡ some get_graph
unfolding parse_method git_bamboo.Prelude.Text.eq
get_graph-known = refl

module _ (b : Backend) where
  open b use {rpc, repository, redb, codec, host}

  -- what comes of `getGraph` whose parameters are read as `q`
  get_graph-run :
      (v : rpc.Value) (q : GetGraph) (s : State b)
      → rpc.from_value get_graph v ≡ ok q
      → dispatch_with_session b (codes "getGraph") v s
        ≡ answer_read rpc repository redb host downcast_or_git_error Reply.page
            (read_graph_page repository redb codec (capped q.viewport))
            s
  unfolding dispatch_with_session run_known run_method with_params parse_params
  get_graph-run v q s h = rw (get_graph-known, h) refl

  done_injective :
      (x y : Result BambooError rpc.Value)
      → ◌≡◌ {A = Handling rpc repository redb host} (done x) (done y)
      → x ≡ y
  done_injective x y h = cc

  serialized :
      (f : Text → BambooError) (x : Result Text rpc.Value) (value : rpc.Value)
      → map_err f x ≡ ok value
      → x ≡ ok value
  serialized f (ok a) value h = cc
  serialized f (err t) value h = cc

  page_of_value :
      (x : Result Error GraphPage) (value : rpc.Value)
      → and_then (map_err downcast_or_git_error x) (λ page. to_json_value rpc (Reply.page page))
        ≡ ok value
      → (page : GraphPage) × (x ≡ ok page) × (rpc.to_value (Reply.page page) ≡ ok value)
  unfolding to_json_value
  page_of_value (ok page) value h =
      (page, refl, serialized _ (rpc.to_value (Reply.page page)) value h)
  page_of_value (err e) value h = cc

  -- A page that `getGraph` answers with has at most 1000 commits, and at most as many as are asked
  -- for.
  pub get_graph-limit :
      (v : rpc.Value) (q : GetGraph) (s : State b) (value : rpc.Value)
      → rpc.from_value get_graph v ≡ ok q
      → (dispatch_with_session b (codes "getGraph") v s).0 ≡ done (ok value)
      → (page : GraphPage) × (rpc.to_value (Reply.page page) ≡ ok value)
        × (length page.commits ≤ min q.viewport.limit 1000)
  unfolding answer_read capped
  get_graph-limit v q s value h e =
      let (page, p, t) =
        page_of_value (read_graph_page repository redb codec (capped q.viewport) s.reading).0 value
          (done_injective _ _ (sym (ap (λ (x : Handled b). x.0) (get_graph-run v q s h)) ∙ e)) in
      (page, t, read_graph_page-limit repository redb codec (capped q.viewport) s.reading page p)

  -- If `getGraph` names an epoch that is not the current one, the request fails with the mismatch of
  -- the two, as a structured error, and neither the cache nor the write side has changed.
  pub get_graph-stale :
      (v : rpc.Value) (q : GetGraph) (s : State b)
      → rpc.from_value get_graph v ≡ ok q
      → (q.viewport.epoch ≡ 0 → ⊥)
      → (q.viewport.epoch ≡ (repository.current_epoch s.reading.world).0 → ⊥)
      → ((dispatch_with_session b (codes "getGraph") v s).0
          ≡ done
              (err (epoch_mismatch (repository.current_epoch s.reading.world).0 q.viewport.epoch)))
        × ((dispatch_with_session b (codes "getGraph") v s).1.reading.cache ≡ s.reading.cache)
        × ((dispatch_with_session b (codes "getGraph") v s).1.run ≡ s.run)
  unfolding answer_read capped read_graph_page read_epoch ◌>>=◌ downcast_or_git_error
  get_graph-stale v q s h n m =
      let e = (repository.current_epoch s.reading.world).0 in
      let stale : is_stale q.viewport.epoch e ≡ true = ground arith in
      rw (get_graph-run v q s h, stale) (refl, refl, refl)
