-- ===== src/Server/Dispatch/Table.antt =====
-- `dispatch_with_session` of crates/engine/src/server.rs, method by method.
use git_bamboo.Prelude.{Option, none, some, List, ◌++◌, Result, err, Act}
use git_bamboo.Prelude.Text.{Text, codes}
use git_bamboo.Protocol.{Error, BambooError, invalid_argument, downcast_or_git_error}
use git_bamboo.Host.{Host}
use git_bamboo.Cache.{Codec}
use git_bamboo.Cache.Store.{Redb}
use git_bamboo.Reader.{Repository, Reading}
use git_bamboo.Reader.Status.{Item, read_status}
use git_bamboo.Reader.Refs.{read_refs, read_head}
use git_bamboo.Reader.Blobs.{read_blob}
use git_bamboo.Reader.Details.{Objects, read_commit_detail}
use git_bamboo.Reader.Branches.{read_remotes, read_branch_status, read_stash_list}
use git_bamboo.Graph.{read_graph_page}
use git_bamboo.WriteQueue.Command.{WriteCommand}
use git_bamboo.Server.Methods.{
  Method, get_refs, get_blob, get_commit_detail, get_head, get_graph, get_status, stage, unstage,
  discard, resolve_conflict, commit, create_branch, delete_branch, switch_branch, fetch, pull, push,
  stash_push, stash_pop, stash_drop, get_remotes, get_branch_status, stash_list, list_undo_stack,
  undo, Params, Reply, parse_method, refs, content, detail, head, page, items, remotes, status,
  stashes,
}
use git_bamboo.Server.Dispatch.{
  Rpc, Serving, Handling, queued, clamp_limit, capped, flat, enqueue_undo, finished, with_params,
  answer_read, quietly, with_output, undo_after, answer_list,
}

-- what a server stands on: serde_json, gix and git, redb, the metadata codec, the write side's host
pub record Backend : Type 1 where
  pub rpc : Rpc
  pub repository : Repository
  pub redb : Redb
  pub codec : Codec
  pub host : Host
  pub objects : Objects repository.World
  pub gix_status : Act repository.World Error (List (Result Error Item))

module _ (b : Backend) where
  open b use {rpc, repository, redb, codec, host, objects, gix_status}

  abbrev pub State : Type 0
  State = Serving repository redb host

  abbrev pub Handled : Type 0
  Handled = Handling rpc repository redb host × State

  abbrev with : (m : Method) → rpc.Value → (Params m → State → Handled) → State → Handled
  with = with_params rpc repository redb host

  abbrev reads :
      {A : Type 0}
      → (Error → BambooError)
      → (A → Reply)
      → Act (Reading repository redb) Error A
      → State
      → Handled
  reads = answer_read rpc repository redb host

  abbrev quiet : WriteCommand → State → Handled
  quiet = quietly rpc repository redb host

  abbrev loud : WriteCommand → State → Handled
  loud = with_output rpc repository redb host

  unknown_method : Text → BambooError
  unknown_method name = invalid_argument (codes "unknown method: " ++ name)

  -- the later half of the match, one arm for each method
  unfoldable pub run_later : Text → Method → rpc.Value → State → Handled
  unfolding with_params answer_read unknown_method
  run_later name fetch v = with fetch v λ q. loud (WriteCommand.fetch q.remote)
  run_later name pull v =
      with pull v λ q. loud (WriteCommand.pull q.remote q.branch q.strategy q.auto_stash)
  run_later name push v =
      with push v λ q. loud (WriteCommand.push q.remote q.branch q.force q.set_upstream)
  run_later name stash_push v =
      with stash_push v
        λ q. loud (WriteCommand.stash_push q.message q.include_untracked q.staged_only)
  run_later name stash_pop v =
      with stash_pop v λ q. loud (WriteCommand.stash_pop q.stash_ref q.apply q.reinstate_index)
  run_later name stash_drop v = with stash_drop v λ q. loud (WriteCommand.stash_drop q.stash_ref)
  run_later name get_remotes v =
      with get_remotes v λ q. reads flat remotes (read_remotes repository redb)
  run_later name get_branch_status v =
      with get_branch_status v
        λ q. reads downcast_or_git_error status (read_branch_status repository redb q.branch)
  run_later name stash_list v = reads flat stashes (read_stash_list repository redb)
  run_later name list_undo_stack v =
      with list_undo_stack v λ q. answer_list rpc repository redb host (clamp_limit q.limit)
  run_later name undo v = with undo v λ q s. (
    queued (WriteCommand.undo q.transaction_id)
        (λ d. undo_after rpc repository redb host q.transaction_id (enqueue_undo d)),
    s,
  )
  run_later name m v = finished rpc repository redb host (err (unknown_method name))

  -- the whole match
  unfoldable pub run_method : Text → Method → rpc.Value → State → Handled
  unfolding with_params answer_read run_later
  run_method name get_refs v = reads flat refs (read_refs repository redb)
  run_method name get_blob v =
      with get_blob v λ q. reads flat content (read_blob repository redb q.revision q.path)
  run_method name get_commit_detail v =
      with get_commit_detail v
        λ q. reads downcast_or_git_error detail (read_commit_detail repository redb objects q.id)
  run_method name get_head v = reads flat head (read_head repository redb)
  run_method name get_graph v = with get_graph v λ q.
      reads downcast_or_git_error page (read_graph_page repository redb codec (capped q.viewport))
  run_method name get_status v =
      with get_status v λ q. reads flat items (read_status repository redb gix_status q.paths)
  run_method name stage v = with stage v λ q. quiet (WriteCommand.stage q.paths)
  run_method name unstage v = with unstage v λ q. quiet (WriteCommand.unstage q.paths)
  run_method name discard v = with discard v λ q. quiet (WriteCommand.discard q.paths)
  run_method name resolve_conflict v =
      with resolve_conflict v λ q. loud (WriteCommand.resolve_conflict q.path q.resolution)
  run_method name commit v = with commit v λ q. quiet (WriteCommand.commit q.message q.amend)
  run_method name create_branch v =
      with create_branch v λ q. quiet (WriteCommand.create_branch q.name q.base)
  run_method name delete_branch v =
      with delete_branch v λ q. quiet (WriteCommand.delete_branch q.name q.force)
  run_method name switch_branch v =
      with switch_branch v λ q. loud (WriteCommand.switch_branch q.name q.auto_stash)
  run_method name m v = run_later name m v

  unfoldable pub run_known : Text → rpc.Value → Option Method → State → Handled
  unfolding run_method unknown_method
  run_known name v none = finished rpc repository redb host (err (unknown_method name))
  run_known name v (some m) = run_method name m v

  unfoldable pub dispatch_with_session : Text → rpc.Value → State → Handled
  unfolding run_known parse_method
  dispatch_with_session name v = run_known name v (parse_method name)
