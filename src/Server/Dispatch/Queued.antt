-- ===== src/Server/Dispatch/Queued.antt =====
-- About the commands that `dispatch_with_session` of crates/engine/src/server.rs sends to the write
-- queue.
use git_bamboo.Prelude.{ok, err, Act, ◌≡◌}
use git_bamboo.Prelude.Text.{Text}
use git_bamboo.Protocol.{BambooError, undo_blocked}
use git_bamboo.WriteQueue.Command.{WriteCommand, failed, undone, blocked}
use git_bamboo.Server.Methods.{Method, method_name, Params}
use git_bamboo.Server.Dispatch.{done, queued, Delivery, replied, parse_params}
use git_bamboo.Server.Dispatch.Table.{Backend, State, Handled}

-- the request that a command carries out: its method, and its parameters field by field
abbrev pub asked_by : WriteCommand → (m : Method) × Params m
asked_by (WriteCommand.stage paths) = (Method.stage, record { paths = paths })
asked_by (WriteCommand.unstage paths) = (Method.unstage, record { paths = paths })
asked_by (WriteCommand.discard paths) = (Method.discard, record { paths = paths })
asked_by (WriteCommand.resolve_conflict path resolution) =
    (Method.resolve_conflict, record { path = path; resolution = resolution })
asked_by (WriteCommand.commit message amend) =
    (Method.commit, record { message = message; amend = amend })
asked_by (WriteCommand.create_branch name base) =
    (Method.create_branch, record { name = name; base = base })
asked_by (WriteCommand.delete_branch name forced) =
    (Method.delete_branch, record { name = name; force = forced })
asked_by (WriteCommand.switch_branch name auto_stash) =
    (Method.switch_branch, record { name = name; auto_stash = auto_stash })
asked_by (WriteCommand.fetch remote) = (Method.fetch, record { remote = remote })
asked_by (WriteCommand.pull remote branch strategy auto_stash) = (
  Method.pull,
  record { remote = remote; branch = branch; strategy = strategy; auto_stash = auto_stash },
)
asked_by (WriteCommand.push remote branch mode set_upstream) = (
  Method.push,
  record { remote = remote; branch = branch; force = mode; set_upstream = set_upstream },
)
asked_by (WriteCommand.stash_push message include_untracked staged_only) = (
  Method.stash_push,
  record { message = message; include_untracked = include_untracked; staged_only = staged_only },
)
asked_by (WriteCommand.stash_pop stash_ref apply reinstate_index) = (
  Method.stash_pop,
  record { stash_ref = stash_ref; apply = apply; reinstate_index = reinstate_index },
)
asked_by (WriteCommand.stash_drop stash_ref) = (Method.stash_drop, record { stash_ref = stash_ref })
asked_by (WriteCommand.undo id) = (Method.undo, record { transaction_id = id })

module _ (b : Backend) where
  abbrev pub Later : Type 0
  Later = Delivery → Act (State b) BambooError b.rpc.Value

  -- the error of a failed command reaches the client as it is, and so does the reason of an undo
  -- that is blocked
  abbrev pub PassesErrors : WriteCommand → Later → Type 0
  PassesErrors (WriteCommand.undo id) k =
      (reason : Text) (s : State b)
      → (k (replied (undone (err (blocked reason)))) s).0 ≡ err (undo_blocked reason)
  PassesErrors cmd k = (e : BambooError) (s : State b) → (k (replied (failed e)) s).0 ≡ err e

  -- if a command is queued: nothing else has been done, its request is the one that was made, method
  -- and decoded parameters, and its errors pass
  abbrev pub IsFaithful : Text → b.rpc.Value → State b → Handled b → Type 0
  IsFaithful name v s (done result, s') = Unit
  IsFaithful name v s (queued cmd k, s') =
      (s' ≡ s)
      × (name ≡ method_name (asked_by cmd).0)
      × (parse_params b.rpc (asked_by cmd).0 v ≡ ok (asked_by cmd).1)
      × PassesErrors cmd k
