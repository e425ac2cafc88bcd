-- ===== src/Server/Dispatch.antt =====
-- `dispatch_with_session` and `handle_message` of crates/engine/src/server.rs. The handling of a
-- request has come to its end, or has sent one command to the write queue and waits for the reply.
pub mod Table
pub mod Queued
pub mod Undoable
pub mod Pages
use Prim.Native.Nat.{min, max}
use git_bamboo.Prelude.{
  ℕ, ◌+◌, ◌^◌, ltb, Option, none, some, List, [], ◌∷◌, ◌++◌, if◌then◌else◌, Result, ok, err,
  map_err, and_then, Act,
}
use git_bamboo.Prelude.Text.{Text, codes, show}
use git_bamboo.Protocol.{
  Error, plain, BambooError, git_error, invalid_argument, undo_blocked, to_string,
  downcast_or_git_error, Fault, raised, panicked, GraphViewport,
}
use git_bamboo.Protocol.Requests.{Undo}
use git_bamboo.Host.{Host, Run}
use git_bamboo.Cache.{Codec}
use git_bamboo.Cache.Store.{Redb}
use git_bamboo.Reader.{Repository, Reading, read_epoch}
use git_bamboo.Reader.Status.{Item, read_status}
use git_bamboo.Reader.Refs.{read_refs, read_head}
use git_bamboo.Reader.Blobs.{read_blob}
use git_bamboo.Reader.Details.{Objects, read_commit_detail}
use git_bamboo.Reader.Branches.{read_remotes, read_branch_status, read_stash_list}
use git_bamboo.Graph.{read_graph_page}
use git_bamboo.Undo.Journal.{list_transactions}
use git_bamboo.WriteQueue.Command.{
  WriteCommand, WriteResult, UndoSummary, UndoErrorKind, not_found, blocked, failure,
}
use git_bamboo.WriteQueue.Queue.{write_reply, undo_reply}
use git_bamboo.Server.Methods.{
  Method, method_name, parse_method, Params, Reply, refs, content, detail, head, page, items,
  output, remotes, status, stashes, entries, undo_response,
}

-- serde_json: the values, the parameters in them, and the values of results and errors
pub record Rpc : Type 1 where
  pub Value : Type 0
  pub null : Value
  pub from_value : (m : Method) → Value → Result Text (Params m)
  pub to_value : Reply → Result Text Value
  pub error_value : BambooError → Value
  pub text : Text → Value
  pub object : List (Text × Value) → Value
  pub to_string : Value → Text

-- how the reply of the write queue is delivered: not at all, if one of the two channels is closed
pub data Delivery : Type 0 where
  closed dropped : Delivery
  replied : WriteResult → Delivery

-- `enqueue_write` and `enqueue_undo`, behind the sending of the command
unfoldable pub enqueue_write : Delivery → Result BambooError Text
unfolding write_reply
enqueue_write closed = err (git_error (codes "write queue closed"))
enqueue_write dropped = err (git_error (codes "write result dropped"))
enqueue_write (replied r) = write_reply r

unfoldable pub enqueue_undo : Delivery → Result Error (Result UndoErrorKind UndoSummary)
unfolding undo_reply
enqueue_undo closed = err (plain (codes "write queue closed"))
enqueue_undo dropped = err (plain (codes "write result dropped"))
enqueue_undo (replied r) = undo_reply r

-- `u32::try_from(limit).unwrap_or(1).clamp(1, 500)`
unfoldable pub clamp_limit : ℕ → ℕ
clamp_limit n = if ltb n (2 ^ 32) then max 1 (min n 500) else 1

unfoldable pub capped : GraphViewport → GraphViewport
capped v = record v { limit = min v.limit 1000 }

-- every error as a plain git error
abbrev pub flat : Error → BambooError
flat e = git_error (to_string e)

unknown_transaction : ℕ → BambooError
unknown_transaction id =
    invalid_argument (codes "undo: transaction " ++ (show id ++ codes " not found"))

unfoldable pub undo_error : ℕ → UndoErrorKind → BambooError
unfolding unknown_transaction
undo_error id not_found = unknown_transaction id
undo_error id (blocked reason) = undo_blocked reason
undo_error id (failure msg) = git_error msg

-- the parts of a session that a request touches without the write queue
pub record Serving (p : Repository) (r : Redb) (h : Host) : Type 0 where
  pub reading : Reading p r
  pub run : Run h

-- what a task that has listed the transactions ends with
abbrev list_error : Fault → BambooError
list_error (raised e) = flat e
list_error panicked = git_error (codes "list task failed")

module _ (j : Rpc) where
  -- `to_json_value`
  unfoldable pub to_json_value : Reply → Result BambooError j.Value
  to_json_value reply =
      map_err (λ e. git_error (codes "response serialization failed: " ++ e)) (j.to_value reply)

  -- `parse_params`
  unfoldable pub parse_params : (m : Method) → j.Value → Result BambooError (Params m)
  parse_params m v =
      map_err (λ e. invalid_argument (method_name m ++ (codes ": " ++ e))) (j.from_value m v)

  -- the response of a request, from the result of `dispatch`; a notification has none
  unfoldable pub respond : Option j.Value → Result BambooError j.Value → Option Text
  respond none result = none
  respond (some id) (ok result) = some (
      j.to_string (
        j.object (
          (codes "jsonrpc", j.text (codes "2.0"))
          ∷ (codes "id", id)
          ∷ (codes "result", result)
          ∷ [])))
  respond (some id) (err e) = some (
      j.to_string (
        j.object (
          (codes "jsonrpc", j.text (codes "2.0"))
          ∷ (codes "id", id)
          ∷ (codes "error", j.error_value e)
          ∷ [])))

module _ (j : Rpc) (p : Repository) (r : Redb) (h : Host) where
  pub data Handling : Type 0 where
    done : Result BambooError j.Value → Handling
    queued : WriteCommand → (Delivery → Act (Serving p r h) BambooError j.Value) → Handling

  abbrev pub Handler : Type 0
  Handler = Serving p r h → Handling × Serving p r h

  abbrev pub finished : Result BambooError j.Value → Handler
  finished result s = (done result, s)

  abbrev on_parsed : {A : Type 0} → (A → Handler) → Result BambooError A → Handler
  on_parsed k (ok params) = k params
  on_parsed k (err e) = finished (err e)

  -- the rest of a method, behind the parsing of its parameters
  unfoldable pub with_params : (m : Method) → j.Value → (Params m → Handler) → Handler
  unfolding parse_params
  with_params m v k = on_parsed k (parse_params j m v)

  abbrev as_reply : {A : Type 0} → (A → Reply) → Result BambooError A → Result BambooError j.Value
  as_reply f x = and_then x λ a. to_json_value j (f a)

  -- `spawn_blocking_read`, the mapping of its error, and the result
  unfoldable pub answer_read :
      {A : Type 0} → (Error → BambooError) → (A → Reply) → Act (Reading p r) Error A → Handler
  unfolding to_json_value
  answer_read e f m s =
      (done (as_reply f (map_err e (m s.reading).0)), record s { reading = (m s.reading).1 })

  abbrev pub null_after : Delivery → Act (Serving p r h) BambooError j.Value
  null_after d s = (and_then (enqueue_write d) (λ _. ok j.null), s)

  abbrev output_after : Delivery → Act (Serving p r h) BambooError j.Value
  output_after d s = (as_reply output (enqueue_write d), s)

  abbrev undo_response_after :
      ℕ → Result UndoErrorKind UndoSummary → Act (Serving p r h) BambooError j.Value
  undo_response_after id (err kind) s = (err (undo_error id kind), s)
  undo_response_after id (ok summary) s =
      let (epoch, w) = p.current_epoch s.reading.world in
      (
        to_json_value j (
            undo_response (record {
              restored_refs = summary.restored_refs;
              noop = summary.noop;
              epoch = epoch;
            })),
        record s { reading = record s.reading { world = w; seen = s.reading.seen ++ epoch ∷ [] } },
      )

  abbrev undo_after :
      ℕ → Result Error (Result UndoErrorKind UndoSummary) → Act (Serving p r h) BambooError j.Value
  undo_after id (err e) s = (err (flat e), s)
  undo_after id (ok result) s = undo_response_after id result s

  -- a command of which only the success is answered, or the output too
  abbrev quietly : WriteCommand → Handler
  quietly cmd s = (queued cmd null_after, s)

  abbrev with_output : WriteCommand → Handler
  with_output cmd s = (queued cmd output_after, s)

  abbrev answer_list : ℕ → Handler
  answer_list limit s =
      let (listed, run) = list_transactions h limit s.run in
      (done (as_reply entries (map_err list_error listed)), record s { run = run })
