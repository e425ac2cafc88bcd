-- ===== src/Server/Messages.antt =====
-- The messages of crates/engine/src/server.rs that are not a request to a session: the checks and the
-- result of `initialize`, where a method goes, and the notifications.
use git_bamboo.Prelude.{ℕ, Bool, true, not, List, [], ◌∷◌, ◌++◌, if◌then◌else◌, Result, ok, err}
use git_bamboo.Prelude.Text.{Text, codes, eq, Debug}
use git_bamboo.Protocol.{BambooError, invalid_argument, repo_not_found}
use git_bamboo.Protocol.Sessions.{
  Initialize, InitializeResult, RefsChanged, WorktreeChanged, IndexChanged, HeadChanged,
  GraphInvalidated,
}
use git_bamboo.Host.{
  EngineEvent, refs_changed, worktree_changed, index_changed, head_changed, graph_invalidated,
}
use git_bamboo.Session.{FilePath}

-- what `initialize` asks of the file system: the absolute spelling of a path, or the message of the
-- error; whether there is something at a path; and how a path is displayed
pub record Places : Type 0 where
  pub canonicalize : Text → Result Text FilePath
  pub exists : FilePath → Bool
  pub display : FilePath → Text
  pub debug : Debug

unresolved : Places → Text → Text → BambooError
unresolved f path e =
    invalid_argument
      (codes "initialize: cannot resolve repo_path " ++ (f.debug.str path ++ (codes ": " ++ e)))

abbrev resolved : Places → Text → Result Text FilePath → Result BambooError FilePath
unfolding unresolved
resolved f path (err e) = err (unresolved f path e)
resolved f path (ok root) =
    if not (f.exists (root ++ codes ".git" ∷ []))
    then err (repo_not_found (f.display root))
    else ok root

-- the checks of `handle_initialize`, behind the parsing of the parameters
unfoldable pub check_initialize : Places → Initialize → Result BambooError FilePath
unfolding resolved
check_initialize f params = resolved f params.repo_path (f.canonicalize params.repo_path)

abbrev pub protocol_version : ℕ
protocol_version = 1

-- what `initialize` answers with
abbrev pub initialize_result : (session_id engine_version : Text) → ℕ → InitializeResult
initialize_result session_id engine_version epoch = record {
  session_id = session_id;
  protocol_version = protocol_version;
  engine_version = engine_version;
  epoch = epoch;
  capabilities = record {
    graph = true;
    status = true;
    write_ops = true;
    undo = true;
    notifications = true;
  };
}

-- where `dispatch` sends a method
pub data Route : Type 0 where
  to_initialize to_shutdown to_session : Route

unfoldable pub route_method : Text → Route
route_method method =
    if eq method (codes "initialize")
    then to_initialize
    else if eq method (codes "shutdown")
    then to_shutdown
    else to_session

-- serde_json for notifications
pub record Wire : Type 1 where
  pub Value : Type 0
  pub null : Value
  pub text : Text → Value
  pub object : List (Text × Value) → Value
  pub refs_changed_value : RefsChanged → Result Text Value
  pub worktree_changed_value : WorktreeChanged → Result Text Value
  pub index_changed_value : IndexChanged → Result Text Value
  pub head_changed_value : HeadChanged → Result Text Value
  pub graph_invalidated_value : GraphInvalidated → Result Text Value

module _ (j : Wire) where
  abbrev null_params : Result Text j.Value → j.Value
  null_params (ok v) = v
  null_params (err e) = j.null

  abbrev event_params : EngineEvent → Text × Result Text j.Value
  event_params (refs_changed changed_refs epoch) = (
    codes "refsChanged",
    j.refs_changed_value (record { changed_refs = changed_refs; epoch = epoch }),
  )
  event_params (worktree_changed paths) =
      (codes "worktreeChanged", j.worktree_changed_value (record { paths = paths }))
  event_params (index_changed epoch) =
      (codes "indexChanged", j.index_changed_value (record { epoch = epoch }))
  event_params (head_changed new_head epoch) =
      (codes "headChanged", j.head_changed_value (record { new_head = new_head; epoch = epoch }))
  event_params (graph_invalidated epoch) =
      (codes "graphInvalidated", j.graph_invalidated_value (record { epoch = epoch }))

  abbrev notification : Text × Result Text j.Value → j.Value
  notification (method, params) = j.object (
      (codes "jsonrpc", j.text (codes "2.0"))
      ∷ (codes "method", j.text method)
      ∷ (codes "params", null_params params)
      ∷ [])

  unfoldable pub engine_event_to_notification : EngineEvent → j.Value
  engine_event_to_notification event = notification (event_params event)
