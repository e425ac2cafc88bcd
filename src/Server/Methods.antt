-- ===== src/Server/Methods.antt =====
-- The methods of `dispatch_with_session` in crates/engine/src/server.rs, and the types of their
-- parameters and results.
use git_bamboo.Prelude.{Bool, true, Option, some, List, [], ◌∷◌, find, ◌≡◌, arith}
use git_bamboo.Prelude.Text.{Text, codes, eq, eq_iff}
use git_bamboo.Protocol.{GraphPage, UndoEntry}
use git_bamboo.Protocol.Answers.{
  Ref, StatusItem, CommitDetail, GetHeadResult, RemoteInfo, BranchStatus, StashEntry,
}
use git_bamboo.Protocol.Requests.{
  GetBlob, GetCommitDetail, GetGraph, GetStatus, Stage, Unstage, Discard, ResolveConflict,
  CommitMsg, CreateBranch, DeleteBranch, SwitchBranch, Fetch, Pull, Push, StashPush, StashPop,
  StashDrop, GetBranchStatus, ListUndoStack, Undo, UndoResponse,
}

pub data Method : Type 0 where
  get_refs get_blob get_commit_detail get_head get_graph get_status : Method
  stage unstage discard resolve_conflict commit : Method
  create_branch delete_branch switch_branch fetch pull push : Method
  stash_push stash_pop stash_drop : Method
  get_remotes get_branch_status stash_list list_undo_stack undo : Method

abbrev pub method_name : Method → Text
method_name get_refs = codes "getRefs"
method_name get_blob = codes "getBlob"
method_name get_commit_detail = codes "getCommitDetail"
method_name get_head = codes "getHead"
method_name get_graph = codes "getGraph"
method_name get_status = codes "getStatus"
method_name stage = codes "stage"
method_name unstage = codes "unstage"
method_name discard = codes "discard"
method_name resolve_conflict = codes "resolveConflict"
method_name commit = codes "commit"
method_name create_branch = codes "createBranch"
method_name delete_branch = codes "deleteBranch"
method_name switch_branch = codes "switchBranch"
method_name fetch = codes "fetch"
method_name pull = codes "pull"
method_name push = codes "push"
method_name stash_push = codes "stashPush"
method_name stash_pop = codes "stashPop"
method_name stash_drop = codes "stashDrop"
method_name get_remotes = codes "getRemotes"
method_name get_branch_status = codes "getBranchStatus"
method_name stash_list = codes "stashList"
method_name list_undo_stack = codes "listUndoStack"
method_name undo = codes "undo"

abbrev methods : List Method
methods =
    get_refs ∷ get_blob ∷ get_commit_detail ∷ get_head ∷ get_graph ∷ get_status ∷ stage ∷ unstage
    ∷ discard ∷ resolve_conflict ∷ commit ∷ create_branch ∷ delete_branch ∷ switch_branch ∷ fetch
    ∷ pull ∷ push ∷ stash_push ∷ stash_pop ∷ stash_drop ∷ get_remotes ∷ get_branch_status
    ∷ stash_list ∷ list_undo_stack ∷ undo ∷ []

-- `match method`
unfoldable pub parse_method : Text → Option Method
parse_method name = find (λ m. eq name (method_name m)) methods

find-passes : {A : Type 0} (p : A → Bool) (xs : List A) (x : A) → find p xs ≡ some x → p x ≡ true
find-passes p [] x h = cc
find-passes p (y ∷ ys) x h = ground (arith, find-passes p ys x)

pub parse_method-eq-some :
    (name : Text) (m : Method) → parse_method name ≡ some m → name ≡ method_name m
unfolding parse_method
parse_method-eq-some name m h =
    (eq_iff name (method_name m)).0 (find-passes (λ k. eq name (method_name k)) methods m h)

-- What the parameters of a method are decoded to. Those of the three methods without a type of their
-- own are not looked at; `getRemotes` takes an empty object.
abbrev pub Params : Method → Type 0
Params get_refs = Unit
Params get_blob = GetBlob
Params get_commit_detail = GetCommitDetail
Params get_head = Unit
Params get_graph = GetGraph
Params get_status = GetStatus
Params stage = Stage
Params unstage = Unstage
Params discard = Discard
Params resolve_conflict = ResolveConflict
Params commit = CommitMsg
Params create_branch = CreateBranch
Params delete_branch = DeleteBranch
Params switch_branch = SwitchBranch
Params fetch = Fetch
Params pull = Pull
Params push = Push
Params stash_push = StashPush
Params stash_pop = StashPop
Params stash_drop = StashDrop
Params get_remotes = Unit
Params get_branch_status = GetBranchStatus
Params stash_list = Unit
Params list_undo_stack = ListUndoStack
Params undo = Undo

-- the results that are serialized
pub data Reply : Type 0 where
  refs : List Ref → Reply
  content : Text → Reply
  detail : CommitDetail → Reply
  head : GetHeadResult → Reply
  page : GraphPage → Reply
  items : List StatusItem → Reply
  output : Text → Reply
  remotes : List RemoteInfo → Reply
  status : BranchStatus → Reply
  stashes : List StashEntry → Reply
  entries : List UndoEntry → Reply
  undo_response : UndoResponse → Reply
