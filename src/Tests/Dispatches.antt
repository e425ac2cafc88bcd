-- ===== src/Tests/Dispatches.antt =====
-- The dispatch of requests in crates/engine/src/server.rs at concrete inputs.
use Prim.Native.Nat.{min}
use git_bamboo.Prelude.{
  ℕ, ◌≤◌, Bool, true, false, Option, none, some, List, [], ◌∷◌, ◌++◌, length, Result, ok, err, Act,
  pure, ◌≡◌, refl, arith,
}
use git_bamboo.Prelude.Text.{Text, codes}
use git_bamboo.Protocol.{Error, BambooError, epoch_mismatch, GraphViewport, GraphPage}
use git_bamboo.Protocol.Requests.{GetGraph}
use git_bamboo.Reader.Details.{Objects}
use git_bamboo.WriteQueue.Command.{WriteCommand}
use git_bamboo.WriteQueue.Queue.{command, run_write_queue}
use git_bamboo.Server.Methods.{Method, Params, Reply}
use git_bamboo.Server.Dispatch.{Rpc, Serving, Handling, done}
use git_bamboo.Server.Dispatch.Table.{Backend, State, dispatch_with_session}
use git_bamboo.Server.Dispatch.Pages.{get_graph-limit, get_graph-stale}
use git_bamboo.Server.Dispatch.Queued.{Later}
use git_bamboo.Tests.Codecs.{counted}
use git_bamboo.Tests.Graphs.{shelf, at_start}
use git_bamboo.Tests.Hosts.{host, begun}
use git_bamboo.Tests.Stores.{memory}

abbrev decode : (m : Method) → Text → Result Text (Params m)
decode Method.get_graph v = ok (record {
  viewport = record { offset = 0; limit = 2000; anchor_commit = none; epoch = length v };
})
decode Method.commit v = ok (record { message = v; amend = false })
decode m v = err (codes "not decoded")

abbrev encode : Reply → Result Text Text
encode (Reply.page page) = ok (codes "page")
encode (Reply.output text) = ok text
encode reply = ok []

-- values are texts; a viewport is of the epoch that the text is long
abbrev texts : Rpc
texts = record {
  Value = Text;
  null = codes "null";
  from_value = decode;
  to_value = encode;
  error_value = λ e. e.message;
  text = λ t. t;
  object = λ members. [];
  to_string = λ v. v;
}

abbrev no_objects : Objects ℕ
no_objects = record {
  find_object = λ id w. (ok id, w);
  peel_to_commit = λ id w. (ok id, w);
  decode = λ id w. (
    ok (record {
      message = [];
      author = record { name = []; email = []; seconds = git_bamboo.Protocol.pos 0 };
      committer = record { name = []; email = []; seconds = git_bamboo.Protocol.pos 0 };
      parent_ids = [];
    }),
    w,
  );
}

abbrev backend : Backend
backend = record {
  rpc = texts;
  repository = shelf;
  redb = memory;
  codec = counted;
  host = host;
  objects = no_objects;
  gix_status = λ w. (ok [], w);
}

abbrev serving : State backend
serving = record { reading = at_start; run = begun }

abbrev commit_hi : WriteCommand
commit_hi = WriteCommand.commit (codes "hi") false

abbrev after_commit : Later backend
after_commit = git_bamboo.Server.Dispatch.null_after texts shelf memory host

-- two commits count twice
epoch_twice : (run_write_queue host (command commit_hi ∷ command commit_hi ∷ []) begun).1.epoch ≡ 6
unfolding run_write_queue git_bamboo.Prelude.◌>>=◌ git_bamboo.WriteQueue.Git.caught
    git_bamboo.Undo.Snapshots.lift_error git_bamboo.WriteQueue.Worktree.assert_no_unmerged_paths
    git_bamboo.WriteQueue.Git.or_panic git_bamboo.WriteQueue.Porcelain.parse_porcelain_z
    git_bamboo.Prelude.Text.split git_bamboo.Prelude.Text.len git_bamboo.Prelude.Text.len_utf8
    git_bamboo.Prelude.Text.split_bytes git_bamboo.WriteQueue.Git.attempt
    git_bamboo.WriteQueue.Conflict.porcelain_conflict_kind git_bamboo.Prelude.Text.eq
    git_bamboo.Prelude.Text.trim git_bamboo.WriteQueue.Redact.redact_credentials
    git_bamboo.WriteQueue.Redact.find_scheme git_bamboo.Prelude.Text.is_whitespace
epoch_twice = refl

abbrev wide : GetGraph
wide = record { viewport = record { offset = 0; limit = 2000; anchor_commit = none; epoch = 4 } }

page_answered :
    (dispatch_with_session backend (codes "getGraph") (codes "four") serving).0
    ≡ done (ok (codes "page"))
unfolding dispatch_with_session git_bamboo.Prelude.Text.eq git_bamboo.Graph.read_graph_page
    git_bamboo.Prelude.◌>>=◌ git_bamboo.Reader.read_epoch git_bamboo.Server.Dispatch.capped
    git_bamboo.Reader.on_cache git_bamboo.Cache.invalidate_on_epoch_change
    git_bamboo.Prelude.Maps.get git_bamboo.Reader.on_repo git_bamboo.Graph.Page.page_end
    git_bamboo.Reader.guard_epoch git_bamboo.Cache.get_commit_metas git_bamboo.Reader.ignoring
page_answered = refl

get_graph-limit_example :
    (page : GraphPage) × (encode (Reply.page page) ≡ ok (codes "page"))
    × (length page.commits ≤ min wide.viewport.limit 1000)
get_graph-limit_example =
    get_graph-limit backend (codes "four") wide serving (codes "page") refl page_answered

abbrev old : GetGraph
old = record { viewport = record { offset = 0; limit = 2000; anchor_commit = none; epoch = 3 } }

get_graph-stale_example :
    ((dispatch_with_session backend (codes "getGraph") (codes "old") serving).0
      ≡ done (err (epoch_mismatch 4 3)))
    × ((dispatch_with_session backend (codes "getGraph") (codes "old") serving).1.reading.cache
        ≡ at_start.cache)
    × ((dispatch_with_session backend (codes "getGraph") (codes "old") serving).1.run ≡ begun)
get_graph-stale_example =
    get_graph-stale backend (codes "old") old serving refl (λ e. omega (arith, e))
      (λ e. omega (arith, e))
