-- ===== src/Tests/Notices.antt =====
-- The messages of crates/engine/src/server.rs beside the requests to a session, at concrete inputs.
use git_bamboo.Prelude.{ℕ, Bool, true, false, List, [], ◌∷◌, ◌++◌, Result, ok, err, ◌≡◌, refl}
use git_bamboo.Prelude.Text.{Text, codes, Debug}
use git_bamboo.Protocol.{repo_not_found}
use git_bamboo.Host.{index_changed, head_changed}
use git_bamboo.Session.{FilePath}
use git_bamboo.Server.Messages.{
  Places, check_initialize, to_initialize, to_session, route_method, Wire,
  engine_event_to_notification,
}

abbrev joined : FilePath → Text
joined [] = []
joined (part ∷ parts) = part ++ joined parts

abbrev plain : Debug
plain = record { str = λ t. t; chr = λ c. c ∷ [] }

-- a file system with nothing in it, where every path is absolute
abbrev bare : Places
bare = record {
  canonicalize = λ t. ok (t ∷ []);
  exists = λ p. false;
  display = joined;
  debug = plain;
}

-- a directory without `.git` is no repository
no_repo :
    check_initialize bare (record { repo_path = codes "/srv" })
    ≡ err (repo_not_found (codes "/srv"))
unfolding check_initialize
no_repo = refl

initialize_route : route_method (codes "initialize") ≡ to_initialize
unfolding route_method git_bamboo.Prelude.Text.eq
initialize_route = refl

commit_route : route_method (codes "commit") ≡ to_session
unfolding route_method git_bamboo.Prelude.Text.eq
commit_route = refl

abbrev values : List (Text × List Text) → List Text
values [] = []
values ((key, value) ∷ members) = value ++ values members

-- values as lists of texts, which stand for their leaves
abbrev leaves : Wire
leaves = record {
  Value = List Text;
  null = [];
  text = λ t. t ∷ [];
  object = values;
  refs_changed_value = λ e. ok e.changed_refs;
  worktree_changed_value = λ e. ok e.paths;
  index_changed_value = λ e. err (codes "not spelled");
  head_changed_value = λ e. ok (e.new_head ∷ []);
  graph_invalidated_value = λ e. ok [];
}

-- an event that serde cannot spell is announced with null parameters
index_notice :
    engine_event_to_notification leaves (index_changed 3) ≡ codes "2.0" ∷ codes "indexChanged" ∷ []
unfolding engine_event_to_notification
index_notice = refl

head_notice :
    engine_event_to_notification leaves (head_changed (codes "abc") 3)
    ≡ codes "2.0" ∷ codes "headChanged" ∷ codes "abc" ∷ []
unfolding engine_event_to_notification
head_notice = refl
