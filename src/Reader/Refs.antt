-- ===== src/Reader/Refs.antt =====
-- `read_refs` and `read_head` of crates/engine/src/gix_read.rs.
use git_bamboo.Prelude.{
  Option, none, some, List, [], ◌∷◌, ◌++◌, if◌then◌else◌, Result, ok, err, Act, ◌>>=◌, ◌≡◌, refl,
}
use git_bamboo.Prelude.Text.{Text, codes, starts_with, strip_prefix, trim}
use git_bamboo.Protocol.{Error}
use git_bamboo.Protocol.Answers.{RefKind, branch, tag, remote_branch, Ref, GetHeadResult}
use git_bamboo.Cache.{lift}
use git_bamboo.Cache.Store.{Redb}
use git_bamboo.Reader.{Reference, Repository, Reading, on_repo}

abbrev pub or_name : Option Text → Text → Text
or_name none name = name
or_name (some t) name = t

-- the kind of a ref and the name to display, by its full name
unfoldable pub classify_ref : Text → RefKind × Text
classify_ref name =
    if starts_with (codes "refs/tags/") name
    then (tag, or_name (strip_prefix (codes "refs/tags/") name) name)
    else if starts_with (codes "refs/remotes/") name
    then (remote_branch, or_name (strip_prefix (codes "refs/remotes/") name) name)
    else (branch, or_name (strip_prefix (codes "refs/heads/") name) name)

abbrev or_empty : Option Text → Text
or_empty none = []
or_empty (some id) = id

-- the commit that a ref peels to, or what it names directly
abbrev pub target_of : Result Error Text → Option Text → Text
target_of (ok id) target = id
target_of (err _) target = or_empty target

unfoldable pub to_ref : Reference → Ref
unfolding classify_ref
to_ref reference =
    let (kind, name) = classify_ref reference.name in
    record { name = name; kind = kind; target = target_of reference.peeled reference.target }

abbrev and_ref : Reference → Result Error (List Ref) → Result Error (List Ref)
and_ref reference (ok refs) = ok (to_ref reference ∷ refs)
and_ref reference (err e) = err e

-- the loop over the refs
unfoldable pub to_refs : List (Result Error Reference) → Result Error (List Ref)
to_refs [] = ok []
to_refs (err e ∷ references) = err e
to_refs (ok reference ∷ references) = and_ref reference (to_refs references)

module _ (p : Repository) (r : Redb) where
  unfoldable pub read_refs : Act (Reading p r) Error (List Ref)
  unfolding to_refs
  read_refs = do references ← on_repo p r p.references; lift (to_refs references)

  abbrev head_result : Text → Result Error Text → GetHeadResult
  head_result raw (ok id) = record {
    head = id;
    branch = strip_prefix (codes "ref: refs/heads/") (trim raw);
  }
  head_result raw (err _) = record {
    head = [];
    branch = strip_prefix (codes "ref: refs/heads/") (trim raw);
  }

  -- a HEAD that resolves to no commit is an unborn branch's
  unfoldable pub read_head : Act (Reading p r) Error GetHeadResult
  read_head = do
    raw ← on_repo p r p.head_file
    λ s. (
      ok (head_result raw (p.head_commit s.world).0),
      record s { world = (p.head_commit s.world).1 },
    )

-- the namespace of a kind
abbrev pub namespace : RefKind → Text
namespace branch = codes "refs/heads/"
namespace tag = codes "refs/tags/"
namespace remote_branch = codes "refs/remotes/"

-- A ref in one of the three namespaces is classified as what it is, and with the rest of its name.
pub classify_ref-namespace :
    (kind : RefKind) (name : Text) → classify_ref (namespace kind ++ name) ≡ (kind, name)
unfolding classify_ref starts_with strip_prefix
classify_ref-namespace branch name = refl
classify_ref-namespace tag name = refl
classify_ref-namespace remote_branch name = refl
