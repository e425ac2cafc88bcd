-- ===== src/Reader/Details.antt =====
-- `read_commit_detail` of crates/engine/src/gix_read.rs: one commit with the files that it changes.
use git_bamboo.Prelude.{not, List, [], ◌∷◌, ◌++◌, if◌then◌else◌, map_err, Act, pure, fail, ◌>>=◌}
use git_bamboo.Prelude.Text.{Text, codes}
use git_bamboo.Protocol.{ℤ, Error, structured, BambooError, git_error, invalid_argument}
use git_bamboo.Protocol.Answers.{CommitDetail}
use git_bamboo.Cache.Store.{Redb}
use git_bamboo.Reader.{Repository, Reading, on_repo}
use git_bamboo.Reader.Blobs.{is_valid_commit_id}
use git_bamboo.Reader.Diffs.{diff_tree_files}

-- `owned_signature`
pub record Signature : Type 0 where
  pub name : Text
  pub email : Text
  pub seconds : ℤ

pub record Decoded : Type 0 where
  pub message : Text
  pub author : Signature
  pub committer : Signature
  pub parent_ids : List Text

-- gix: the object that a revision names, the commit that an object peels to, and its content
pub record Objects (World : Type 0) : Type 0 where
  pub find_object : Text → Act World Error Text
  pub peel_to_commit : Text → Act World Error Text
  pub decode : Text → Act World Error Decoded

abbrev pub empty_tree_oid : Text
empty_tree_oid = codes "4b825dc642cb6eb9a060e54bf8d69288fbee4904"

-- the first parent, or the empty tree
abbrev base_of : List Text → Text
base_of [] = empty_tree_oid
base_of (p ∷ ps) = p

no_commit : Text → BambooError
no_commit id = git_error (codes "commit " ++ (id ++ codes " not found"))

not_commit : Text → BambooError
not_commit id = git_error (id ++ codes " is not a commit")

module _ (p : Repository) (r : Redb) (o : Objects p.World) where
  invalid_id : Text → BambooError
  invalid_id id = invalid_argument (codes "getCommitDetail: invalid commit id " ++ p.debug.str id)

  -- an action whose error is another
  abbrev failing_as :
      {A : Type 0} → BambooError → Act (Reading p r) Error A → Act (Reading p r) Error A
  failing_as e m s = (map_err (λ _. structured e) (m s).0, (m s).1)

  unfoldable pub read_commit_detail : Text → Act (Reading p r) Error CommitDetail
  unfolding is_valid_commit_id diff_tree_files invalid_id no_commit not_commit
  read_commit_detail id =
      if not (is_valid_commit_id id) then fail (structured (invalid_id id)) else (do
        oid ← failing_as (no_commit id) (on_repo p r (o.find_object id))
        commit ← failing_as (not_commit id) (on_repo p r (o.peel_to_commit oid))
        decoded ← on_repo p r (o.decode commit)
        files ← diff_tree_files p r (base_of decoded.parent_ids) commit
        pure (record {
          id = commit;
          message = decoded.message;
          author_name = decoded.author.name;
          author_email = decoded.author.email;
          author_time = decoded.author.seconds;
          committer_name = decoded.committer.name;
          committer_email = decoded.committer.email;
          committer_time = decoded.committer.seconds;
          parent_ids = decoded.parent_ids;
          files = files;
        }))
