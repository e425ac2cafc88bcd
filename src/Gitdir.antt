-- ===== src/Gitdir.antt =====
-- crates/engine/src/gitdir.rs: where the git directory of a repository is, and the fingerprint of its
-- refs. git and the file system are parameters.
pub mod Fingerprint
use git_bamboo.Prelude.{
  Bool, true, false, Option, none, some, List, [], ◌∷◌, ◌++◌, is_empty, is_some, if◌then◌else◌,
}
use git_bamboo.Prelude.Text.{Text, codes, trim}
use git_bamboo.Host.{Output}
use git_bamboo.Session.{FilePath, strip_dir}

-- What surrounds a repository that is opened: git, in the directory of the repository, for an argv,
-- with no output if it cannot be run; the components of a path; and which paths are directories.
pub record Surroundings : Type 1 where
  pub World : Type 0
  pub git_output : List Text → World → Option Output × World
  pub path_of : Text → FilePath
  pub is_dir : FilePath → World → Bool

-- the trimmed output of a git that has succeeded, or nothing
abbrev pub trimmed : Option Output → Text
trimmed none = []
trimmed (some o) = if o.success then trim o.stdout else []

-- `git_dir_inside_worktree`
unfoldable pub git_dir_inside_worktree : FilePath → FilePath → Bool
unfolding strip_dir
git_dir_inside_worktree git_dir repo_path = is_some (strip_dir repo_path git_dir)

module _ (s : Surroundings) where
  abbrev pub rev_parse_dir : List Text
  rev_parse_dir = codes "rev-parse" ∷ codes "--absolute-git-dir" ∷ []

  abbrev pub rev_parse_head : List Text
  rev_parse_head = codes "rev-parse" ∷ codes "HEAD" ∷ []

  abbrev pub list_heads : List Text
  list_heads =
      codes "for-each-ref" ∷ codes "refs/heads" ∷ codes "--format=%(refname) %(objectname)" ∷ []

  abbrev fallback : FilePath → FilePath
  fallback repo_path = repo_path ++ codes ".git" ∷ []

  abbrev pub dir_or_fallback : FilePath → Text → s.World → FilePath
  dir_or_fallback repo_path t w =
      if is_empty t
      then fallback repo_path
      else if s.is_dir (s.path_of t) w
      then s.path_of t
      else fallback repo_path

  unfoldable pub resolve_git_dir : FilePath → s.World → FilePath × s.World
  resolve_git_dir repo_path w =
      let (out, w') = s.git_output rev_parse_dir w in
      (dir_or_fallback repo_path (trimmed out) w', w')

  -- the two texts that a fingerprint is made of
  unfoldable pub head_of : s.World → Text
  head_of w = trimmed (s.git_output rev_parse_head w).0

  unfoldable pub heads_of : s.World → Text
  heads_of w = trimmed (s.git_output list_heads (s.git_output rev_parse_head w).1).0

  unfoldable pub repo_fingerprint : s.World → Text × s.World
  unfolding head_of heads_of
  repo_fingerprint w = (
    head_of w ++ b'\n' ∷ heads_of w,
    (s.git_output list_heads (s.git_output rev_parse_head w).1).1,
  )
