-- ===== src/Reader/Branches.antt =====
-- `read_remotes`, `read_branch_status` and `read_stash_list` of crates/engine/src/gix_read.rs, which
-- run git and read its output.
pub mod Redacted
use git_bamboo.Prelude.{
  ℕ, zero, suc, Bool, true, false, not, ◌||◌, Option, none, some, List, [], ◌∷◌, ◌++◌, map,
  is_empty, keep, if◌then◌else◌, Result, ok, err, Act, pure, fail, ◌>>=◌, ◌>>◌,
}
use git_bamboo.Prelude.Numbers.{parse_uint}
use git_bamboo.Prelude.Text.{Text, codes, eq, trim, lines, split, is_whitespace, Debug, debug_slice}
use git_bamboo.Protocol.{Error, structured, git_error, invalid_argument, to_string}
use git_bamboo.Protocol.Answers.{RemoteInfo, BranchStatus, StashEntry}
use git_bamboo.Host.{Output}
use git_bamboo.WriteQueue.Redact.{redact_credentials}
use git_bamboo.WriteQueue.Validate.{validate_ref_arg}
use git_bamboo.Cache.{lift}
use git_bamboo.Cache.Store.{Redb}
use git_bamboo.Reader.{Repository, Reading, on_repo}

git_failed : Debug → List Text → Text → Text
git_failed d args stderr =
    codes "git " ++ (debug_slice d args ++ (codes " failed: " ++ trim (redact_credentials stderr)))

unfoldable pub nonempty_lines : Text → List Text
nonempty_lines stdout = keep (λ l. not (is_empty l)) (map trim (lines stdout))

abbrev pub or_none : Text → Option Text
or_none [] = none
or_none (c ∷ cs) = some (c ∷ cs)

abbrev first_line : List Text → Option Text
first_line [] = none
first_line (l ∷ ls) = or_none (trim l)

abbrev pub map_redact : Option Text → Option Text
map_redact none = none
map_redact (some l) = some (redact_credentials l)

-- the first line of what `git remote get-url --all` prints, redacted
unfoldable pub url_of : Output → Option Text
url_of out = if out.success then map_redact (first_line (lines out.stdout)) else none

abbrev pub is_default : Option Text → Text → ℕ → Bool
is_default (some d) name idx = eq d name
is_default none name zero = true
is_default none name (suc _) = false

-- the words between white space, with the one that is being read
unfoldable pub words : Text → Text → List Text
words word [] = if is_empty word then [] else word ∷ []
words word (c ∷ cs) =
    let next = words [] cs in
    let rest = words (word ++ c ∷ []) cs in
    if is_whitespace c then (if is_empty word then next else word ∷ next) else rest

abbrev pub count_of : List Text → ℕ
count_of [] = 0
count_of (w ∷ ws) = elim (parse_uint 4294967295 w) [ none ↦ 0 | some n ↦ n ]

abbrev tail_of : List Text → List Text
tail_of [] = []
tail_of (w ∷ ws) = ws

-- `parts.next()` twice: behind, then ahead
unfoldable pub behind_and_ahead : Text → ℕ × ℕ
unfolding words
behind_and_ahead stdout = let parts = words [] stdout in (count_of parts, count_of (tail_of parts))

abbrev pub field : ℕ → List Text → Text
field i [] = []
field zero (t ∷ ts) = t
field (suc i) (t ∷ ts) = field i ts

-- one line of `git stash list`, if it names an entry
unfoldable pub stash_entry : Text → List StashEntry
stash_entry line =
    let fields = split 0x1f (trim line) in
    if is_empty (trim line) || is_empty (field 0 fields)
    then []
    else record { stash_ref = field 0 fields; message = field 1 fields; date = field 2 fields } ∷ []

unfoldable pub stash_entries : List Text → List StashEntry
unfolding stash_entry
stash_entries [] = []
stash_entries (l ∷ ls) = stash_entry l ++ stash_entries ls

stash_list_failed : Text → Text
stash_list_failed stderr = codes "git stash list failed: " ++ trim (redact_credentials stderr)

rev_list_failed : Text → Text
rev_list_failed stderr = codes "git rev-list failed: " ++ trim (redact_credentials stderr)

not_a_branch : Text → Text
not_a_branch msg = codes "getBranchStatus: " ++ msg

not_found : Debug → Text → Text
not_found d b = codes "getBranchStatus: branch " ++ (d.str b ++ codes " not found")

abbrev pub as_argument : {A : Type 0} → Result Error A → Result Error A
unfolding not_a_branch
as_argument (ok a) = ok a
as_argument (err e) = err (structured (invalid_argument (not_a_branch (to_string e))))

module _ (p : Repository) (r : Redb) where
  unfoldable pub run_git_stdout_lines : List Text → Act (Reading p r) Error (List Text)
  unfolding nonempty_lines git_failed
  run_git_stdout_lines args = do
    out ← on_repo p r (p.git_output args)
    if out.success
        then pure (nonempty_lines out.stdout)
        else fail (structured (git_error (git_failed p.debug args out.stderr)))

  abbrev config_value : Result Error Output → Option Text
  config_value (err _) = none
  config_value (ok out) = if out.success then or_none (trim out.stdout) else none

  -- `read_config`: every failure is a missing value
  unfoldable pub read_config : Text → Act (Reading p r) Error (Option Text)
  read_config key s =
      let (out, s') = on_repo p r (p.git_output (codes "config" ∷ codes "--get" ∷ key ∷ [])) s in
      (ok (config_value out), s')

  -- the loop of `read_remotes`, with the index of the first name
  unfoldable pub remotes_from :
      Option Text → ℕ → List Text → Act (Reading p r) Error (List RemoteInfo)
  unfolding url_of
  remotes_from configured_default idx [] = pure []
  remotes_from configured_default idx (name ∷ names) = do
    out ← on_repo p r (p.git_output (codes "remote" ∷ codes "get-url" ∷ codes "--all" ∷ name ∷ []))
    remotes ← remotes_from configured_default (suc idx) names
    pure (
        record { name = name; url = url_of out; default = is_default configured_default name idx }
        ∷ remotes)

  unfoldable pub read_remotes : Act (Reading p r) Error (List RemoteInfo)
  unfolding run_git_stdout_lines read_config remotes_from
  read_remotes = do
    names ← run_git_stdout_lines (codes "remote" ∷ [])
    if is_empty names then pure [] else (do
      configured_default ← read_config (codes "remote.default")
      remotes_from configured_default 0 names)

  -- the branch that is asked for, which must be there
  unfoldable pub named_branch : Text → Act (Reading p r) Error Text
  unfolding not_found
  named_branch b = do
    lift (as_argument (validate_ref_arg p.debug b))
    if eq b (codes "HEAD")
        then fail (
            structured (
              invalid_argument (
                codes
                  "getBranchStatus: branch must name a local branch; pass branch: null for the current branch")))
        else (do
          out ←
              on_repo p r (
                p.git_output
                  (codes "show-ref" ∷ codes "--verify" ∷ (codes "refs/heads/" ++ b) ∷ []))
          if out.success
              then pure b
              else fail (structured (invalid_argument (not_found p.debug b))))

  unfoldable pub current_branch : Act (Reading p r) Error Text
  unfolding run_git_stdout_lines
  current_branch = do
    names ← run_git_stdout_lines (codes "rev-parse" ∷ codes "--abbrev-ref" ∷ codes "HEAD" ∷ [])
    if is_empty (field 0 names) || eq (field 0 names) (codes "HEAD")
        then fail (
            structured (
              invalid_argument
                (codes "getBranchStatus: HEAD is detached; there is no current branch")))
        else pure (field 0 names)

  abbrev branch_for : Option Text → Act (Reading p r) Error Text
  unfolding named_branch current_branch
  branch_for (some b) = named_branch b
  branch_for none = current_branch

  abbrev upstream_of : Output → Option Text
  upstream_of out = if out.success then or_none (trim out.stdout) else none

  abbrev counts_for : Text → Option Text → Act (Reading p r) Error (ℕ × ℕ)
  unfolding behind_and_ahead rev_list_failed
  counts_for branch none = pure (0, 0)
  counts_for branch (some upstream) = do
    out ← on_repo p r (
        p.git_output (
          codes "rev-list"
          ∷ codes "--left-right"
          ∷ codes "--count"
          ∷ (upstream ++ (codes "..." ++ branch))
          ∷ []))
    if out.success
        then pure (behind_and_ahead out.stdout)
        else fail (structured (git_error (rev_list_failed out.stderr)))

  unfoldable pub read_branch_status : Option Text → Act (Reading p r) Error BranchStatus
  unfolding branch_for counts_for
  read_branch_status asked = do
    branch ← branch_for asked
    out ← on_repo p r (
        p.git_output
          (codes "rev-parse" ∷ codes "--abbrev-ref" ∷ (branch ++ codes "@{upstream}") ∷ []))
    (behind, ahead) ← counts_for branch (upstream_of out)
    pure (record { branch = branch; upstream = upstream_of out; ahead = ahead; behind = behind })

  unfoldable pub read_stash_list : Act (Reading p r) Error (List StashEntry)
  unfolding stash_entries stash_list_failed
  read_stash_list = do
    out ← on_repo p r (
        p.git_output (
          codes "stash"
          ∷ codes "list"
          ∷ (codes "--format=%gd" ++ 0x1f ∷ (codes "%s" ++ 0x1f ∷ codes "%cI"))
          ∷ []))
    if out.success
        then pure (stash_entries (lines out.stdout))
        else fail (structured (git_error (stash_list_failed out.stderr)))
