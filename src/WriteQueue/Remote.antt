-- ===== src/WriteQueue/Remote.antt =====
-- Push, pull and branch switching in crates/engine/src/write_queue.rs.
use git_bamboo.Prelude.{
  Bool, ◌||◌, Option, none, some, List, [], ◌∷◌, ◌++◌, if◌then◌else◌, pure, ◌>>=◌, ◌>>◌,
}
use git_bamboo.Prelude.Text.{Text, codes, trim, contains, Debug}
use git_bamboo.Protocol.{
  BambooError, git_error, push_rejected, auth_required, invalid_argument, PullStrategy, default,
  merge, rebase, ff_only, ForceMode, no_force, lease, force,
}
use git_bamboo.WriteQueue.Redact.{redact_credentials}
use git_bamboo.WriteQueue.Validate.{validate_ref_arg, validate_pushspec}
use git_bamboo.Host.{Output, Host}
use git_bamboo.WriteQueue.Git.{
  Git, bail, reject, attempt, run_git_network, run_git_checked, display,
}
use git_bamboo.WriteQueue.Stash.{when, opt_list, check_opt, run_with_auto_stash}

pub rejected_message : Text → Text → Text → Text
rejected_message remote branch combined =
    codes "push to "
    ++ (remote
        ++ (codes "/"
            ++ (branch
                ++ (codes
                      " was rejected (remote has newer commits, or the force-with-lease protection tripped): "
                    ++ trim combined))))

pub auth_message : Text → Text → Text
auth_message remote combined =
    codes "authentication required for " ++ (remote ++ (codes ": " ++ trim combined))

-- the texts that mean a rejection, and those that mean failed authentication, in lower case
unfoldable pub says_rejected : Text → Bool
says_rejected lower =
    contains (codes "[rejected") lower
    || contains (codes "rejected (fetch first)") lower
    || contains (codes "(non-fast-forward)") lower

unfoldable pub says_auth : Text → Bool
says_auth lower =
    contains (codes "could not read username") lower
    || contains (codes "authentication failed") lower
    || contains (codes "terminal prompts disabled") lower
    || contains (codes "permission denied") lower
    || contains (codes "host key verification failed") lower
    || contains (codes "access denied") lower
    || contains (codes "invalid username or password") lower

-- `classify_push_error`; `to_lowercase` is Unicode's
unfoldable pub classify_push_error : (Text → Text) → Text → Text → Output → BambooError
classify_push_error to_lowercase remote branch out =
    let combined = redact_credentials (out.stdout ++ out.stderr) in
    let lower = to_lowercase combined in
    if says_rejected lower
    then push_rejected (rejected_message remote branch combined)
    else if says_auth lower
    then auth_required (auth_message remote combined)
    else git_error (trim combined)

unfoldable pub force_args : ForceMode → List Text
force_args lease = codes "--force-with-lease" ∷ []
force_args force = codes "--force" ∷ []
force_args no_force = []

unfoldable pub push_argv : Text → Text → ForceMode → Bool → List Text
unfolding force_args
push_argv remote branch mode set_upstream =
    codes "push"
    ∷ (force_args mode ++ (when set_upstream (codes "--set-upstream" ∷ []) ++ remote ∷ branch ∷ []))

unfoldable pub strategy_args : PullStrategy → List Text
strategy_args default = []
strategy_args merge = codes "--no-rebase" ∷ []
strategy_args rebase = codes "--rebase" ∷ []
strategy_args ff_only = codes "--ff-only" ∷ []

-- the branch is an argument only behind a remote
abbrev pub remote_args : Option Text → Option Text → List Text
remote_args none branch = []
remote_args (some remote) branch = remote ∷ opt_list branch

unfoldable pub pull_argv : Option Text → Option Text → PullStrategy → List Text
unfolding strategy_args
pull_argv remote branch strategy =
    codes "pull" ∷ (strategy_args strategy ++ remote_args remote branch)

pub pull_failure : Output → Text
pull_failure out = codes "git pull failed: " ++ trim (redact_credentials (out.stdout ++ out.stderr))

pub branch_needs_remote : Text
branch_needs_remote =
    codes "pull: branch requires a remote; to pull the current branch from its upstream, omit both"

pub switch_desc : Debug → Text → Text
switch_desc d name = codes "switch to branch " ++ d.str name

module _ (h : Host) where
  -- `run_push`
  unfoldable pub run_push : Text → Text → ForceMode → Bool → Git h Text
  unfolding run_git_network push_argv
  run_push remote branch mode set_upstream = do
    attempt (validate_ref_arg h.debug remote)
    attempt (validate_pushspec h.debug branch)
    out ← run_git_network h (push_argv remote branch mode set_upstream)
    if out.success
        then pure (display out)
        else reject (classify_push_error h.to_lowercase remote branch out)

  unfoldable pub check_branch : Option Text → Option Text → Git h (Unit {0})
  check_branch remote none = pure tt
  check_branch none (some branch) = reject (invalid_argument branch_needs_remote)
  check_branch (some remote) (some branch) = attempt (validate_ref_arg h.debug branch)

  -- the operation that the auto-stash of a pull brackets
  unfoldable pub pull_op : List Text → Git h Text
  unfolding run_git_network
  pull_op argv = do
    out ← run_git_network h argv
    if out.success then pure (display out) else bail (pull_failure out)

  -- `run_pull`
  unfoldable pub run_pull : Option Text → Option Text → PullStrategy → Bool → Git h Text
  unfolding check_branch pull_op pull_argv run_with_auto_stash
  run_pull remote branch strategy auto_stash = do
    check_opt (validate_ref_arg h.debug) remote
    check_branch remote branch
    run_with_auto_stash h (codes "pull") auto_stash (pull_op (pull_argv remote branch strategy))

  -- `switch_branch`
  unfoldable pub switch_branch : Text → Bool → Git h Text
  unfolding run_git_checked run_with_auto_stash
  switch_branch name auto_stash = do
    attempt (validate_ref_arg h.debug name)
    run_with_auto_stash h (switch_desc h.debug name) auto_stash
        (run_git_checked h (codes "switch" ∷ name ∷ []) [])
