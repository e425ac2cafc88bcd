-- ===== src/WriteQueue/Execute.antt =====
-- `execute_command` of crates/engine/src/write_queue.rs.
use git_bamboo.Prelude.{
  Bool, Option, none, some, List, [], ◌∷◌, ◌++◌, if◌then◌else◌, pure, fail, ◌>>=◌, ◌>>◌,
}
use git_bamboo.Prelude.Text.{Text, codes, trim, has}
use git_bamboo.Protocol.{panicked}
use git_bamboo.Host.{Output, Host}
use git_bamboo.WriteQueue.Command.{
  WriteCommand, stage, unstage, discard, resolve_conflict, commit, create_branch, delete_branch,
  fetch, pull, push, stash_push, stash_pop, stash_drop, undo,
}
use git_bamboo.WriteQueue.Redact.{redact_credentials}
use git_bamboo.WriteQueue.Validate.{validate_path_arg, validate_ref_arg, validate_stash_ref}
use git_bamboo.WriteQueue.Git.{Git, bail, attempt, literal_pathspecs, run_git_raw, run_git_network}
use git_bamboo.WriteQueue.Stash
use git_bamboo.WriteQueue.Stash.{check_opt, opt_list}
use git_bamboo.WriteQueue.Remote
use git_bamboo.WriteQueue.Remote.{run_pull, run_push}
use git_bamboo.WriteQueue.Worktree.{check_all, assert_no_unmerged_paths}

pub command_failure : Output → Text
command_failure out = codes "git command failed: " ++ trim (redact_credentials out.stderr)

-- the display form of the inline commands: trimmed behind the redaction
unfoldable pub inline_display : Output → Text
inline_display out = trim (redact_credentials (out.stdout ++ out.stderr))

unfoldable pub commit_argv : Text → Bool → List Text
commit_argv message amend =
    codes "commit"
    ∷ (if amend then codes "--amend" ∷ codes "--no-edit" ∷ [] else codes "-m" ∷ message ∷ [])

unfoldable pub delete_flag : Bool → Text
delete_flag forced = if forced then codes "-D" else codes "-d"

abbrev pub fetch_args : Option Text → List Text
fetch_args none = codes "--all" ∷ []
fetch_args (some remote) = remote ∷ []

module _ (h : Host) where
  -- the outcome of an inline command
  unfoldable pub finish : Output → Git h Text
  finish out = if out.success then pure (inline_display out) else bail (command_failure out)

  -- an argv that is built inline and run once
  unfoldable pub run_inline : List Text → Git h Text
  unfolding run_git_raw finish inline_display
  run_inline argv = do out ← run_git_raw h argv; finish out

  unfoldable pub run_inline_network : List Text → Git h Text
  unfolding run_git_network finish inline_display
  run_inline_network argv = do out ← run_git_network h argv; finish out

  -- `execute_command`; the three commands that the queue routes itself are `unreachable!` here
  unfoldable pub execute_command : WriteCommand → Git h Text
  unfolding run_inline run_inline_network commit_argv delete_flag
  execute_command (undo transaction_id) = fail panicked
  execute_command (discard paths) = fail panicked
  execute_command (resolve_conflict path resolution) = fail panicked
  execute_command (WriteCommand.switch_branch name auto_stash) =
      Remote.switch_branch h name auto_stash
  execute_command (pull remote branch strategy auto_stash) =
      run_pull h remote branch strategy auto_stash
  execute_command (push remote branch mode set_upstream) =
      run_push h remote branch mode set_upstream
  execute_command (stash_push message include_untracked staged_only) =
      Stash.stash_push h message include_untracked staged_only
  execute_command (stash_pop stash_ref apply reinstate_index) =
      Stash.stash_pop h stash_ref apply reinstate_index
  execute_command (stash_drop stash_ref) = do
    check_opt (validate_stash_ref h.debug) stash_ref
    run_inline (codes "stash" ∷ codes "drop" ∷ opt_list stash_ref)
  execute_command (stage paths) = do
    attempt (check_all (validate_path_arg h.debug) paths)
    run_inline (codes "add" ∷ codes "--" ∷ literal_pathspecs paths)
  execute_command (unstage paths) = do
    attempt (check_all (validate_path_arg h.debug) paths)
    run_inline (codes "reset" ∷ codes "HEAD" ∷ codes "--" ∷ literal_pathspecs paths)
  execute_command (commit message amend) = do
    assert_no_unmerged_paths h
    if has 0 message
        then bail (codes "commit message contains NUL")
        else run_inline (commit_argv message amend)
  execute_command (create_branch name base) = do
    attempt (validate_ref_arg h.debug name)
    check_opt (validate_ref_arg h.debug) base
    run_inline (codes "branch" ∷ name ∷ opt_list base)
  execute_command (delete_branch name forced) = do
    attempt (validate_ref_arg h.debug name)
    run_inline (codes "branch" ∷ delete_flag forced ∷ name ∷ [])
  execute_command (fetch remote) = do
    check_opt (validate_ref_arg h.debug) remote
    run_inline_network (codes "fetch" ∷ fetch_args remote)
