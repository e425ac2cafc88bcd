-- ===== src/WriteQueue/Stash.antt =====
-- The stash primitives and the auto-stash bracket of crates/engine/src/write_queue.rs.
pub mod Bracket
use git_bamboo.Prelude.{
  ℕ, Bool, true, false, not, ◌&&◌, ◌||◌, Option, none, some, List, [], ◌∷◌, ◌++◌, is_empty,
  if◌then◌else◌, Act, pure, fail, ◌>>=◌, ◌>>◌, Result, ok, err,
}
use git_bamboo.Prelude.Text.{Text, codes, trim, contains, Debug}
use git_bamboo.Protocol.{
  Error, plain, structured, BambooError, Fault, raised, git_error, stash_conflict, to_string, ℤ,
}
use git_bamboo.WriteQueue.Redact.{redact_credentials}
use git_bamboo.WriteQueue.Validate.{validate_stash_ref, validate_stash_message}
use git_bamboo.Host.{Output, Host, Run}
use git_bamboo.WriteQueue.Git.{
  Git, bail, reject, attempt, caught, run_git_raw, run_git_checked, display,
}

-- `if let Some(x) = o { check(x)?; }`
unfoldable pub check_opt :
    {S A : Type 0} → (A → Result Error (Unit {0})) → Option A → Act S Fault (Unit {0})
unfolding attempt pure
check_opt check none = pure tt
check_opt check (some a) = attempt (check a)

abbrev pub when : {A : Type 0} → Bool → List A → List A
when true xs = xs
when false xs = []

abbrev pub opt_list : {A : Type 0} → Option A → List A
opt_list none = []
opt_list (some a) = a ∷ []

abbrev pub message_args : Option Text → List Text
message_args none = []
message_args (some message) = codes "-m" ∷ message ∷ []

unfoldable pub stash_push_argv : Option Text → Bool → Bool → List Text
stash_push_argv message include_untracked staged_only =
    codes "stash"
    ∷ codes "push"
    ∷ (when include_untracked (codes "--include-untracked" ∷ [])
        ++ (when staged_only (codes "--staged" ∷ []) ++ message_args message))

abbrev pop_name : Bool → Text
pop_name apply = if apply then codes "apply" else codes "pop"

unfoldable pub stash_pop_argv : Option Text → Bool → Bool → List Text
stash_pop_argv stash_ref apply reinstate_index =
    codes "stash"
    ∷ pop_name apply
    ∷ (when reinstate_index (codes "--index" ∷ []) ++ opt_list stash_ref)

pub stash_push_failure : Output → Text
stash_push_failure out =
    codes "git stash push failed: " ++ trim (redact_credentials (out.stdout ++ out.stderr))

overwrite_reason : Text → Text
overwrite_reason op =
    codes "stash "
    ++ (op
        ++ codes
            " would overwrite local changes; nothing was applied. The stash entry is retained (your changes are safe in the stash)")

conflict_reason : Text → Text
conflict_reason op =
    codes "stash "
    ++ (op
        ++ codes
            " conflicted; stash retained (git does not drop the entry — your changes are safe in the stash; resolve the conflicted files in the worktree)")

pub pop_conflict_message : Bool → Text → Text → Text
pop_conflict_message only_overwrite op combined =
    (if only_overwrite then overwrite_reason op else conflict_reason op)
    ++ (codes ": " ++ trim combined)

pub pop_failure_message : Text → Text → Text
pop_failure_message op combined = codes "git stash " ++ (op ++ (codes " failed: " ++ trim combined))

-- the error of a pop or an apply that failed, by what git printed
unfoldable pub stash_pop_error : Bool → Text → BambooError
stash_pop_error apply combined =
    let op = pop_name apply in
    let conflicted =
      contains (codes "could not apply") combined || contains (codes "CONFLICT") combined in
    let would_overwrite = contains (codes "would be overwritten") combined in
    if conflicted || would_overwrite
    then stash_conflict (pop_conflict_message (would_overwrite && not conflicted) op combined)
    else git_error (pop_failure_message op combined)

pub aborted_message : Text → Text → Text
aborted_message op_desc e = codes "auto-stash failed; " ++ (op_desc ++ (codes " aborted: " ++ e))

pub stranded_message : Text → Text → Text
stranded_message e pop_err =
    e
    ++ (codes "\nAdditionally, restoring the stashed changes failed: "
        ++ (pop_err
            ++ codes "\nThe changes are retained in the stash; run `git stash pop` manually."))

pub retained_message : Text → Text → Text
retained_message op_desc inner =
    op_desc
    ++ (codes " succeeded, but restoring the stashed changes failed: "
        ++ (inner
            ++ codes "\nThe changes are retained in the stash; run `git stash pop` manually."))

-- an error after the operation succeeded keeps its structured code
unfoldable pub retained_error : Text → Error → Error
retained_error op_desc (structured b) =
    structured (record { code = b.code; message = retained_message op_desc b.message })
retained_error op_desc (plain msg) = plain (retained_message op_desc msg)

-- `output.push_str(..)` of what the operation and the pop printed, then `trim`
abbrev pop_output : Text → Text
pop_output [] = []
pop_output (c ∷ t) = b'\n' ∷ c ∷ t

abbrev pub stashed_note : Text
stashed_note = codes "stashed local changes; "

module _ (h : Host) where
  -- `stash_push`
  unfoldable pub stash_push : Option Text → Bool → Bool → Git h Text
  unfolding run_git_raw stash_push_argv
  stash_push message include_untracked staged_only = do
    check_opt validate_stash_message message
    out ← run_git_raw h (stash_push_argv message include_untracked staged_only)
    if out.success then pure (display out) else bail (stash_push_failure out)

  -- `stash_pop`
  unfoldable pub stash_pop : Option Text → Bool → Bool → Git h Text
  unfolding run_git_raw stash_pop_argv
  stash_pop stash_ref apply reinstate_index = do
    check_opt (validate_stash_ref h.debug) stash_ref
    out ← run_git_raw h (stash_pop_argv stash_ref apply reinstate_index)
    if out.success
        then pure (display out)
        else reject (stash_pop_error apply (redact_credentials (out.stdout ++ out.stderr)))

  unfoldable pub stash_result : Text → Result Error Text → Git h Bool
  stash_result op_desc (ok _) = pure true
  stash_result op_desc (err e) = bail (aborted_message op_desc (to_string e))

  -- the dirty check and the stash: whether anything was stashed
  unfoldable pub set_aside : Text → Bool → Git h Bool
  unfolding run_git_checked stash_push stash_result
  set_aside op_desc false = pure false
  set_aside op_desc true = do
    dirty ← run_git_checked h (codes "status" ∷ codes "--porcelain" ∷ []) []
    if is_empty (trim dirty)
        then pure false
        else do result ← caught (stash_push none true false); stash_result op_desc result

  -- after the operation failed with `e`: the stash was put back, or not
  unfoldable pub after_restore : Error → Result Error Text → Git h Text
  after_restore e (ok _) = fail (raised e)
  after_restore e (err pop_err) = bail (stranded_message (to_string e) (to_string pop_err))

  -- after the operation succeeded with output `out`
  unfoldable pub after_pop : Text → Text → Result Error Text → Git h Text
  after_pop op_desc out (ok popped) = pure (trim (stashed_note ++ (out ++ pop_output popped)))
  after_pop op_desc out (err e) = fail (raised (retained_error op_desc e))

  -- what follows the operation, by whether anything was stashed and how the operation ended
  unfoldable pub put_back : Text → Bool → Result Error Text → Git h Text
  unfolding stash_pop after_restore after_pop retained_error
  put_back op_desc false (ok out) = pure (trim out)
  put_back op_desc false (err e) = fail (raised e)
  put_back op_desc true (ok out) = do
    popped ← caught (stash_pop none false false)
    after_pop op_desc out popped
  put_back op_desc true (err e) = do
    popped ← caught (stash_pop none false false)
    after_restore e popped

  -- `run_with_auto_stash`
  unfoldable pub run_with_auto_stash : Text → Bool → Git h Text → Git h Text
  unfolding set_aside put_back
  run_with_auto_stash op_desc auto_stash main_op = do
    stashed ← set_aside op_desc auto_stash
    result ← caught main_op
    put_back op_desc stashed result
