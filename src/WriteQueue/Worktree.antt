-- ===== src/WriteQueue/Worktree.antt =====
-- Discarding changes, resolving conflicts and the commit guard of crates/engine/src/write_queue.rs.
use git_bamboo.Prelude.{
  ◌+◌, Option, none, some, List, [], ◌∷◌, ◌++◌, find, length, if◌then◌else◌, pure, ◌>>=◌, ◌>>◌,
  Result, ok, err, and_then,
}
use git_bamboo.Prelude.Text.{Text, codes, eq, last_is, show, Debug}
use git_bamboo.Protocol.{
  Error, structured, BambooError, git_error, invalid_argument, to_string, ConflictKind,
  ConflictResolution,
}
use git_bamboo.WriteQueue.Validate.{Checked, refuse, validate_path_arg}
use git_bamboo.WriteQueue.Conflict.{
  porcelain_conflict_kind, ConflictAction, take_ours, take_theirs, remove, action_for,
}
use git_bamboo.WriteQueue.Porcelain.{
  Entry, Classified, is_conflicted, parse_porcelain_z, classify_entries,
}
use git_bamboo.Host.{Host}
use git_bamboo.WriteQueue.Git.{Git, bail, attempt, or_panic, caught, run_git_checked}

abbrev pub status_args : List Text
status_args = codes "status" ∷ codes "--porcelain" ∷ codes "-z" ∷ []

pub directory_message : Debug → Text → Text
directory_message d p = codes "discard paths must name files, not directories: " ++ d.str p

pub conflict_directory_message : Debug → Text → Text
conflict_directory_message d p =
    codes "conflict paths must name files, not directories: " ++ d.str p

-- a path of a discard
unfoldable pub check_discard_path : Debug → Text → Checked
check_discard_path d p =
    and_then (validate_path_arg d p)
      λ _. if last_is b'/' p then refuse (directory_message d p) else ok tt

-- `for p in paths { check(p)?; }`
unfoldable pub check_all : (Text → Checked) → List Text → Checked
check_all check [] = ok tt
check_all check (p ∷ ps) = and_then (check p) λ _. check_all check ps

pub discarded_message : Classified → Text
discarded_message c =
    codes "discarded "
    ++ (show (length c.tracked)
        ++ (codes " tracked and "
            ++ (show (length c.untracked + length c.intent_to_add) ++ codes " untracked path(s)")))

pub not_conflicted_message : Debug → Text → Text
not_conflicted_message d path =
    d.str path
    ++ codes
        " is not a conflicted file (its state may have changed since the UI snapshot — refresh and retry)"

pub cannot_commit_message : Debug → Text → Text
cannot_commit_message d path =
    codes "cannot commit: "
    ++ (d.str path
        ++ codes " has unresolved merge conflicts (resolve them in the Commit view first)")

pub resolved_message : Debug → Text → Text → Text
resolved_message d path how =
    codes "resolved conflict in " ++ (d.str path ++ (codes " (" ++ (how ++ codes ")")))

-- the kind of the one reported entry, if it is the path itself and conflicted
unfoldable pub sole_conflict : Text → List Entry → Option ConflictKind
sole_conflict path [] = none
sole_conflict path ((xy, p) ∷ []) = if eq p path then porcelain_conflict_kind xy else none
sole_conflict path (e ∷ f ∷ es) = none

abbrev kind_result : Debug → Text → Option ConflictKind → Result Error ConflictKind
kind_result d path (some kind) = ok kind
kind_result d path none = err (structured (invalid_argument (not_conflicted_message d path)))

-- `.map_err(|e| BambooError::git_error(e.to_string()))?`
abbrev as_git_error : {A : Type 0} → Result Error A → Result Error A
as_git_error (ok a) = ok a
as_git_error (err e) = err (structured (git_error (to_string e)))

abbrev pub from_bamboo : {A : Type 0} → Result BambooError A → Result Error A
from_bamboo (ok a) = ok a
from_bamboo (err e) = err (structured e)

abbrev guard_result : Debug → Option Entry → Checked
guard_result d none = ok tt
guard_result d (some (_, path)) = refuse (cannot_commit_message d path)

module _ (h : Host) where
  -- a command that runs only if there are paths for it
  unfoldable pub run_if_any : List Text → List Text → Git h (Unit {0})
  run_if_any args [] = pure tt
  run_if_any args (p ∷ ps) = do out ← run_git_checked h args (p ∷ ps); pure tt

  -- the status of some paths, as entries
  unfoldable pub read_status : List Text → Git h (List Entry)
  unfolding run_git_checked
  read_status paths = do out ← run_git_checked h status_args paths; or_panic (parse_porcelain_z out)

  -- `classify_discard_paths`
  unfoldable pub classify_discard_paths : List Text → Git h Classified
  unfolding read_status
  classify_discard_paths paths = do
    entries ← read_status paths
    attempt (classify_entries h.debug entries paths)

  -- `discard_changes`
  unfoldable pub discard_changes : List Text → Git h Text
  unfolding classify_discard_paths run_if_any
  discard_changes paths = do
    attempt (check_all (check_discard_path h.debug) paths)
    c ← classify_discard_paths paths
    run_if_any (codes "checkout" ∷ []) c.tracked
    run_if_any (codes "clean" ∷ codes "-f" ∷ []) c.untracked
    run_if_any (codes "rm" ∷ codes "-f" ∷ []) c.intent_to_add
    pure (discarded_message c)

  -- `classify_conflict_path`
  unfoldable pub classify_conflict_path : Text → Git h ConflictKind
  unfolding run_git_checked
  classify_conflict_path path = do
    result ← caught (run_git_checked h status_args (path ∷ []))
    out ← attempt (as_git_error result)
    entries ← or_panic (parse_porcelain_z out)
    attempt (kind_result h.debug path (sole_conflict path entries))

  -- `assert_no_unmerged_paths`
  unfoldable pub assert_no_unmerged_paths : Git h (Unit {0})
  unfolding read_status
  assert_no_unmerged_paths = do
    entries ← read_status []
    attempt (guard_result h.debug (find is_conflicted entries))

  -- the git commands of an action, and the summary
  unfoldable pub perform : Text → ConflictAction → Git h Text
  unfolding run_git_checked
  perform path take_ours = do
    a ← run_git_checked h (codes "checkout" ∷ codes "--ours" ∷ []) (path ∷ [])
    b ← run_git_checked h (codes "add" ∷ []) (path ∷ [])
    pure (resolved_message h.debug path (codes "kept ours"))
  perform path take_theirs = do
    a ← run_git_checked h (codes "checkout" ∷ codes "--theirs" ∷ []) (path ∷ [])
    b ← run_git_checked h (codes "add" ∷ []) (path ∷ [])
    pure (resolved_message h.debug path (codes "kept theirs"))
  perform path remove = do
    a ← run_git_checked h (codes "rm" ∷ codes "-f" ∷ []) (path ∷ [])
    pure (resolved_message h.debug path (codes "confirmed the deletion"))

  -- `resolve_conflict`
  unfoldable pub resolve_conflict : Text → ConflictResolution → Git h Text
  unfolding classify_conflict_path perform
  resolve_conflict path resolution = do
    attempt (validate_path_arg h.debug path)
    if last_is b'/' path then bail (conflict_directory_message h.debug path) else do
      kind ← classify_conflict_path path
      action ← attempt (from_bamboo (action_for kind resolution))
      perform path action
