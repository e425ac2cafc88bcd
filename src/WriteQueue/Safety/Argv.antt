-- ===== src/WriteQueue/Safety/Argv.antt =====
-- The argument lists of the commands of the write queue in crates/engine/src/write_queue.rs.
use git_bamboo.Prelude.{
  Bool, true, false, Option, none, some, List, [], ◌∷◌, All, All-append, ◌≡◌, refl, Preserves,
  Preserves-bind, Preserves-fail, Preserves-if,
}
use git_bamboo.Prelude.Text.{Text, codes, eq, has}
use git_bamboo.Protocol.{panicked, ConflictResolution}
use git_bamboo.Host.{Host, Run}
use git_bamboo.WriteQueue.Command.{WriteCommand}
use git_bamboo.WriteQueue.Command
use git_bamboo.WriteQueue.Git.{literal_pathspecs}
use git_bamboo.WriteQueue.Stash.{opt_list}
use git_bamboo.WriteQueue.Worktree.{discard_changes, resolve_conflict}
use git_bamboo.WriteQueue.Execute.{commit_argv, delete_flag, fetch_args, execute_command}
use git_bamboo.WriteQueue.Safety.{
  is_fine, IsSafe, done, word, message, paths, Invariant, On, Safe, bail-Preserves,
  attempt-Preserves, attempt-bind-Preserves,
}
use git_bamboo.WriteQueue.Safety.Operations.{
  literal-starts, opt-IsSafe, check_opt-Preserves, stash_push-Preserves, stash_pop-Preserves,
}
use git_bamboo.WriteQueue.Safety.Commands.{
  Fine, stash-Fine, ref-Fine, inline-Preserves, inline_network-Preserves, no_unmerged-Preserves,
  run_push-Preserves, run_pull-Preserves, switch-Preserves, discard_changes-Preserves,
  resolve_conflict-Preserves,
}

stage-IsSafe : (ps : List Text) → IsSafe (codes "--" ∷ literal_pathspecs ps)
stage-IsSafe ps = paths (literal-starts ps)

commit-IsSafe : (m : Text) (amend : Bool) → IsSafe (commit_argv m amend)
unfolding commit_argv is_fine eq
commit-IsSafe m true = word refl (word refl (word refl done))
commit-IsSafe m false = word refl message

delete_flag-fine : (b : Bool) → is_fine (delete_flag b) ≡ true
unfolding delete_flag is_fine eq
delete_flag-fine true = refl
delete_flag-fine false = refl

fetch_args-IsSafe : (o : Option Text) → Fine (opt_list o) → IsSafe (fetch_args o)
unfolding is_fine eq
fetch_args-IsSafe none v = word refl done
fetch_args-IsSafe (some r) v = word v.0 done

-- the invariant that all arguments so far are safe
abbrev Arguments : Invariant
Arguments = record {
  Holds = λ trace u epoch events. All IsSafe trace;
  behind = λ argv a s. All-append IsSafe _ (argv ∷ []) s (a, tt);
}

module _ (h : Host) (inv : Invariant) where
  pub execute_command-Preserves : (cmd : WriteCommand) → Preserves (On inv) (execute_command h cmd)
  unfolding execute_command is_fine eq
  execute_command-Preserves (Command.undo id) = Preserves-fail panicked
  execute_command-Preserves (Command.discard ps) = Preserves-fail panicked
  execute_command-Preserves (Command.resolve_conflict p r) = Preserves-fail panicked
  execute_command-Preserves (Command.switch_branch n a) = switch-Preserves h inv n a
  execute_command-Preserves (Command.pull r b s a) = run_pull-Preserves h inv r b s a
  execute_command-Preserves (Command.push r b m u) = run_push-Preserves h inv r b m u
  execute_command-Preserves (Command.stash_push m u s) = stash_push-Preserves h inv m u s
  execute_command-Preserves (Command.stash_pop o a i) = stash_pop-Preserves h inv o a i
  execute_command-Preserves (Command.stash_drop o) =
      check_opt-Preserves h inv _ o _ (stash-Fine h)
        λ v. inline-Preserves h inv _ (word refl (word refl (opt-IsSafe o v)))
  execute_command-Preserves (Command.stage ps) =
      Preserves-bind _ _ (attempt-Preserves h inv _)
        λ _. inline-Preserves h inv _ (word refl (stage-IsSafe ps))
  execute_command-Preserves (Command.unstage ps) =
      Preserves-bind _ _ (attempt-Preserves h inv _)
        λ _. inline-Preserves h inv _ (word refl (word refl (stage-IsSafe ps)))
  execute_command-Preserves (Command.commit m a) =
      Preserves-bind _ _ (no_unmerged-Preserves h inv) λ _.
        Preserves-if (has 0 m) _ _ (λ _. bail-Preserves h inv (codes "commit message contains NUL"))
          λ _. inline-Preserves h inv _ (commit-IsSafe m a)
  execute_command-Preserves (Command.create_branch n b) = attempt-bind-Preserves h inv _ _ λ _ e.
      check_opt-Preserves h inv _ b _ (ref-Fine h)
        λ v. inline-Preserves h inv _ (word refl (word (ref-Fine h n e) (opt-IsSafe b v)))
  execute_command-Preserves (Command.delete_branch n f) = attempt-bind-Preserves h inv _ _ λ _ e.
      inline-Preserves h inv _ (word refl (word (delete_flag-fine f) (word (ref-Fine h n e) done)))
  execute_command-Preserves (Command.fetch o) =
      check_opt-Preserves h inv _ o _ (ref-Fine h)
        λ v. inline_network-Preserves h inv _ (word refl (fetch_args-IsSafe o v))

module _ (h : Host) where
  -- If every argument list run so far is safe, then so is every one after `execute_command` has
  -- carried out a command, whatever the command and however it ends: each argument is an option that
  -- the engine itself writes, or does not begin with a dash, or is the message behind a final `-m`,
  -- and behind `--` there are literal pathspecs only.
  pub execute_command-Safe :
      (cmd : WriteCommand) (r : Run h) → Safe r → Safe (execute_command h cmd r).1
  unfolding Safe
  execute_command-Safe cmd = (execute_command-Preserves h Arguments cmd).at

  -- If every argument list run so far is safe, then so is every one after a discard, whatever paths
  -- are requested and whatever git reports of them, and every one after a conflict's resolution.
  pub worktree-Safe :
      (ps : List Text) (p : Text) (k : ConflictResolution) (r : Run h)
      → Safe r
      → Safe (discard_changes h ps r).1 × Safe (resolve_conflict h p k r).1
  unfolding Safe
  worktree-Safe ps p k r v = (
    (discard_changes-Preserves h Arguments ps).at r v,
    (resolve_conflict-Preserves h Arguments p k).at r v,
  )
