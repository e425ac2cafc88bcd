-- ===== src/WriteQueue/Safety/Commands.antt =====
-- Each operation of crates/engine/src/write_queue.rs runs safe argument lists only.
use git_bamboo.Prelude.{
  Bool, true, false, Option, none, some, List, [], ◌∷◌, ◌++◌, All, ◌≡◌, refl, ok, ◌>>◌, Preserves,
  Preserves-pure, Preserves-bind, Preserves-if,
}
use git_bamboo.Prelude.Text.{Text, codes, eq, last_is}
use git_bamboo.Protocol.{
  ForceMode, no_force, lease, force, PullStrategy, default, merge, rebase, ff_only,
  ConflictResolution,
}
use git_bamboo.Host.{Host}
use git_bamboo.WriteQueue.Validate.{validate_ref_arg, validate_stash_ref}
use git_bamboo.WriteQueue.Validate.Dashes.{ref_arg_no_dash, pushspec_no_dash, stash_ref_no_dash}
use git_bamboo.WriteQueue.Conflict.{ConflictAction, take_ours, take_theirs, remove, action_for}
use git_bamboo.WriteQueue.Git.{Git}
use git_bamboo.WriteQueue.Stash.{when, opt_list}
use git_bamboo.WriteQueue.Remote.{
  force_args, push_argv, run_push, strategy_args, remote_args, pull_argv, check_branch, pull_op,
  run_pull, switch_branch,
}
use git_bamboo.WriteQueue.Worktree.{
  conflict_directory_message, from_bamboo, status_args, run_if_any, read_status,
  classify_discard_paths, discard_changes, classify_conflict_path, assert_no_unmerged_paths,
  perform, resolve_conflict,
}
use git_bamboo.WriteQueue.Execute.{finish, run_inline, run_inline_network}
use git_bamboo.WriteQueue.Safety.{
  is_fine, IsSafe, done, word, fine_no_dash, Invariant, On, bail-Preserves, reject-Preserves,
  attempt-Preserves, caught-Preserves, attempt-bind-Preserves, safe_rules,
}
use git_bamboo.WriteQueue.Safety.Operations.{
  checked-Preserves, check_opt-Preserves, auto_stash-Preserves,
}

abbrev pub Fine : List Text → Type 0
Fine = All (λ a. is_fine a ≡ true)

push-IsSafe :
    (remote branch : Text) (mode : ForceMode) (u : Bool)
    → is_fine remote ≡ true
    → is_fine branch ≡ true
    → IsSafe (push_argv remote branch mode u)
unfolding push_argv force_args is_fine eq
push-IsSafe remote branch mode u hr hb = word refl (forced mode (upstream u))
  where
    upstream : (u : Bool) → IsSafe (when u (codes "--set-upstream" ∷ []) ++ remote ∷ branch ∷ [])
    upstream true = word refl (word hr (word hb done))
    upstream false = word hr (word hb done)

    forced : (mode : ForceMode) {rest : List Text} → IsSafe rest → IsSafe (force_args mode ++ rest)
    forced no_force s = s
    forced lease s = word refl s
    forced force s = word refl s

remote_args-IsSafe : (r b : Option Text) → Fine (remote_args r b) → IsSafe (remote_args r b)
remote_args-IsSafe none b v = done
remote_args-IsSafe (some r) none v = word v.0 done
remote_args-IsSafe (some r) (some b) v = word v.0 (word v.1.0 done)

pull-IsSafe :
    (r b : Option Text) (s : PullStrategy) → Fine (remote_args r b) → IsSafe (pull_argv r b s)
unfolding pull_argv strategy_args is_fine eq
pull-IsSafe r b default v = word refl (remote_args-IsSafe r b v)
pull-IsSafe r b merge v = word refl (word refl (remote_args-IsSafe r b v))
pull-IsSafe r b rebase v = word refl (word refl (remote_args-IsSafe r b v))
pull-IsSafe r b ff_only v = word refl (word refl (remote_args-IsSafe r b v))

module _ (h : Host) where
  pub ref-Fine : (t : Text) → validate_ref_arg h.debug t ≡ ok tt → is_fine t ≡ true
  ref-Fine t e = fine_no_dash t (ref_arg_no_dash h.debug t e)

  pub stash-Fine : (t : Text) → validate_stash_ref h.debug t ≡ ok tt → is_fine t ≡ true
  stash-Fine t e = fine_no_dash t (stash_ref_no_dash h.debug t e)

module _ (h : Host) (inv : Invariant) where
  pub run_push-Preserves :
      (r b : Text) (m : ForceMode) (u : Bool) → Preserves (On inv) (run_push h r b m u)
  unfolding run_push
  run_push-Preserves r b m u = attempt-bind-Preserves h inv _ _ λ _ hr.
      attempt-bind-Preserves h inv _ _ λ _ hb. search (
        safe_rules,
        push-IsSafe r b m u (ref-Fine h r hr) (fine_no_dash b (pushspec_no_dash h.debug b hb)),
      )

  pull_op-Preserves : (argv : List Text) → IsSafe argv → Preserves (On inv) (pull_op h argv)
  unfolding pull_op
  pull_op-Preserves argv v = search safe_rules

  branch-Preserves :
      {B : Type 0} (r b : Option Text) (m : Git h B)
      → Fine (opt_list r)
      → (Fine (remote_args r b) → Preserves (On inv) m)
      → Preserves (On inv) (check_branch h r b >> m)
  unfolding check_branch
  branch-Preserves none none m v k = Preserves-bind _ _ (Preserves-pure tt) λ _. k tt
  branch-Preserves (some r) none m v k = Preserves-bind _ _ (Preserves-pure tt) λ _. k v
  branch-Preserves none (some b) m v k = Preserves-bind _ _ (reject-Preserves h inv _) λ _. k tt
  branch-Preserves (some r) (some b) m v k =
      attempt-bind-Preserves h inv _ _ λ _ e. k (v.0, (ref-Fine h b e, tt))

  pub run_pull-Preserves :
      (r b : Option Text) (s : PullStrategy) (a : Bool) → Preserves (On inv) (run_pull h r b s a)
  unfolding run_pull
  run_pull-Preserves r b s a =
      check_opt-Preserves h inv (validate_ref_arg h.debug) r _ (ref-Fine h) λ v.
        branch-Preserves r b _ v λ w.
          auto_stash-Preserves h inv _ a _
            (pull_op-Preserves (pull_argv r b s) (pull-IsSafe r b s w))

  pub switch-Preserves : (n : Text) (a : Bool) → Preserves (On inv) (switch_branch h n a)
  unfolding switch_branch is_fine eq
  switch-Preserves n a = attempt-bind-Preserves h inv _ _ λ _ e.
      auto_stash-Preserves h inv _ a _
        (checked-Preserves h inv (codes "switch" ∷ n ∷ []) [] (refl, (ref-Fine h n e, tt)))

  pub inline-Preserves : (argv : List Text) → IsSafe argv → Preserves (On inv) (run_inline h argv)
  unfolding run_inline finish
  inline-Preserves argv v = search safe_rules

  pub inline_network-Preserves :
      (argv : List Text) → IsSafe argv → Preserves (On inv) (run_inline_network h argv)
  unfolding run_inline_network finish
  inline_network-Preserves argv v = search safe_rules

  read_status-Preserves : (ps : List Text) → Preserves (On inv) (read_status h ps)
  unfolding read_status is_fine eq
  read_status-Preserves ps =
      search (safe_rules, checked-Preserves h inv status_args ps (refl, (refl, (refl, tt))))

  pub no_unmerged-Preserves : Preserves (On inv) (assert_no_unmerged_paths h)
  unfolding assert_no_unmerged_paths
  no_unmerged-Preserves = search (safe_rules, read_status-Preserves [])

  run_if_any-Preserves :
      (args ps : List Text) → Fine args → Preserves (On inv) (run_if_any h args ps)
  unfolding run_if_any
  run_if_any-Preserves args [] v = Preserves-pure tt
  run_if_any-Preserves args (p ∷ ps) v =
      search (safe_rules, checked-Preserves h inv args (p ∷ ps) v)

  classify_discard-Preserves : (ps : List Text) → Preserves (On inv) (classify_discard_paths h ps)
  unfolding classify_discard_paths
  classify_discard-Preserves ps = search (safe_rules, read_status-Preserves ps)

  pub discard_changes-Preserves : (ps : List Text) → Preserves (On inv) (discard_changes h ps)
  unfolding discard_changes is_fine eq
  discard_changes-Preserves ps = Preserves-bind _ _ (attempt-Preserves h inv _) λ _.
      Preserves-bind _ _ (classify_discard-Preserves ps) λ c.
        Preserves-bind _ _ (run_if_any-Preserves (codes "checkout" ∷ []) c.tracked (refl, tt)) λ _.
          Preserves-bind _ _
            (run_if_any-Preserves (codes "clean" ∷ codes "-f" ∷ []) c.untracked (refl, (refl, tt)))
            λ _.
              Preserves-bind _ _
                (run_if_any-Preserves (codes "rm" ∷ codes "-f" ∷ []) c.intent_to_add
                  (refl, (refl, tt)))
                λ _. Preserves-pure _

  classify_conflict-Preserves : (p : Text) → Preserves (On inv) (classify_conflict_path h p)
  unfolding classify_conflict_path is_fine eq
  classify_conflict-Preserves p =
      Preserves-bind _ _
        (caught-Preserves h inv _
          (checked-Preserves h inv status_args (p ∷ []) (refl, (refl, (refl, tt)))))
        λ r. search safe_rules

  -- one command, and `add` of the path behind it
  perform-Preserves : (p : Text) (a : ConflictAction) → Preserves (On inv) (perform h p a)
  unfolding perform is_fine eq
  perform-Preserves p take_ours =
      Preserves-bind _ _
        (checked-Preserves h inv (codes "checkout" ∷ codes "--ours" ∷ []) (p ∷ [])
          (refl, (refl, tt)))
        λ _.
          Preserves-bind _ _ (checked-Preserves h inv (codes "add" ∷ []) (p ∷ []) (refl, tt))
            λ _. Preserves-pure _
  perform-Preserves p take_theirs =
      Preserves-bind _ _
        (checked-Preserves h inv (codes "checkout" ∷ codes "--theirs" ∷ []) (p ∷ [])
          (refl, (refl, tt)))
        λ _.
          Preserves-bind _ _ (checked-Preserves h inv (codes "add" ∷ []) (p ∷ []) (refl, tt))
            λ _. Preserves-pure _
  perform-Preserves p remove =
      Preserves-bind _ _
        (checked-Preserves h inv (codes "rm" ∷ codes "-f" ∷ []) (p ∷ []) (refl, (refl, tt)))
        λ _. Preserves-pure _

  pub resolve_conflict-Preserves :
      (p : Text) (r : ConflictResolution) → Preserves (On inv) (resolve_conflict h p r)
  unfolding resolve_conflict
  resolve_conflict-Preserves p r = Preserves-bind _ _ (attempt-Preserves h inv _) λ _.
      Preserves-if (last_is b'/' p) _ _
        (λ _. bail-Preserves h inv (conflict_directory_message h.debug p))
        λ _. Preserves-bind _ _ (classify_conflict-Preserves p) λ k.
          Preserves-bind _ _ (attempt-Preserves h inv (from_bamboo (action_for k r)))
            (perform-Preserves p)
