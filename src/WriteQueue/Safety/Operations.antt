-- ===== src/WriteQueue/Safety/Operations.antt =====
-- No argument of a caller is ever read by git as an option, whichever command is run.
use git_bamboo.Prelude.{
  Bool, true, false, Option, none, some, List, [], ◌∷◌, ◌++◌, All, All-map, ◌≡◌, refl, Result, ok,
  err, pure, ◌>>◌, Preserves, Preserves-pure, Preserves-bind, Preserves-if,
}
use git_bamboo.Prelude.Text.{Text, codes, eq, starts_with}
use git_bamboo.Protocol.{Error}
use git_bamboo.Host.{Host}
use git_bamboo.WriteQueue.Validate.{validate_stash_ref, validate_stash_message}
use git_bamboo.WriteQueue.Validate.Dashes.{stash_ref_no_dash}
use git_bamboo.WriteQueue.Git.{Git, literal_pathspecs, path_args, run_git_checked}
use git_bamboo.WriteQueue.Stash.{
  check_opt, when, opt_list, stash_push_argv, stash_pop_argv, stash_push, stash_pop, stash_result,
  set_aside, message_args, after_restore, after_pop, put_back, run_with_auto_stash,
}
use git_bamboo.WriteQueue.Safety.{
  is_fine, IsSafe, done, word, message, paths, words, fine_no_dash, Invariant, On,
  attempt-Preserves, caught-Preserves, attempt-bind-Preserves, safe_rules,
}

pub literal-starts :
    (ps : List Text) → All (λ p. starts_with (codes ":(literal)") p ≡ true) (literal_pathspecs ps)
unfolding literal_pathspecs starts_with
literal-starts ps = All-map (λ p. starts_with (codes ":(literal)") p ≡ true) _ ps (λ p. refl)

pub path_args-IsSafe : (ps : List Text) → IsSafe (path_args ps)
unfolding path_args
path_args-IsSafe [] = done
path_args-IsSafe (p ∷ ps) = paths (literal-starts (p ∷ ps))

message_args-IsSafe : (m : Option Text) → IsSafe (message_args m)
message_args-IsSafe none = done
message_args-IsSafe (some m) = message

when-IsSafe :
    (b : Bool) (a : Text) {rest : List Text}
    → is_fine a ≡ true
    → IsSafe rest
    → IsSafe (when b (a ∷ []) ++ rest)
when-IsSafe true a v s = word v s
when-IsSafe false a v s = s

pub opt-IsSafe : (o : Option Text) → All (λ a. is_fine a ≡ true) (opt_list o) → IsSafe (opt_list o)
opt-IsSafe none v = done
opt-IsSafe (some a) v = word v.0 done

stash_push-IsSafe : (m : Option Text) (u s : Bool) → IsSafe (stash_push_argv m u s)
unfolding stash_push_argv is_fine eq
stash_push-IsSafe m u s = word refl (
    word refl (
      when-IsSafe u (codes "--include-untracked") refl
        (when-IsSafe s (codes "--staged") refl (message_args-IsSafe m))))

stash_pop-IsSafe :
    (o : Option Text) (apply index : Bool)
    → All (λ a. is_fine a ≡ true) (opt_list o)
    → IsSafe (stash_pop_argv o apply index)
unfolding stash_pop_argv is_fine eq
stash_pop-IsSafe o true index v =
    word refl (word refl (when-IsSafe index (codes "--index") refl (opt-IsSafe o v)))
stash_pop-IsSafe o false index v =
    word refl (word refl (when-IsSafe index (codes "--index") refl (opt-IsSafe o v)))

module _ (h : Host) (inv : Invariant) where
  pub checked-Preserves :
      (args ps : List Text)
      → All (λ a. is_fine a ≡ true) args
      → Preserves (On inv) (run_git_checked h args ps)
  unfolding run_git_checked
  checked-Preserves args ps v = search (safe_rules, words args v (path_args-IsSafe ps))

  -- what follows the check of an optional text may use that it passed
  pub check_opt-Preserves :
      {B : Type 0} (check : Text → Result Error (Unit {0})) (o : Option Text) (m : Git h B)
      → ((t : Text) → check t ≡ ok tt → is_fine t ≡ true)
      → (All (λ a. is_fine a ≡ true) (opt_list o) → Preserves (On inv) m)
      → Preserves (On inv) (check_opt check o >> m)
  unfolding check_opt
  check_opt-Preserves check none m k f =
      Preserves-bind (pure tt) (λ _. m) (Preserves-pure tt) (λ _. f tt)
  check_opt-Preserves check (some t) m k f =
      attempt-bind-Preserves h inv (check t) (λ _. m) λ a e. f (k t e, tt)

  pub checked_opt-Preserves :
      {A : Type 0} (check : A → Result Error (Unit {0})) (o : Option A)
      → Preserves (On {h = h} inv) (check_opt check o)
  unfolding check_opt
  checked_opt-Preserves check none = Preserves-pure tt
  checked_opt-Preserves check (some a) = attempt-Preserves h inv (check a)

  pub stash_push-Preserves :
      (m : Option Text) (u s : Bool) → Preserves (On inv) (stash_push h m u s)
  unfolding stash_push
  stash_push-Preserves m u s =
      Preserves-bind (check_opt validate_stash_message m) _
        (checked_opt-Preserves validate_stash_message m)
        λ _. search (safe_rules, stash_push-IsSafe m u s)

  pub stash_pop-Preserves : (o : Option Text) (a i : Bool) → Preserves (On inv) (stash_pop h o a i)
  unfolding stash_pop
  stash_pop-Preserves o a i =
      check_opt-Preserves (validate_stash_ref h.debug) o _
        (λ t e. fine_no_dash t (stash_ref_no_dash h.debug t e))
        (λ v. search (safe_rules, stash_pop-IsSafe o a i v))

  stash_result-Preserves :
      (d : Text) (r : Result Error Text) → Preserves (On inv) (stash_result h d r)
  unfolding stash_result
  stash_result-Preserves d (ok t) = search safe_rules
  stash_result-Preserves d (err e) = search safe_rules

  after_pop-Preserves :
      (d out : Text) (r : Result Error Text) → Preserves (On inv) (after_pop h d out r)
  unfolding after_pop
  after_pop-Preserves d out (ok t) = search safe_rules
  after_pop-Preserves d out (err e) = search safe_rules

  after_restore-Preserves :
      (e : Error) (r : Result Error Text) → Preserves (On inv) (after_restore h e r)
  unfolding after_restore
  after_restore-Preserves e (ok t) = search safe_rules
  after_restore-Preserves e (err e') = search safe_rules

  set_aside-Preserves : (d : Text) (b : Bool) → Preserves (On inv) (set_aside h d b)
  unfolding set_aside is_fine eq
  set_aside-Preserves d false = Preserves-pure false
  set_aside-Preserves d true =
      Preserves-bind _ _
        (checked-Preserves (codes "status" ∷ codes "--porcelain" ∷ []) [] (refl, (refl, tt)))
        λ dirty.
          Preserves-if _ _ _ (λ _. Preserves-pure false)
            λ _.
              Preserves-bind _ _ (caught-Preserves h inv _ (stash_push-Preserves none true false))
                λ r. stash_result-Preserves d r

  put_back-Preserves :
      (d : Text) (b : Bool) (r : Result Error Text) → Preserves (On inv) (put_back h d b r)
  unfolding put_back
  put_back-Preserves d false (ok out) = search safe_rules
  put_back-Preserves d false (err e) = search safe_rules
  put_back-Preserves d true (ok out) =
      Preserves-bind _ _ (caught-Preserves h inv _ (stash_pop-Preserves none false false))
        λ r. after_pop-Preserves d out r
  put_back-Preserves d true (err e) =
      Preserves-bind _ _ (caught-Preserves h inv _ (stash_pop-Preserves none false false))
        λ r. after_restore-Preserves e r

  pub auto_stash-Preserves :
      (d : Text) (b : Bool) (m : Git h Text)
      → Preserves (On inv) m
      → Preserves (On inv) (run_with_auto_stash h d b m)
  unfolding run_with_auto_stash
  auto_stash-Preserves d b m k =
      Preserves-bind _ _ (set_aside-Preserves d b) λ stashed.
        Preserves-bind _ _ (caught-Preserves h inv m k) λ r. put_back-Preserves d stashed r
