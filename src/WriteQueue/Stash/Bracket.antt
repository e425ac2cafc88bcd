-- ===== src/WriteQueue/Stash/Bracket.antt =====
-- What `run_with_auto_stash` of crates/engine/src/write_queue.rs does around its operation.
use git_bamboo.Prelude.{
  Bool, true, false, none, [], ◌∷◌, ◌++◌, ◌≡◌, ◌≢◌, refl, ap, ◌∙◌, Result, ok, err, pure, fail,
  ◌>>=◌, if◌then◌else◌, continue,
}
use git_bamboo.Prelude.Text.{codes, Text}
use git_bamboo.Protocol.{Error, BambooError, Fault, raised, panicked}
use git_bamboo.Host.{Host, Run}
use git_bamboo.WriteQueue.Git.{Git, caught, handle, run_git_raw, bail, reject}
use git_bamboo.WriteQueue.Stash.{
  check_opt, stash_pop_argv, stash_pop, set_aside, after_restore, after_pop, put_back,
  run_with_auto_stash,
}

module _ (h : Host) where
  -- a step behind one that leaves the trace alone
  continue_trace :
      {A B : Type 0} (x : Result Fault A) (f : A → Git h B) (s : Run h)
      → ((a : A) → (f a s).1.trace ≡ s.trace)
      → (continue x f s).1.trace ≡ s.trace
  continue_trace (ok a) f s k = k a
  continue_trace (err e) f s k = refl

  if_state :
      {A : Type 0} (b : Bool) (x : A) (e : BambooError) (s : Run h)
      → ((if b then pure x else reject e) s).1 ≡ s
  unfolding reject pure
  if_state true x e s = refl
  if_state false x e s = refl

  handle_state : {A : Type 0} (x : Result Fault A) (s : Run h) → (handle x s).1 ≡ s
  handle_state (ok a) s = refl
  handle_state (err (raised e)) s = refl
  handle_state (err panicked) s = refl

  -- popping adds one argv, whatever git answers
  pop_trace :
      (s : Run h)
      → (stash_pop h none false false s).1.trace ≡ s.trace ++ stash_pop_argv none false false ∷ []
  unfolding stash_pop check_opt run_git_raw ◌>>=◌
  pop_trace s =
      continue_trace (run_git_raw h (stash_pop_argv none false false) s).0 _ _
        λ out. ap (λ (r : Run h). r.trace) (if_state out.success _ _ _)

  after_restore_trace :
      (e : Error) (y : Result Error Text) (s : Run h) → (after_restore h e y s).1.trace ≡ s.trace
  unfolding after_restore bail fail
  after_restore_trace e (ok t) s = refl
  after_restore_trace e (err e') s = refl

  after_pop_trace :
      (d out : Text) (y : Result Error Text) (s : Run h) → (after_pop h d out y s).1.trace ≡ s.trace
  unfolding after_pop pure fail
  after_pop_trace d out (ok t) s = refl
  after_pop_trace d out (err e') s = refl

  -- a step behind a pop whose outcome is a value
  popped_trace :
      (f : Result Error Text → Git h Text) (s : Run h)
      → ((y : Result Error Text) (t : Run h) → (f y t).1.trace ≡ t.trace)
      → ((caught (stash_pop h none false false) >>= f) s).1.trace
        ≡ s.trace ++ stash_pop_argv none false false ∷ []
  unfolding caught ◌>>=◌
  popped_trace f s k =
      let popped = stash_pop h none false false s in
      continue_trace (handle popped.0 popped.1).0 f (handle popped.0 popped.1).1
        (λ y. k y (handle popped.0 popped.1).1)
      ∙ ap (λ (r : Run h). r.trace) (handle_state popped.0 popped.1)
      ∙ pop_trace s

  put_back_trace :
      (d : Text) (x : Result Error Text) (s : Run h)
      → (put_back h d true x s).1.trace ≡ s.trace ++ stash_pop_argv none false false ∷ []
  unfolding put_back
  put_back_trace d (ok out) s = popped_trace (after_pop h d out) s (after_pop_trace d out)
  put_back_trace d (err e) s = popped_trace (after_restore h e) s (after_restore_trace e)

  -- what follows the operation, from its result
  finish_trace :
      (d : Text) (x : Result Fault Text) (s : Run h)
      → x ≢ err panicked
      → (continue (handle x s).0 (put_back h d true) (handle x s).1).1.trace
        ≡ s.trace ++ stash_pop_argv none false false ∷ []
  finish_trace d (ok out) s live = put_back_trace d (ok out) s
  finish_trace d (err (raised e)) s live = put_back_trace d (err e) s
  finish_trace d (err panicked) s live = absurd (live refl)

  -- If the auto-stash has stashed something, then a `git stash pop` is run right behind the operation
  -- and is the last command, whether the operation succeeded or failed, unless the engine itself
  -- stopped in it.
  pub auto_stash-pops :
      (d : Text) (b : Bool) (m : Git h Text) (r : Run h)
      → (set_aside h d b r).0 ≡ ok true
      → (m (set_aside h d b r).1).0 ≢ err panicked
      → (run_with_auto_stash h d b m r).1.trace
        ≡ (m (set_aside h d b r).1).1.trace ++ (codes "stash" ∷ codes "pop" ∷ []) ∷ []
  unfolding run_with_auto_stash stash_pop_argv ◌>>=◌ caught
  auto_stash-pops d b m r stashed live =
      let done = m (set_aside h d b r).1 in rw stashed (finish_trace d done.0 done.1 live)
