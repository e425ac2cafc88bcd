-- ===== src/Server/Slot/Consistent.antt =====
-- About the session slot of crates/engine/src/server.rs under every schedule: which sessions are
-- served, and when a request is turned away.
use git_bamboo.Prelude.{
  ℕ, Bool, true, false, ◌||◌, Option, none, some, List, [], ◌∷◌, ◌++◌, get_elem?, any, any-set,
  any-snoc, All, All-append, All-mono, All-get_elem?, All-set, ◌≡◌, refl,
}
use git_bamboo.Server.Slot.{
  Task, arriving, asking, is_listening, send, advance, Server, Event, initialize, request, move,
  stop, move_task, step, run, new,
}
use git_bamboo.Server.Slot.Steps.{
  is_ended, Fits, Held, Fits-Later, advance-Later, advance-Fits, advance-Held, advance-ended,
  advance-is_ended,
}

pub record IsConsistent (s : Server) : Type 0 where
  pub held : Held s.slot.session s.slot.next
  pub fits : All (Fits s.slot) s.tasks
  pub cause : s.slot.ready ≡ true → (s.stopping || any is_ended s.tasks) ≡ true

released_by :
    (a a' b c d : Bool)
    → (a ≡ true → (b || c) ≡ true)
    → (a' ≡ true → (a || d) ≡ true)
    → a' ≡ true
    → (b || (c || d)) ≡ true
released_by true a' b c d h k e = more b c d (h refl)
  where
    more : (b c d : Bool) → (b || c) ≡ true → (b || (c || d)) ≡ true
    more true c d e = refl
    more false true d e = refl
    more false false d e = cc
released_by false a' true c d h k e = refl
released_by false a' false true d h k e = refl
released_by false a' false false d h k e = k e

move_task-IsConsistent :
    (i : ℕ) (good : Bool) (s : Server) (o : Option Task)
    → get_elem? s.tasks i ≡ o
    → IsConsistent s
    → IsConsistent (move_task i good s o)
unfolding move_task
move_task-IsConsistent i good s none e v = v
move_task-IsConsistent i good s (some t) e v =
    let fit = All-get_elem? (Fits s.slot) s.tasks i t v.fits e in
    let heard = any is_listening s.tasks in
    let (c, t') = advance good heard s.slot t in
    record {
      held = advance-Held good heard s.slot t v.held fit;
      fits =
          All-set (Fits c) s.tasks i t'
            (All-mono s.tasks (Fits-Later s.slot c (advance-Later good heard s.slot t)) v.fits)
            (advance-Fits good heard s.slot t v.held fit);
      cause = λ e'. rw (any-set is_ended s.tasks i t t' e (advance-is_ended good heard s.slot t)) (
          released_by s.slot.ready c.ready s.stopping (any is_ended s.tasks) (is_ended t') v.cause
            (advance-ended good heard s.slot t) e');
    }

or_false : (b : Bool) → (b || false) ≡ b
or_false true = refl
or_false false = refl

arrive-IsConsistent :
    (s : Server) (t : Task)
    → is_ended t ≡ false
    → Fits s.slot t
    → IsConsistent s
    → IsConsistent (record s { tasks = s.tasks ++ t ∷ [] })
arrive-IsConsistent s t e f v = record {
  held = v.held;
  fits = All-append (Fits s.slot) s.tasks (t ∷ []) v.fits (f, tt);
  cause = λ k.
      rw (any-snoc is_ended s.tasks t) (rw e (rw (or_false (any is_ended s.tasks)) (v.cause k)));
}

step-IsConsistent : (e : Event) (s : Server) → IsConsistent s → IsConsistent (step e s)
unfolding step
step-IsConsistent initialize s v = arrive-IsConsistent s arriving refl tt v
step-IsConsistent request s v = arrive-IsConsistent s asking refl tt v
step-IsConsistent (move i good) s v = move_task-IsConsistent i good s (get_elem? s.tasks i) refl v
step-IsConsistent stop s v = record {
  held = v.held;
  fits =
      All-mono s.tasks
        (Fits-Later s.slot (send (any is_listening s.tasks) s.slot) (λ k h. h, λ h. rw h refl))
        v.fits;
  cause = λ k. refl;
}

pub run-IsConsistent : (es : List Event) (s : Server) → IsConsistent s → IsConsistent (run es s)
unfolding run
run-IsConsistent [] s v = v
run-IsConsistent (e ∷ es) s v = run-IsConsistent es (step e s) (step-IsConsistent e s v)

-- Under every schedule, every session in the slot or in an answer is one that `Session::open` has
-- given; a request is turned away, or gets behind the loop that waits, only when waiting requests
-- have been released; and they are released only if an `initialize` that passed its checks has come
-- to its end, or the serve loop has.
pub run-new-IsConsistent : (es : List Event) → IsConsistent (run es new)
run-new-IsConsistent es = run-IsConsistent es new (record { held = tt; fits = tt; cause = λ k. cc })
