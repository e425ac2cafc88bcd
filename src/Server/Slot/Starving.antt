-- ===== src/Server/Slot/Starving.antt =====
-- About the requests that wait at the session slot of crates/engine/src/server.rs while no
-- `initialize` passes its checks.
use git_bamboo.Prelude.{
  ℕ, Bool, true, false, or-false, Option, none, some, List, [], ◌∷◌, get_elem?, any, All,
  All-append, All-set, All-get_elem?, ◌≡◌, refl, arith,
}
use git_bamboo.Server.Slot.{
  Slot, Task, arriving, refused, asking, missed, waiting, is_listening, advance, Server, Event,
  initialize, request, move, stop, move_task, step, run, new,
}
use git_bamboo.Server.Slot.Steps.{is_answered}

-- an event that gets an `initialize` through its checks, or ends the serve loop
abbrev pub is_good : Event → Bool
is_good (move i good) = good
is_good stop = true
is_good _ = false

abbrev is_stuck : Task → Bool
is_stuck arriving = true
is_stuck refused = true
is_stuck asking = true
is_stuck missed = true
is_stuck waiting = true
is_stuck _ = false

abbrev IsStuck : Task → Type 0
IsStuck t = is_stuck t ≡ true

abbrev IsClosed : Server → Type 0
IsClosed s = (s.slot.session ≡ none) × (s.slot.ready ≡ false) × All IsStuck s.tasks

advance-IsStuck :
    (heard : Bool) (c : Slot) (t : Task)
    → c.session ≡ none
    → c.ready ≡ false
    → IsStuck t
    → ((advance false heard c t).0 ≡ c) × IsStuck (advance false heard c t).1
unfolding advance
advance-IsStuck heard c arriving n r h = (refl, refl)
advance-IsStuck heard c refused n r h = (refl, refl)
advance-IsStuck heard c asking n r h = rw n (refl, refl)
advance-IsStuck heard c missed n r h = (refl, refl)
advance-IsStuck heard c waiting n r h = rw r (refl, refl)
advance-IsStuck heard c t n r h = ground arith

move_task-IsClosed :
    (i : ℕ) (s : Server) (o : Option Task)
    → get_elem? s.tasks i ≡ o
    → IsClosed s
    → IsClosed (move_task i false s o)
unfolding move_task
move_task-IsClosed i s none e v = v
move_task-IsClosed i s (some t) e (n, r, v) =
    let heard = any is_listening s.tasks in
    let (same, k) = advance-IsStuck heard s.slot t n r (All-get_elem? IsStuck s.tasks i t v e) in
    rw same (n, r, All-set IsStuck s.tasks i (advance false heard s.slot t).1 v k)

step-IsClosed : (e : Event) (s : Server) → is_good e ≡ false → IsClosed s → IsClosed (step e s)
unfolding step
step-IsClosed initialize s g (n, r, v) =
    (n, r, All-append IsStuck s.tasks (arriving ∷ []) v (refl, tt))
step-IsClosed request s g (n, r, v) = (n, r, All-append IsStuck s.tasks (asking ∷ []) v (refl, tt))
step-IsClosed (move i good) s g v = rw g (move_task-IsClosed i s (get_elem? s.tasks i) refl v)
step-IsClosed stop s g v = cc

run-IsClosed :
    (es : List Event) (s : Server) → any is_good es ≡ false → IsClosed s → IsClosed (run es s)
unfolding run
run-IsClosed [] s g v = v
run-IsClosed (e ∷ es) s g v =
    let (p, q) = or-false (is_good e) (any is_good es) g in
    run-IsClosed es (step e s) q (step-IsClosed e s p v)

stuck-answered : (t : Task) → IsStuck t → is_answered t ≡ false
stuck-answered arriving h = refl
stuck-answered t h = ground arith

IsStuck-answered : (ts : List Task) → All IsStuck ts → any is_answered ts ≡ false
IsStuck-answered [] h = refl
IsStuck-answered (t ∷ ts) (h, k) = rw (stuck-answered t h) (IsStuck-answered ts k)

-- As long as no `initialize` passes its checks and the serve loop has not ended, no request is
-- answered, also if an `initialize` has been refused.
pub run-starves :
    (es : List Event) → any is_good es ≡ false → any is_answered (run es new).tasks ≡ false
run-starves es g = IsStuck-answered (run es new).tasks (run-IsClosed es new g (refl, refl, tt)).2
