-- ===== src/Server/Slot/Waiting.antt =====
-- About the requests at the session slot of crates/engine/src/server.rs that have been released.
use mathlib.Core.Path.{subst}
use git_bamboo.Prelude.{
  ℕ, zero, suc, ◌-◌, ◌≤◌, ◌==◌, ==_iff, Bool, true, false, Bool-cases, Option, none, some, List, [],
  ◌∷◌, get_elem?, get_elem?-set_self, get_elem?-set_other, get_elem?-append, any, if◌then◌else◌,
  ◌≡◌, refl, ap, ◌∙◌, inl, inr, arith,
}
use git_bamboo.Server.Slot.{
  Slot, Task, arriving, opening, opened, published, failing, refused, initialized, open_failed,
  first_look, second_look, asking, missed, waiting, released, is_listening, served, not_initialized,
  advance, Server, Event, initialize, request, move, stop, move_task, step, run,
}
use git_bamboo.Server.Slot.Steps.{is_answered, advance-Later, or-true}

abbrev pub is_request : Task → Bool
is_request asking = true
is_request missed = true
is_request waiting = true
is_request released = true
is_request (served n) = true
is_request not_initialized = true
is_request _ = false

-- the steps that a request still has to make, once requests are released
abbrev left : Task → ℕ
left asking = 4
left missed = 3
left waiting = 2
left released = 1
left _ = 0

first_look-left : (o : Option ℕ) → (left (first_look o) ≤ 3) × (is_request (first_look o) ≡ true)
first_look-left none = (omega arith, refl)
first_look-left (some n) = (omega arith, refl)

second_look-left : (o : Option ℕ) → (left (second_look o) ≤ 0) × (is_request (second_look o) ≡ true)
second_look-left none = (omega arith, refl)
second_look-left (some n) = (omega arith, refl)

advance-left :
    (good heard : Bool) (c : Slot) (t : Task)
    → c.ready ≡ true
    → is_request t ≡ true
    → (left (advance good heard c t).1 ≤ left t - 1)
      × (is_request (advance good heard c t).1 ≡ true)
unfolding advance
advance-left good heard c asking h k = first_look-left c.session
advance-left good heard c missed h k = (omega arith, refl)
advance-left good heard c waiting h k = rw h (omega arith, refl)
advance-left good heard c released h k = second_look-left c.session
advance-left good heard c (served n) h k = (omega arith, refl)
advance-left good heard c not_initialized h k = (omega arith, refl)
advance-left good heard c arriving h k = cc
advance-left good heard c opening h k = cc
advance-left good heard c (opened n) h k = cc
advance-left good heard c (published n) h k = cc
advance-left good heard c failing h k = cc
advance-left good heard c refused h k = cc
advance-left good heard c (initialized n) h k = cc
advance-left good heard c open_failed h k = cc

-- how often a schedule moves the task at a position
abbrev pub moves : ℕ → List Event → ℕ
moves i [] = 0
moves i (move j good ∷ es) = if i == j then suc (moves i es) else moves i es
moves i (initialize ∷ es) = moves i es
moves i (request ∷ es) = moves i es
moves i (stop ∷ es) = moves i es

-- the request at a position, with at most so many steps to make
abbrev At : ℕ → ℕ → Server → Type 0
At i n s = (t : Task) × (get_elem? s.tasks i ≡ some t) × (is_request t ≡ true) × (left t ≤ n)

abbrev after : ℕ → Event → ℕ → ℕ
after i (move j good) n = if i == j then n - 1 else n
after i _ n = n

move_task-ready :
    (j : ℕ) (good : Bool) (s : Server) (o : Option Task)
    → s.slot.ready ≡ true
    → (move_task j good s o).slot.ready ≡ true
unfolding move_task
move_task-ready j good s none h = h
move_task-ready j good s (some t) h = (advance-Later good (any is_listening s.tasks) s.slot t).1 h

step-ready : (e : Event) (s : Server) → s.slot.ready ≡ true → (step e s).slot.ready ≡ true
unfolding step
step-ready initialize s h = h
step-ready request s h = h
step-ready (move j good) s h = move_task-ready j good s (get_elem? s.tasks j) h
step-ready stop s h = rw h refl

other-At :
    (i n j : ℕ) (good : Bool) (s : Server) (o : Option Task)
    → (i ≡ j → ⊥)
    → At i n s
    → At i n (move_task j good s o)
unfolding move_task
other-At i n j good s none d a = a
other-At i n j good s (some u) d (t, p, q, l) =
    let heard = any is_listening s.tasks in
    (t, get_elem?-set_other s.tasks i j (advance good heard s.slot u).1 d ∙ p, q, l)

same-At :
    (i n : ℕ) (good : Bool) (s : Server) (o : Option Task)
    → get_elem? s.tasks i ≡ o
    → s.slot.ready ≡ true
    → At i n s
    → At i (n - 1) (move_task i good s o)
unfolding move_task
same-At i n good s none e h (t, p, q, l) = cc
same-At i n good s (some u) e h (t, p, q, l) =
    let heard = any is_listening s.tasks in
    let same : t ≡ u = cc in
    let (fewer, still) = advance-left good heard s.slot u h (rw (← same) q) in
    (
      (advance good heard s.slot u).1,
      get_elem?-set_self s.tasks i u (advance good heard s.slot u).1 e,
      still,
      omega (arith, ap left same),
    )

step-At :
    (i n : ℕ) (e : Event) (s : Server)
    → s.slot.ready ≡ true
    → At i n s
    → At i (after i e n) (step e s)
unfolding step
step-At i n initialize s h (t, p, q, l) = (t, get_elem?-append s.tasks (arriving ∷ []) i t p, q, l)
step-At i n request s h (t, p, q, l) = (t, get_elem?-append s.tasks (asking ∷ []) i t p, q, l)
step-At i n stop s h a = a
step-At i n (move j good) s h a = elim (Bool-cases (i == j)) [
  | inl y ↦
      let same : i ≡ j = (==_iff i j).0 y in
      rw (y, ← same) (same-At i n good s (get_elem? s.tasks i) refl h a)
  | inr m ↦ rw m (other-At i n j good s (get_elem? s.tasks j) (λ e. cc (m, (==_iff i j).1 e)) a)
]

after-moves :
    (i n : ℕ) (e : Event) (es : List Event) → after i e n - moves i es ≡ n - moves i (e ∷ es)
after-moves i n initialize es = refl
after-moves i n request es = refl
after-moves i n stop es = refl
after-moves i n (move j good) es = elim (Bool-cases (i == j)) [
  | inl y ↦ rw y (omega arith)
  | inr m ↦ rw m refl
]

sub-zero : (n : ℕ) → n - 0 ≡ n
sub-zero n = omega arith

run-At :
    (i n : ℕ) (es : List Event) (s : Server)
    → s.slot.ready ≡ true
    → At i n s
    → At i (n - moves i es) (run es s)
unfolding run
run-At i n [] s h a = rw (sub-zero n) a
run-At i n (e ∷ es) s h a =
    rw (← after-moves i n e es)
      (run-At i (after i e n) es (step e s) (step-ready e s h) (step-At i n e s h a))

left-le : (t : Task) → left t ≤ 4
left-le asking = omega arith
left-le missed = omega arith
left-le t = omega arith

left-answered : (t : Task) → is_request t ≡ true → left t ≤ 0 → is_answered t ≡ true
left-answered (served n) h l = refl
left-answered not_initialized h l = refl
left-answered t h l = ground arith

-- an `initialize` that is about to release, or the end of the serve loop
abbrev pub releases : Option Task → Bool
releases (some (published n)) = true
releases (some failing) = true
releases _ = false

abbrev pub is_release : Event → Server → Bool
is_release (move j good) s = releases (get_elem? s.tasks j)
is_release stop s = true
is_release _ s = false

listening-any :
    (ts : List Task) (i : ℕ) → get_elem? ts i ≡ some waiting → any is_listening ts ≡ true
listening-any [] i p = cc
listening-any (t ∷ ts) zero p = let same : t ≡ waiting = cc in rw same refl
listening-any (t ∷ ts) (suc i) p = rw (listening-any ts i p) (or-true (is_listening t))

move_task-releases :
    (j : ℕ) (good : Bool) (s : Server) (o : Option Task)
    → releases o ≡ true
    → any is_listening s.tasks ≡ true
    → (move_task j good s o).slot.ready ≡ true
unfolding move_task advance
move_task-releases j good s (some (published n)) h k = rw k (or-true s.slot.ready)
move_task-releases j good s (some failing) h k = rw k (or-true s.slot.ready)
move_task-releases j good s o h k = ground arith

step-releases :
    (e : Event) (s : Server)
    → is_release e s ≡ true
    → any is_listening s.tasks ≡ true
    → (step e s).slot.ready ≡ true
unfolding step
step-releases initialize s h k = cc
step-releases request s h k = cc
step-releases stop s h k = rw k (or-true s.slot.ready)
step-releases (move j good) s h k = move_task-releases j good s (get_elem? s.tasks j) h k

waiting_released : (o : Option Task) → o ≡ some waiting → releases o ≡ true → ⊥
waiting_released none p h = cc
waiting_released (some t) p h =
    let same : t ≡ waiting = cc in
    let h' : releases (some waiting) ≡ true = subst (λ t. releases (some t) ≡ true) same h in cc

release-At :
    (i : ℕ) (e : Event) (s : Server)
    → get_elem? s.tasks i ≡ some waiting
    → is_release e s ≡ true
    → At i 2 (step e s)
unfolding step
release-At i initialize s p h = cc
release-At i request s p h = cc
release-At i stop s p h = (waiting, p, refl, omega arith)
release-At i (move j good) s p h = elim (Bool-cases (i == j)) [
  | inl y ↦
      let same : i ≡ j = (==_iff i j).0 y in
      absurd (waiting_released (get_elem? s.tasks j) (rw (← same) p) h)
  | inr m ↦
      other-At i 2 j good s (get_elem? s.tasks j) (λ e. cc (m, (==_iff i j).1 e))
        (waiting, p, refl, omega arith)
]

-- If a request waits when an `initialize` that has opened a session, or failed to, is about to send,
-- or when the serve loop ends, then it is answered once its own task has made two steps behind that,
-- whatever all others do meanwhile.
pub run-answers :
    (s : Server) (i : ℕ) (e : Event) (later : List Event)
    → get_elem? s.tasks i ≡ some waiting
    → is_release e s ≡ true
    → 2 ≤ moves i later
    → (t : Task) × (get_elem? (run later (step e s)).tasks i ≡ some t) × (is_answered t ≡ true)
run-answers s i e later p h m =
    let ready = step-releases e s h (listening-any s.tasks i p) in
    let (t, p', q', l) = run-At i 2 later (step e s) ready (release-At i e s p h) in
    (t, p', left-answered t q' (omega arith))
