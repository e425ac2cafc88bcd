-- ===== src/Server/Slot/Steps.antt =====
-- About the steps of one task at the session slot of crates/engine/src/server.rs.
use git_bamboo.Prelude.{ℕ, ◌+◌, ◌<◌, Bool, true, false, ◌||◌, Option, none, some, ◌≡◌, refl, arith}
use git_bamboo.Server.Slot.{
  Slot, Task, arriving, opening, opened, published, failing, refused, initialized, open_failed,
  first_look, second_look, look_at_ready, asking, missed, waiting, released, served,
  not_initialized, advance,
}

-- an `initialize` that got through its checks and has come to its end
abbrev pub is_ended : Task → Bool
is_ended (initialized n) = true
is_ended open_failed = true
is_ended _ = false

-- a request that has its answer
abbrev pub is_answered : Task → Bool
is_answered (served n) = true
is_answered not_initialized = true
is_answered _ = false

-- The sessions that a task knows have been opened, and requests have been released if one has got
-- behind the loop that waits.
abbrev pub Fits : Slot → Task → Type 0
Fits c (opened n) = n < c.next
Fits c (published n) = n < c.next
Fits c (initialized n) = n < c.next
Fits c (served n) = n < c.next
Fits c released = c.ready ≡ true
Fits c not_initialized = c.ready ≡ true
Fits c _ = Unit

abbrev pub Held : Option ℕ → ℕ → Type 0
Held none k = Unit
Held (some n) k = n < k

-- the slot has moved on: sessions may have been opened, and a release is never taken back
abbrev pub Later : Slot → Slot → Type 0
Later c c' = ((k : ℕ) → k < c.next → k < c'.next) × (c.ready ≡ true → c'.ready ≡ true)

pub Fits-Later : (c c' : Slot) → Later c c' → (t : Task) → Fits c t → Fits c' t
Fits-Later c c' (f, g) (opened n) h = f n h
Fits-Later c c' (f, g) (published n) h = f n h
Fits-Later c c' (f, g) (initialized n) h = f n h
Fits-Later c c' l open_failed h = tt
Fits-Later c c' l missed h = tt
Fits-Later c c' (f, g) (served n) h = f n h
Fits-Later c c' (f, g) released h = g h
Fits-Later c c' (f, g) not_initialized h = g h
Fits-Later c c' l arriving h = tt
Fits-Later c c' l opening h = tt
Fits-Later c c' l failing h = tt
Fits-Later c c' l refused h = tt
Fits-Later c c' l asking h = tt
Fits-Later c c' l waiting h = tt

-- the step of one task
pub advance-Later : (good heard : Bool) (c : Slot) (t : Task) → Later c (advance good heard c t).0
unfolding advance
advance-Later true heard c arriving = (λ k h. h, λ h. h)
advance-Later false heard c arriving = (λ k h. h, λ h. h)
advance-Later true heard c opening = (λ k h. omega arith, λ h. h)
advance-Later false heard c opening = (λ k h. h, λ h. h)
advance-Later good heard c (published n) = (λ k h. h, λ h. rw h refl)
advance-Later good heard c failing = (λ k h. h, λ h. rw h refl)
advance-Later good heard c (opened n) = (λ k h. h, λ h. h)
advance-Later good heard c task = (λ k h. h, λ h. h)

first_look-Fits : (c : Slot) (o : Option ℕ) → Held o c.next → Fits c (first_look o)
first_look-Fits c none h = tt
first_look-Fits c (some n) h = h

second_look-Fits :
    (c : Slot) (o : Option ℕ) → Held o c.next → c.ready ≡ true → Fits c (second_look o)
second_look-Fits c none h k = k
second_look-Fits c (some n) h k = h

look_at_ready-Fits : (c : Slot) (b : Bool) → c.ready ≡ b → Fits c (look_at_ready b)
look_at_ready-Fits c true h = h
look_at_ready-Fits c false h = tt

pub advance-Fits :
    (good heard : Bool) (c : Slot) (t : Task)
    → Held c.session c.next
    → Fits c t
    → Fits (advance good heard c t).0 (advance good heard c t).1
unfolding advance
advance-Fits true heard c arriving h k = tt
advance-Fits false heard c arriving h k = tt
advance-Fits true heard c opening h k = omega arith
advance-Fits false heard c opening h k = tt
advance-Fits good heard c (opened n) h k = k
advance-Fits good heard c (published n) h k = k
advance-Fits good heard c failing h k = tt
advance-Fits good heard c missed h k = tt
advance-Fits good heard c asking h k = first_look-Fits c c.session h
advance-Fits good heard c waiting h k = look_at_ready-Fits c c.ready refl
advance-Fits good heard c released h k = second_look-Fits c c.session h k
advance-Fits good heard c refused h k = k
advance-Fits good heard c (initialized n) h k = k
advance-Fits good heard c open_failed h k = k
advance-Fits good heard c (served n) h k = k
advance-Fits good heard c not_initialized h k = k

Held-next : (o : Option ℕ) (k : ℕ) → Held o k → Held o (k + 1)
Held-next none k h = tt
Held-next (some n) k h = omega arith

pub advance-Held :
    (good heard : Bool) (c : Slot) (t : Task)
    → Held c.session c.next
    → Fits c t
    → Held (advance good heard c t).0.session (advance good heard c t).0.next
unfolding advance
advance-Held true heard c arriving h k = tt
advance-Held false heard c arriving h k = h
advance-Held true heard c opening h k = Held-next c.session c.next h
advance-Held false heard c opening h k = h
advance-Held good heard c (opened n) h k = k
advance-Held good heard c (published n) h k = h
advance-Held good heard c failing h k = h
advance-Held good heard c task h k = h

pub or-true : (b : Bool) → (b || true) ≡ true
or-true true = refl
or-true false = refl

or-left : (a b : Bool) → a ≡ true → (a || b) ≡ true
or-left true b k = refl
or-left false b k = cc

-- Only the end of an `initialize` behind its checks releases.
pub advance-ended :
    (good heard : Bool) (c : Slot) (t : Task)
    → (advance good heard c t).0.ready ≡ true
    → (c.ready || is_ended (advance good heard c t).1) ≡ true
unfolding advance
advance-ended true heard c arriving k = ground (arith, k)
advance-ended false heard c arriving k = ground (arith, k)
advance-ended true heard c opening k = ground (arith, k)
advance-ended false heard c opening k = ground (arith, k)
advance-ended good heard c (published n) k = or-true c.ready
advance-ended good heard c failing k = or-true c.ready
advance-ended good heard c t k = or-left c.ready _ k

-- an `initialize` that has ended stays ended
pub advance-is_ended :
    (good heard : Bool) (c : Slot) (t : Task)
    → is_ended t ≡ true
    → is_ended (advance good heard c t).1 ≡ true
unfolding advance
advance-is_ended good heard c (initialized n) h = refl
advance-is_ended good heard c open_failed h = refl
advance-is_ended good heard c arriving h = cc
advance-is_ended good heard c opening h = cc
advance-is_ended good heard c (opened n) h = cc
advance-is_ended good heard c (published n) h = cc
advance-is_ended good heard c failing h = cc
advance-is_ended good heard c refused h = cc
advance-is_ended good heard c asking h = cc
advance-is_ended good heard c missed h = cc
advance-is_ended good heard c waiting h = cc
advance-is_ended good heard c released h = cc
advance-is_ended good heard c (served n) h = cc
advance-is_ended good heard c not_initialized h = cc
