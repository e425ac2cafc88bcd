-- ===== src/WriteQueue/Safety.antt =====
-- Safe argument lists, and the rules by which an action runs no other.
pub mod Operations
pub mod Commands
pub mod Argv
use git_bamboo.Prelude.{
  ℕ, Bool, true, false, not, ◌&&◌, ◌||◌, Option, none, some, List, [], ◌∷◌, ◌++◌, all, All,
  if◌then◌else◌, ◌≡◌, refl, arith, Result, ok, err, Act, pure, fail, ◌>>=◌, ◌>>◌, All-append,
  Preserves, Preserves-pure, Preserves-fail, preserves_rules,
}
use git_bamboo.Prelude.Text.{Text, codes, eq, first_is, starts_with}
use git_bamboo.Protocol.{Error, plain, structured, BambooError, Fault, raised, panicked}
use git_bamboo.Host.{Host, Run, EngineEvent}
use git_bamboo.Undo.Disk.{UndoState}
use git_bamboo.WriteQueue.Git.{
  Git, bail, reject, attempt, or_panic, caught, handle, run_git_raw, run_git_network,
  run_git_checked,
}

-- the options that the engine itself writes
is_own_option : Text → Bool
is_own_option a =
    eq a (codes "--porcelain")
    || eq a (codes "-z")
    || eq a (codes "-f")
    || eq a (codes "--ours")
    || eq a (codes "--theirs")
    || eq a (codes "--all")
    || eq a (codes "--amend")
    || eq a (codes "--no-edit")
    || eq a (codes "-d")
    || eq a (codes "-D")
    || eq a (codes "--force")
    || eq a (codes "--force-with-lease")
    || eq a (codes "--set-upstream")
    || eq a (codes "--rebase")
    || eq a (codes "--no-rebase")
    || eq a (codes "--ff-only")
    || eq a (codes "--include-untracked")
    || eq a (codes "--staged")
    || eq a (codes "--index")
    || eq a (codes "--stdin")
    || eq a (codes "--no-deref")

unfoldable pub is_fine : Text → Bool
unfolding is_own_option
is_fine a = not (first_is b'-' a) || is_own_option a

-- Every argument is one of the engine's options, or does not begin with a dash, or is the value of
-- `-m`; behind `--` there are literal pathspecs only.
pub data IsSafe : List Text → Type 0 where
  done : IsSafe []
  word : {a : Text} {rest : List Text} → is_fine a ≡ true → IsSafe rest → IsSafe (a ∷ rest)
  message : {m : Text} → IsSafe (codes "-m" ∷ m ∷ [])
  paths :
      {ps : List Text}
      → All (λ p. starts_with (codes ":(literal)") p ≡ true) ps
      → IsSafe (codes "--" ∷ ps)

pub words :
    (xs : List Text) {rest : List Text}
    → All (λ a. is_fine a ≡ true) xs
    → IsSafe rest
    → IsSafe (xs ++ rest)
words [] v s = s
words (x ∷ xs) v s = word v.0 (words xs v.1 s)

pub fine_no_dash : (a : Text) → first_is b'-' a ≡ false → is_fine a ≡ true
unfolding is_fine
fine_no_dash a h = rw h refl

-- An invariant of all that a session has but the world, which stays when safe arguments are run.
pub record Invariant : Type 1 where
  pub Holds : List (List Text) → UndoState → ℕ → List EngineEvent → Type 0
  pub behind :
      {trace : List (List Text)} {u : UndoState} {epoch : ℕ} {events : List EngineEvent}
      (argv : List Text)
      → IsSafe argv
      → Holds trace u epoch events
      → Holds (trace ++ argv ∷ []) u epoch events

-- an invariant that does not speak of the undo engine
pub record Outside : Type 1 where
  pub Holds : List (List Text) → ℕ → List EngineEvent → Type 0
  pub behind :
      {trace : List (List Text)} {epoch : ℕ} {events : List EngineEvent} (argv : List Text)
      → IsSafe argv
      → Holds trace epoch events
      → Holds (trace ++ argv ∷ []) epoch events

abbrev pub invariant : Outside → Invariant
invariant o = record { Holds = λ trace u. o.Holds trace; behind = o.behind }

module _ {h : Host} where
  abbrev pub On : Invariant → Run h → Type 0
  On inv r = inv.Holds r.trace r.undo r.epoch r.events

  unfoldable pub Safe : Run h → Type 0
  Safe r = All IsSafe r.trace

module _ (h : Host) (inv : Invariant) where
  pub raw-Preserves : (argv : List Text) → IsSafe argv → Preserves (On inv) (run_git_raw h argv)
  unfolding run_git_raw
  raw-Preserves argv a = record { at = λ r s. inv.behind argv a s }

  pub network-Preserves :
      (argv : List Text) → IsSafe argv → Preserves (On inv) (run_git_network h argv)
  unfolding run_git_network
  network-Preserves argv a = record { at = λ r s. inv.behind argv a s }

  pub bail-Preserves : {A : Type 0} (msg : Text) → Preserves (On {h = h} inv) (bail {A = A} msg)
  unfolding bail
  bail-Preserves msg = Preserves-fail (raised (plain msg))

  pub reject-Preserves :
      {A : Type 0} (e : BambooError) → Preserves (On {h = h} inv) (reject {A = A} e)
  unfolding reject
  reject-Preserves e = Preserves-fail (raised (structured e))

  pub attempt-Preserves : {A : Type 0} (c : Result Error A) → Preserves (On {h = h} inv) (attempt c)
  unfolding attempt
  attempt-Preserves (ok a) = Preserves-pure a
  attempt-Preserves (err e) = Preserves-fail (raised e)

  pub or_panic-Preserves : {A : Type 0} (o : Option A) → Preserves (On {h = h} inv) (or_panic o)
  unfolding or_panic
  or_panic-Preserves (some a) = Preserves-pure a
  or_panic-Preserves none = Preserves-fail panicked

  handle_state : {A S : Type 0} (c : Result Fault A) (s : S) → (handle c s).1 ≡ s
  handle_state (ok a) s = refl
  handle_state (err (raised e)) s = refl
  handle_state (err panicked) s = refl

  pub caught-Preserves :
      {A : Type 0} (m : Git h A) → Preserves (On inv) m → Preserves (On inv) (caught m)
  unfolding caught
  caught-Preserves m k = record { at = λ r s. rw handle_state (k.at r s) }

  -- what follows a check may use that it passed
  pub attempt-bind-Preserves :
      {A B : Type 0} (c : Result Error A) (f : A → Git h B)
      → ((a : A) → c ≡ ok a → Preserves (On inv) (f a))
      → Preserves (On inv) (attempt c >>= f)
  unfolding attempt ◌>>=◌
  attempt-bind-Preserves (ok a) f k = record { at = (k a refl).at }
  attempt-bind-Preserves (err e) f k = record { at = λ r s. s }

pub ruleset safe_rules = (
  preserves_rules, raw-Preserves, network-Preserves, bail-Preserves, reject-Preserves,
  attempt-Preserves, or_panic-Preserves, caught-Preserves,
)
