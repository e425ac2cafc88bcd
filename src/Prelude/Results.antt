-- ===== src/Prelude/Results.antt =====
-- `Result`, the `?` operator as a monad, and actions that may fail and change a state. What was done
-- before a failure stays done, so the state comes back beside the error too.
use mathlib.Core.Path.{◌≡◌, refl}
use mathlib.Core.Bool.{Bool, true, false}
use git_bamboo.Prelude.Tests.{if◌then◌else◌}
use mathlib.Core.Logic.{◌⊎◌, inl, inr}

pub data Result (E : Type 0) (A : Type 0) : Type 0 where
  ok : A → Result E A
  err : E → Result E A

abbrev pub is_ok : {E A : Type 0} → Result E A → Bool
is_ok (ok _) = true
is_ok (err _) = false

-- `map_err`
abbrev pub map_err : {E F A : Type 0} → (E → F) → Result E A → Result F A
map_err f (ok a) = ok a
map_err f (err e) = err (f e)

-- `r?` and then the rest
abbrev pub and_then : {E A B : Type 0} → Result E A → (A → Result E B) → Result E B
and_then (ok a) f = f a
and_then (err e) f = err e

abbrev pub Act : Type 0 → Type 0 → Type 0 → Type 0
Act S E A = S → Result E A × S

module _ {S E A : Type 0} where
  unfoldable pub pure : A → Act S E A
  pure a s = (ok a, s)

  unfoldable pub fail : E → Act S E A
  fail e s = (err e, s)

module _ {S E A B : Type 0} where
  abbrev pub continue : Result E A → (A → Act S E B) → Act S E B
  continue (ok a) f s = f a s
  continue (err e) f s = (err e, s)

  infixl 10 ◌>>=◌ ◌>>◌
  -- opening this opens `pure` and `fail` too
  unfoldable pub ◌>>=◌ : Act S E A → (A → Act S E B) → Act S E B
  unfolding pure fail
  ◌>>=◌ m f s = continue (m s).0 f (m s).1

  abbrev pub ◌>>◌ : Act S E A → Act S E B → Act S E B
  m >> n = m >>= λ _. n

pub Result-cases :
    {E A : Type 0} (r : Result E A) → ((a : A) × (r ≡ ok a)) ⊎ ((e : E) × (r ≡ err e))
Result-cases (ok a) = inl (a, refl)
Result-cases (err e) = inr (e, refl)

pub ok_injective : {E A : Type 0} {a b : A} → ◌≡◌ {A = Result E A} (ok a) (ok b) → a ≡ b
ok_injective h = cc

-- Inversion of a chain that ends well.
pub and_then-eq-ok :
    {E A B : Type 0} (r : Result E A) (f : A → Result E B) {b : B}
    → and_then r f ≡ ok b
    → (a : A) × (r ≡ ok a) × (f a ≡ ok b)
and_then-eq-ok (ok a) f h = (a, refl, h)
and_then-eq-ok (err e) f h = cc

continue-eq-ok :
    {S E A B : Type 0} (r : Result E A) (f : A → Act S E B) (s : S) (b : B)
    → (continue r f s).0 ≡ ok b
    → (a : A) × (r ≡ ok a) × ((f a s).0 ≡ ok b)
continue-eq-ok (ok a) f s b h = (a, refl, h)
continue-eq-ok (err e) f s b h = cc

-- Inversion of a chain of actions that ends well.
pub bind-eq-ok :
    {S E A B : Type 0} (m : Act S E A) (f : A → Act S E B) (s : S) (b : B)
    → ((m >>= f) s).0 ≡ ok b
    → (a : A) × ((m s).0 ≡ ok a) × ((f a (m s).1).0 ≡ ok b)
unfolding ◌>>=◌
bind-eq-ok m f s b h = continue-eq-ok (m s).0 f (m s).1 b h

-- An invariant of an action, however the action ends, with one rule for each way to build one.
pub record Preserves {S E A : Type 0} (P : S → Type 0) (m : Act S E A) : Type 0 where
  pub at : (s : S) → P s → P (m s).1

module _ {S E A : Type 0} {P : S → Type 0} where
  pub Preserves-pure : (a : A) → Preserves P (pure {E = E} a)
  unfolding pure
  Preserves-pure a = record { at = λ s h. h }

  pub Preserves-fail : (e : E) → Preserves P (fail {A = A} e)
  unfolding fail
  Preserves-fail e = record { at = λ s h. h }

  pub Preserves-if :
      (test : Bool) (yes_case no_case : Act S E A)
      → (test ≡ true → Preserves P yes_case)
      → (test ≡ false → Preserves P no_case)
      → Preserves P (if test then yes_case else no_case)
  Preserves-if false yes_case no_case first second = second refl
  Preserves-if true yes_case no_case first second = first refl

module _ {S E A B : Type 0} {P : S → Type 0} where
  continue-Preserves :
      (r : Result E A) (f : A → Act S E B) (s : S)
      → ((a : A) → Preserves P (f a))
      → P s
      → P (continue r f s).1
  continue-Preserves (ok a) f s kf h = (kf a).at s h
  continue-Preserves (err e) f s kf h = h

  pub Preserves-bind :
      (m : Act S E A) (f : A → Act S E B)
      → Preserves P m
      → ((a : A) → Preserves P (f a))
      → Preserves P (m >>= f)
  unfolding ◌>>=◌
  Preserves-bind m f km kf = record {
    at = λ s h. continue-Preserves (m s).0 f (m s).1 kf (km.at s h);
  }

pub ruleset preserves_rules = (Preserves-pure, Preserves-fail, Preserves-if, Preserves-bind)
