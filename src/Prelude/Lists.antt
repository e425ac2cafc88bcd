-- ===== src/Prelude/Lists.antt =====
-- Lists measured and cut by native numbers, predicates over lists, and first matches.
use Prim.Native.Nat.{ℕ, zero, suc, ◌+◌, ◌-◌, min}
use mathlib.Core.Path.{◌≡◌, refl, ap, subst}
use mathlib.Core.List.{List, [], ◌∷◌, ◌++◌, map}
use mathlib.Core.Bool.{Bool, true, false, ◌||◌, ◌&&◌}
use mathlib.Core.Option.{Option, none, some}
use native.Mathlib.Omega.{arith}
use git_bamboo.Prelude.Tests.{if◌then◌else◌, or-false}

module _ {ℓ} {A : Type ℓ} where
  abbrev pub length : List A → ℕ
  length [] = 0
  length (x ∷ xs) = suc (length xs)

  abbrev pub get_elem? : List A → ℕ → Option A
  get_elem? [] i = none
  get_elem? (x ∷ xs) zero = some x
  get_elem? (x ∷ xs) (suc i) = get_elem? xs i

  -- A write out of bounds changes nothing.
  abbrev pub set : List A → ℕ → A → List A
  set [] i v = []
  set (x ∷ xs) zero v = v ∷ xs
  set (x ∷ xs) (suc i) v = x ∷ set xs i v

  abbrev pub take : ℕ → List A → List A
  take zero xs = []
  take (suc n) [] = []
  take (suc n) (x ∷ xs) = x ∷ take n xs

  abbrev pub drop : ℕ → List A → List A
  drop zero xs = xs
  drop (suc n) [] = []
  drop (suc n) (x ∷ xs) = drop n xs

  abbrev pub is_empty : List A → Bool
  is_empty [] = true
  is_empty (x ∷ xs) = false

  -- `iter().any` and `iter().all`
  abbrev pub any : (A → Bool) → List A → Bool
  any p [] = false
  any p (x ∷ xs) = p x || any p xs

  abbrev pub all : (A → Bool) → List A → Bool
  all p [] = true
  all p (x ∷ xs) = p x && all p xs

  -- `iter().find`
  abbrev pub find : (A → Bool) → List A → Option A
  find p [] = none
  find p (x ∷ xs) = if p x then some x else find p xs

  -- `iter().filter`
  abbrev pub keep : (A → Bool) → List A → List A
  keep p [] = []
  keep p (x ∷ xs) = let rest = keep p xs in if p x then x ∷ rest else rest

  -- `last`
  abbrev pub last? : List A → Option A
  last? [] = none
  last? (x ∷ []) = some x
  last? (x ∷ y ∷ xs) = last? (y ∷ xs)

  pub length-append : (xs ys : List A) → length (xs ++ ys) ≡ length xs + length ys
  length-append [] ys = omega arith
  length-append (x ∷ xs) ys = omega (arith, length-append xs ys)

  pub length-set : (xs : List A) (i : ℕ) (v : A) → length (set xs i v) ≡ length xs
  length-set [] i v = refl
  length-set (x ∷ xs) zero v = refl
  length-set (x ∷ xs) (suc i) v = ap suc (length-set xs i v)

  pub length-take : (n : ℕ) (xs : List A) → length (take n xs) ≡ min n (length xs)
  length-take zero xs = omega arith
  length-take (suc n) [] = omega arith
  length-take (suc n) (x ∷ xs) = omega (arith, length-take n xs)

  pub length-drop : (n : ℕ) (xs : List A) → length (drop n xs) ≡ length xs - n
  length-drop zero xs = omega arith
  length-drop (suc n) [] = omega arith
  length-drop (suc n) (x ∷ xs) = omega (arith, length-drop n xs)

-- A predicate on every element, by recursion: it computes to a product.
abbrev pub All {ℓ κ} : {A : Type ℓ} → (A → Type κ) → List A → Type κ
All P [] = Unit
All P (x ∷ xs) = P x × All P xs

module _ {ℓ} {A : Type ℓ} where
  -- No element passes a test that `any` fails.
  pub All-any {κ} :
      (p : A → Bool) {P : A → Type κ} (xs : List A)
      → ((x : A) → p x ≡ false → P x)
      → any p xs ≡ false
      → All P xs
  All-any p [] k h = tt
  All-any p (x ∷ xs) k h = let (hx, hs) = or-false (p x) (any p xs) h in (k x hx, All-any p xs k hs)

  pub All-append {κ} :
      (P : A → Type κ) (front back : List A) → All P front → All P back → All P (front ++ back)
  All-append P (x ∷ front) back (here, later) w = (here, All-append P front back later w)
  All-append P [] back v w = w

  pub All-map {ℓ' κ} :
      {B : Type ℓ'} (P : A → Type κ) (f : B → A) (xs : List B)
      → ((x : B) → P (f x))
      → All P (map f xs)
  All-map P f [] k = tt
  All-map P f (x ∷ xs) k = (k x, All-map P f xs k)

  pub All-mono {κ μ} :
      {P : A → Type κ} {Q : A → Type μ} (xs : List A) → ((x : A) → P x → Q x) → All P xs → All Q xs
  All-mono [] k h = tt
  All-mono (x ∷ xs) k h = (k x h.0, All-mono xs k h.1)

  pub All-get_elem? {κ} :
      (P : A → Type κ) (xs : List A) (i : ℕ) (x : A) → All P xs → get_elem? xs i ≡ some x → P x
  All-get_elem? P [] i x h e = cc
  All-get_elem? P (y ∷ ys) zero x h e = subst P (cc) h.0
  All-get_elem? P (y ∷ ys) (suc i) x h e = All-get_elem? P ys i x h.1 e

  pub All-set {κ} :
      (P : A → Type κ) (xs : List A) (i : ℕ) (x : A) → All P xs → P x → All P (set xs i x)
  All-set P [] i x h k = tt
  All-set P (y ∷ ys) zero x h k = (k, h.1)
  All-set P (y ∷ ys) (suc i) x h k = (h.0, All-set P ys i x h.1 k)

  -- an element is replaced by one that passes the test if it did
  pub any-set :
      (p : A → Bool) (xs : List A) (i : ℕ) (x y : A)
      → get_elem? xs i ≡ some x
      → (p x ≡ true → p y ≡ true)
      → any p (set xs i y) ≡ (any p xs || p y)
  any-set p [] i x y e k = cc
  any-set p (z ∷ zs) zero x y e k = let same : z ≡ x = cc in rw same (ground (arith))
  any-set p (z ∷ zs) (suc i) x y e k = ground (arith, any-set p zs i x y e k)

  pub any-snoc : (p : A → Bool) (xs : List A) (x : A) → any p (xs ++ x ∷ []) ≡ (any p xs || p x)
  any-snoc p [] x = ground arith
  any-snoc p (y ∷ ys) x = ground (arith, any-snoc p ys x)

  pub get_elem?-set_self :
      (xs : List A) (i : ℕ) (x y : A) → get_elem? xs i ≡ some x → get_elem? (set xs i y) i ≡ some y
  get_elem?-set_self [] i x y e = cc
  get_elem?-set_self (z ∷ zs) zero x y e = refl
  get_elem?-set_self (z ∷ zs) (suc i) x y e = get_elem?-set_self zs i x y e

  pub get_elem?-set_other :
      (xs : List A) (i j : ℕ) (y : A) → (i ≡ j → ⊥) → get_elem? (set xs j y) i ≡ get_elem? xs i
  get_elem?-set_other [] i j y n = refl
  get_elem?-set_other (z ∷ zs) zero zero y n = absurd (n refl)
  get_elem?-set_other (z ∷ zs) zero (suc j) y n = refl
  get_elem?-set_other (z ∷ zs) (suc i) zero y n = refl
  get_elem?-set_other (z ∷ zs) (suc i) (suc j) y n = get_elem?-set_other zs i j y λ e. n (ap suc e)

  pub get_elem?-append :
      (xs ys : List A) (i : ℕ) (x : A) → get_elem? xs i ≡ some x → get_elem? (xs ++ ys) i ≡ some x
  get_elem?-append [] ys i x e = cc
  get_elem?-append (z ∷ zs) ys zero x e = e
  get_elem?-append (z ∷ zs) ys (suc i) x e = get_elem?-append zs ys i x e
