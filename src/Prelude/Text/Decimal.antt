-- ===== src/Prelude/Text/Decimal.antt =====
-- The decimal digits that a number is shown with, and that they parse back.
use Prim.Native.Nat.{ℕ, zero, suc, ◌+◌, ◌-◌, ◌*◌, ◌/◌, ◌%◌, ◌<◌, ◌≤◌}
use mathlib.Core.Path.{◌≡◌, refl, ap, ◌∙◌}
use mathlib.Core.Bool.{true, false}
use mathlib.Core.List.{[], ◌∷◌, ◌++◌}
use mathlib.Core.Logic.{inl, inr}
use mathlib.Core.Option.{some}
use native.Mathlib.Omega.{arith}
use git_bamboo.Prelude.Tests.{ltb, leb, ◌==◌, Bool-cases}
use git_bamboo.Prelude.Lists.{length, length-append, All, All-append, is_empty}
use git_bamboo.Prelude.Numbers.{parse_digits, parse_uint}
use git_bamboo.Prelude.Text.{Text, is_ascii_digit, show, show_fuel}

abbrev pub IsDigit : ℕ → Type 0
IsDigit c = (b'0' ≤ c) × (c ≤ b'9')

abbrev power : ℕ → ℕ
power zero = 1
power (suc k) = 10 * power k

parse_digits-append :
    (most a m : ℕ) (t u : Text)
    → parse_digits most a t ≡ some m
    → parse_digits most a (t ++ u) ≡ parse_digits most m u
unfolding parse_digits
parse_digits-append most a m [] u h = ap (λ o. parse_digits most o u) (ground arith)
parse_digits-append most a m (c ∷ t) u h = elim (Bool-cases (is_ascii_digit c)) [
  | inl y ↦ elim (Bool-cases (leb (a * 10 + (c - b'0')) most)) [
    | inl z ↦ rw y (rw z (parse_digits-append most (a * 10 + (c - b'0')) m t u (ground arith)))
    | inr z ↦ absurd (ground arith)
  ]
  | inr n ↦ absurd (ground arith)
]

-- one more digit behind
parse_digits-snoc :
    (most m d : ℕ) (t : Text)
    → parse_digits most 0 t ≡ some m
    → d < 10
    → m * 10 + d ≤ most
    → parse_digits most 0 (t ++ (b'0' + d) ∷ []) ≡ some (m * 10 + d)
unfolding parse_digits
parse_digits-snoc most m d t h i j =
    parse_digits-append most 0 m t ((b'0' + d) ∷ []) h ∙ ground arith

parse_digits-show_fuel :
    (most f n : ℕ) → n < f → n ≤ most → parse_digits most 0 (show_fuel f n) ≡ some n
unfolding parse_digits show_fuel
parse_digits-show_fuel most zero n h i = absurd (omega arith)
parse_digits-show_fuel most (suc f) n h i = elim (Bool-cases (ltb n 10)) [
  | inl y ↦ rw y (ground arith)
  | inr m ↦ rw m (
      let ge : 10 ≤ n = ground arith in
      let q = parse_digits-show_fuel most f (n / 10) (omega arith) (omega arith) in
      let e : n / 10 * 10 + n % 10 ≡ n = omega arith in
      parse_digits-snoc most (n / 10) (n % 10) (show_fuel f (n / 10)) q (omega arith) (omega arith)
      ∙ ap some e)
]

show_fuel-digits : (f n : ℕ) → All IsDigit (show_fuel f n)
unfolding show_fuel
show_fuel-digits zero n = tt
show_fuel-digits (suc f) n = elim (Bool-cases (ltb n 10)) [
  | inl y ↦ rw y ((omega arith, ground arith), tt)
  | inr m ↦ rw m (
      All-append IsDigit (show_fuel f (n / 10)) ((b'0' + n % 10) ∷ []) (show_fuel-digits f (n / 10))
        ((omega arith, omega arith), tt))
]

pub show-digits : (n : ℕ) → All IsDigit (show n)
unfolding show
show-digits n = show_fuel-digits (suc n) n

is_empty-snoc : (t : Text) (c : ℕ) → is_empty (t ++ c ∷ []) ≡ false
is_empty-snoc [] c = refl
is_empty-snoc (d ∷ t) c = refl

pub is_empty-show : (n : ℕ) → is_empty (show n) ≡ false
unfolding show show_fuel
is_empty-show n = elim (Bool-cases (ltb n 10)) [
  | inl y ↦ rw y refl
  | inr m ↦ rw m (is_empty-snoc (show_fuel n (n / 10)) (b'0' + n % 10))
]

length-show_fuel : (f k n : ℕ) → n < power (suc k) → length (show_fuel f n) ≤ suc k
unfolding show_fuel
length-show_fuel zero k n h = omega arith
length-show_fuel (suc f) zero n h = let y : ltb n 10 ≡ true = ground arith in rw y (omega arith)
length-show_fuel (suc f) (suc k) n h = elim (Bool-cases (ltb n 10)) [
  | inl y ↦ rw y (omega arith)
  | inr m ↦ rw m (
      omega (
        arith,
        length-append (show_fuel f (n / 10)) ((b'0' + n % 10) ∷ []),
        length-show_fuel f k (n / 10) (omega arith),
      ))
]

-- eight digits are enough for a number below 100 million
pub length-show : (n : ℕ) → n < 100000000 → length (show n) ≤ 8
unfolding show
length-show n h = length-show_fuel (suc n) 7 n h

digits-some :
    (most m : ℕ) (t : Text)
    → All IsDigit t
    → is_empty t ≡ false
    → parse_digits most 0 t ≡ some m
    → parse_uint most t ≡ some m
unfolding parse_uint
digits-some most m [] v n h = cc
digits-some most m (c ∷ t) (d, v) n h = let f : (c == b'+') ≡ false = ground arith in rw f h

-- a number that is shown parses back
pub parse_uint-show : (most n : ℕ) → n ≤ most → parse_uint most (show n) ≡ some n
unfolding show
parse_uint-show most n h =
    digits-some most n (show n) (show-digits n) (is_empty-show n)
      (parse_digits-show_fuel most (suc n) n (omega arith) h)
