-- ===== src/WriteQueue/Redact/Scan.antt =====
-- The scanner: its parts put together are the text, and its equation without fuel.
use git_bamboo.Prelude.{
  ℕ, zero, suc, ◌≤◌, ◌<◌, none, some, [], ◌∷◌, ◌++◌, length, ◌≡◌, refl, ap, sym, ◌∙◌, arith,
  Option-cases, inl, inr,
}
use git_bamboo.Prelude.Text.{Text, strip_prefix}
use git_bamboo.WriteQueue.Redact.{
  scheme, find_scheme, authority, after_authority, mask, redact_fuel, redact_credentials,
}

pub authority_split : (t : Text) → authority t ++ after_authority t ≡ t
unfolding authority after_authority
authority_split [] = refl
authority_split (c ∷ cs) = ground (arith, authority_split cs)

pub length-after_authority : (t : Text) → length (after_authority t) ≤ length t
unfolding after_authority
length-after_authority [] = omega arith
length-after_authority (c ∷ cs) = ground (arith, length-after_authority cs)

-- A match at the front is the text itself.
pub strip_scheme : (t tail : Text) → strip_prefix scheme t ≡ some tail → t ≡ scheme ++ tail
unfolding strip_prefix
strip_scheme [] tail h = cc
strip_scheme (a ∷ []) tail h = ground arith
strip_scheme (a ∷ b ∷ []) tail h = ground arith
strip_scheme (a ∷ b ∷ c ∷ t) tail h = ground arith

-- The two parts that `find_scheme` returns are the text, and the tail is shorter.
pub find_scheme_split :
    (t front tail : Text)
    → find_scheme t ≡ some (front, tail)
    → (front ++ tail ≡ t) × (suc (length tail) ≤ length t)
unfolding find_scheme
find_scheme_split [] front tail h = cc
find_scheme_split (c ∷ cs) front tail h = elim (Option-cases (strip_prefix scheme (c ∷ cs))) [
  | inl miss ↦ elim (Option-cases (find_scheme cs)) [
    | inl nothing ↦ ground arith
    | inr ((f, t), e) ↦ ground (arith, find_scheme_split cs f t e)
  ]
  | inr (rest, hit) ↦
      let same = strip_scheme (c ∷ cs) rest hit in ground (arith, ap length same, same)
]

pub redact_fuel-none : (f : ℕ) (t : Text) → find_scheme t ≡ none → redact_fuel (suc f) t ≡ t
unfolding redact_fuel
redact_fuel-none f t h = rw (h, redact_fuel)

pub redact_fuel-some :
    (f : ℕ) (t front tail : Text)
    → find_scheme t ≡ some (front, tail)
    → redact_fuel (suc f) t
      ≡ front ++ (mask (authority tail) ++ redact_fuel f (after_authority tail))
unfolding redact_fuel
redact_fuel-some f t front tail h = rw (h, redact_fuel)

-- The text behind an authority is shorter than the text.
pub length-after_scheme :
    (t front tail : Text)
    → find_scheme t ≡ some (front, tail)
    → length (after_authority tail) < length t
length-after_scheme t front tail h =
    omega (arith, (find_scheme_split t front tail h).1, length-after_authority tail)

-- With fuel above the text's length, more fuel changes nothing.
pub redact_fuel-enough :
    (f g : ℕ) (t : Text) → length t < f → length t < g → redact_fuel f t ≡ redact_fuel g t
redact_fuel-enough zero g t h k = absurd (omega arith)
redact_fuel-enough (suc f) zero t h k = absurd (omega arith)
redact_fuel-enough (suc f) (suc g) t h k = elim (Option-cases (find_scheme t)) [
  | inl nothing ↦ redact_fuel-none f t nothing ∙ sym (redact_fuel-none g t nothing)
  | inr ((front, tail), e) ↦
      let less = length-after_scheme t front tail e in
      redact_fuel-some f t front tail e
      ∙ ap (λ r. front ++ (mask (authority tail) ++ r))
          (redact_fuel-enough f g (after_authority tail) (omega arith) (omega arith))
      ∙ sym (redact_fuel-some g t front tail e)
]

pub redact-none : (t : Text) → find_scheme t ≡ none → redact_credentials t ≡ t
unfolding redact_credentials
redact-none t h = redact_fuel-none (length t) t h

-- A round of the loop, without fuel.
pub redact-some :
    (t front tail : Text)
    → find_scheme t ≡ some (front, tail)
    → redact_credentials t
      ≡ front ++ (mask (authority tail) ++ redact_credentials (after_authority tail))
unfolding redact_credentials
redact-some t front tail h =
    let less = length-after_scheme t front tail h in
    redact_fuel-some (length t) t front tail h
    ∙ ap (λ r. front ++ (mask (authority tail) ++ r))
        (redact_fuel-enough (length t) (suc (length (after_authority tail))) (after_authority tail)
          (omega arith) (omega arith))
