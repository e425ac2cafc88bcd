-- ===== src/WriteQueue/Redact/Idempotent.antt =====
-- A redacted text has nothing left to redact.
use git_bamboo.Prelude.{
  ℕ, zero, suc, ◌<◌, none, some, [], ◌∷◌, ◌++◌, length, ◌≡◌, refl, ap, ◌∙◌, arith, append-nil,
  Option-cases, inl, inr,
}
use git_bamboo.Prelude.Text.{Text, strip_prefix}
use git_bamboo.WriteQueue.Redact.{
  scheme, find_scheme, is_end, authority, after_authority, after_last_at, mask, redact_credentials,
}
use git_bamboo.WriteQueue.Redact.Scan.{strip_scheme, length-after_scheme, redact-none, redact-some}
use git_bamboo.WriteQueue.Redact.Secrecy.{
  IsOpen, EndsAtScheme, authority-open, after_authority-open, find_scheme-append, find_scheme-front,
}

authority-IsOpen : (t : Text) → IsOpen (authority t)
unfolding authority
authority-IsOpen [] = refl
authority-IsOpen (c ∷ t) = ground (arith, authority-IsOpen t)

-- The host behind the last `@` has no `@`, and ends no authority if the whole does not.
after_last_at_host :
    (u host : Text)
    → after_last_at u ≡ some host
    → (after_last_at host ≡ none) × (IsOpen u → IsOpen host)
unfolding after_last_at
after_last_at_host [] host h = cc
after_last_at_host (c ∷ u) host h = elim (Option-cases (after_last_at u)) [
  | inl nothing ↦ ground arith
  | inr (w, e) ↦ ground (arith, after_last_at_host u w e)
]

mask-IsOpen : (u : Text) → IsOpen u → IsOpen (mask u)
unfolding mask is_end
mask-IsOpen u h = elim (Option-cases (after_last_at u)) [
  | inl nothing ↦ rw (nothing, mask) h
  | inr (host, e) ↦ rw (e, mask) ((after_last_at_host u host e).1 h)
]

mask-mask : (u : Text) → mask (mask u) ≡ mask u
unfolding mask after_last_at
mask-mask u = elim (Option-cases (after_last_at u)) [
  | inl nothing ↦ ground arith
  | inr (host, e) ↦ ground (arith, after_last_at_host u host e)
]

-- A text that begins with the end of an authority, or is empty.
abbrev IsEnded : Text → Type 0
IsEnded t = authority t ≡ []

after_authority-IsEnded : (t : Text) → IsEnded (after_authority t)
unfolding authority after_authority
after_authority-IsEnded [] = refl
after_authority-IsEnded (c ∷ t) = ground (arith, after_authority-IsEnded t)

after_authority_ended : (t : Text) → IsEnded t → after_authority t ≡ t
unfolding authority after_authority
after_authority_ended [] h = refl
after_authority_ended (c ∷ t) h = ground arith

IsEnded-head : (c : ℕ) (t u : Text) → IsEnded (c ∷ t) → IsEnded (c ∷ u)
unfolding authority
IsEnded-head c t u h = ground arith

find_scheme-head :
    (c : ℕ) (t front tail : Text)
    → find_scheme (c ∷ t) ≡ some (front, tail)
    → (f : Text) × (front ≡ c ∷ f)
unfolding find_scheme
find_scheme-head c t front tail h = elim (Option-cases (strip_prefix scheme (c ∷ t))) [
  | inr (rest, hit) ↦ (b'/' ∷ b'/' ∷ [], ground (arith, strip_scheme (c ∷ t) rest hit))
  | inl miss ↦ elim (Option-cases (find_scheme t)) [
    | inl nothing ↦ absurd (ground arith)
    | inr ((f, r), e) ↦ (f, ground arith)
  ]
]

redact-IsEnded : (t : Text) → IsEnded t → IsEnded (redact_credentials t)
redact-IsEnded [] h = rw (redact-none [] (unfold find_scheme in refl)) h
redact-IsEnded (c ∷ t) h = elim (Option-cases (find_scheme (c ∷ t))) [
  | inl nothing ↦ rw (redact-none (c ∷ t) nothing) h
  | inr ((front, tail), e) ↦
      let (f, g) = find_scheme-head c t front tail e in
      rw (redact-some (c ∷ t) front tail e) (rw g (IsEnded-head c t _ h))
]

-- Redacting a text in which one round has been done masks nothing more in that round.
redact_round :
    (front tail rest : Text)
    → EndsAtScheme front
    → IsEnded rest
    → redact_credentials (front ++ (mask (authority tail) ++ rest))
      ≡ front ++ (mask (authority tail) ++ redact_credentials rest)
redact_round front tail rest h k =
    let open_mask = mask-IsOpen (authority tail) (authority-IsOpen tail) in
    redact-some _ front (mask (authority tail) ++ rest) (find_scheme-append front front [] _ h)
    ∙ simp (
      authority-open (mask (authority tail)) rest open_mask,
      after_authority-open (mask (authority tail)) rest open_mask,
      k,
      append-nil,
      mask-mask,
      after_authority_ended rest k,
    )

redact_idem_fuel :
    (n : ℕ) (t : Text)
    → length t < n
    → redact_credentials (redact_credentials t) ≡ redact_credentials t
redact_idem_fuel zero t h = absurd (omega arith)
redact_idem_fuel (suc n) t h = elim (Option-cases (find_scheme t)) [
  | inl nothing ↦ ap redact_credentials (redact-none t nothing)
  | inr ((front, tail), e) ↦
      let rest = after_authority tail in
      let less = length-after_scheme t front tail e in
      rw (redact-some t front tail e) (
        redact_round front tail (redact_credentials rest) (find_scheme-front t front tail e)
          (redact-IsEnded rest (after_authority-IsEnded tail))
        ∙ ap (λ r. front ++ (mask (authority tail) ++ r)) (redact_idem_fuel n rest (omega arith)))
]

-- Redacting a text that is redacted already changes nothing.
pub redact_idem : (t : Text) → redact_credentials (redact_credentials t) ≡ redact_credentials t
redact_idem t = redact_idem_fuel (suc (length t)) t (omega arith)
