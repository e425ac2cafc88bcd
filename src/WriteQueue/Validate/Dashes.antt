-- ===== src/WriteQueue/Validate/Dashes.antt =====
-- No accepted name begins with a dash, and the texts that `validate_stash_ref` accepts.
use git_bamboo.Prelude.{
  ℕ, ◌≤◌, ◌≢◌, ◌↔◌, ◌++◌, all, true, false, some, [], ◌∷◌, ◌≡◌, refl, arith, ok, Option-cases, inl,
  inr,
}
use git_bamboo.Prelude.Text.{
  Text, Debug, first_is, strip_prefix, codes, len, is_ascii_digit, strip_prefix_iff,
}
use git_bamboo.WriteQueue.Validate.{
  validate_ref_arg, validate_pushspec, validate_stash_ref, stash_digits, strip_last,
}

pub ref_arg_no_dash :
    (d : Debug) (name : Text) → validate_ref_arg d name ≡ ok tt → first_is b'-' name ≡ false
unfolding validate_ref_arg
ref_arg_no_dash d [] h = cc
ref_arg_no_dash d (c ∷ name) h = ground arith

pub pushspec_no_dash :
    (d : Debug) (spec : Text) → validate_pushspec d spec ≡ ok tt → first_is b'-' spec ≡ false
unfolding validate_pushspec
pushspec_no_dash d [] h = ground arith
pushspec_no_dash d (c ∷ spec) h = ground arith

strip_last_iff : (p : ℕ) (t r : Text) → (strip_last p t ≡ some r) ↔ (t ≡ r ++ p ∷ [])
unfolding strip_last
strip_last_iff p [] [] = ground arith
strip_last_iff p [] (x ∷ r) = ground arith
strip_last_iff p (c ∷ []) [] = ground arith
strip_last_iff p (c ∷ []) (x ∷ []) = ground arith
strip_last_iff p (c ∷ []) (x ∷ y ∷ r) = ground arith
strip_last_iff p (c ∷ e ∷ t) [] = ground (arith, strip_last_iff p (e ∷ t) [])
strip_last_iff p (c ∷ e ∷ t) (x ∷ r) = ground (arith, strip_last_iff p (e ∷ t) r)

-- The form `stash@{N}`, with one to nine bytes of ASCII digits for N.
pub record IsStashRef (s : Text) : Type 0 where
  pub digits : Text
  pub form : s ≡ codes "stash@{" ++ (digits ++ b'}' ∷ [])
  pub ne_nil : digits ≢ []
  pub short : len digits ≤ 9
  pub all_digits : all is_ascii_digit digits ≡ true

stash_digits_iff :
    (s digits : Text)
    → (stash_digits s ≡ some digits) ↔ (s ≡ codes "stash@{" ++ (digits ++ b'}' ∷ []))
unfolding stash_digits
stash_digits_iff s digits = elim (Option-cases (strip_prefix (codes "stash@{") s)) [
  | inl nothing ↦ (
    ground arith,
    λ e. absurd (cc (nothing, (strip_prefix_iff (codes "stash@{") s (digits ++ b'}' ∷ [])).1 e)),
  )
  | inr (rest, found) ↦ ground (
    arith,
    strip_prefix_iff (codes "stash@{") s rest,
    strip_prefix_iff (codes "stash@{") s (digits ++ b'}' ∷ []),
    strip_last_iff b'}' rest digits,
  )
]

-- A text is accepted as a stash reference exactly if it is `stash@{N}` with one to nine ASCII digits
-- for N.
pub validate_stash_ref_iff :
    (d : Debug) (s : Text) → (validate_stash_ref d s ≡ ok tt) ↔ IsStashRef s
unfolding validate_stash_ref
validate_stash_ref_iff d s = (accepted, λ v. refused v)
  where
    accepted : validate_stash_ref d s ≡ ok tt → IsStashRef s
    accepted h = elim (Option-cases (stash_digits s)) [
      | inl nothing ↦ absurd (ground arith)
      | inr (digits, found) ↦ record {
        digits = digits;
        form = (stash_digits_iff s digits).0 found;
        ne_nil = ground arith;
        short = ground arith;
        all_digits = ground arith;
      }
    ]

    refused : IsStashRef s → validate_stash_ref d s ≡ ok tt
    refused v =
        let found = (stash_digits_iff s v.digits).1 v.form in
        rw (found, validate_stash_ref) (ground arith)

pub stash_ref_no_dash :
    (d : Debug) (s : Text) → validate_stash_ref d s ≡ ok tt → first_is b'-' s ≡ false
stash_ref_no_dash d s h = rw ((validate_stash_ref_iff d s).0 h).form refl
