-- ===== src/WriteQueue/Redact/Secrecy.antt =====
-- What stands between a scheme and the last `@` of its authority does not reach the output.
use git_bamboo.Prelude.{
  ℕ, Bool, false, ◌==◌, ◌||◌, none, some, [], ◌∷◌, ◌++◌, ◌≡◌, refl, arith, any, Option-cases, inl,
  inr, or-false,
}
use git_bamboo.Prelude.Text.{Text, strip_prefix, is_whitespace}
use git_bamboo.WriteQueue.Redact.{
  scheme, find_scheme, is_end, authority, after_authority, after_last_at, mask,
}
use git_bamboo.WriteQueue.Redact.Scan.{find_scheme_split}

-- A text in which no authority ends.
abbrev pub IsOpen : Text → Type 0
IsOpen u = any is_end u ≡ false

pub authority-open : (u t : Text) → IsOpen u → authority (u ++ t) ≡ u ++ authority t
unfolding authority
authority-open [] t h = refl
authority-open (c ∷ u) t h =
    let (hc, hu) = or-false (is_end c) (any is_end u) h in ground (arith, authority-open u t hu)

pub after_authority-open : (u t : Text) → IsOpen u → after_authority (u ++ t) ≡ after_authority t
unfolding after_authority
after_authority-open [] t h = refl
after_authority-open (c ∷ u) t h =
    let (hc, hu) = or-false (is_end c) (any is_end u) h in
    ground (arith, after_authority-open u t hu)

pub after_last_at-some :
    (u t : Text) (host : Text) → after_last_at t ≡ some host → after_last_at (u ++ t) ≡ some host
unfolding after_last_at
after_last_at-some [] t host h = h
after_last_at-some (c ∷ u) t host h = rw (after_last_at-some u t host h, after_last_at)

-- An `@` makes the part before it invisible.
pub mask_at : (u v t : Text) → mask (u ++ (b'@' ∷ t)) ≡ mask (v ++ (b'@' ∷ t))
unfolding mask after_last_at
mask_at u v t = elim (Option-cases (after_last_at (b'@' ∷ t))) [
  | inl nothing ↦ absurd (ground arith)
  | inr (host, e) ↦
      rw (after_last_at-some u (b'@' ∷ t) host e, after_last_at-some v (b'@' ∷ t) host e)
]

-- `front` ends with the first scheme of any text that begins with it.
abbrev pub EndsAtScheme : Text → Type 0
EndsAtScheme front = find_scheme front ≡ some (front, [])

strip_scheme-miss :
    (a b c : ℕ) (t x : Text)
    → strip_prefix scheme (a ∷ b ∷ c ∷ t) ≡ none
    → strip_prefix scheme (a ∷ b ∷ c ∷ (t ++ x)) ≡ none
unfolding strip_prefix
strip_scheme-miss a b c t x h = ground arith

strip_scheme-hit :
    (t tail x : Text)
    → strip_prefix scheme t ≡ some tail
    → strip_prefix scheme (t ++ x) ≡ some (tail ++ x)
unfolding strip_prefix
strip_scheme-hit [] tail x h = cc
strip_scheme-hit (a ∷ []) tail x h = absurd (ground arith)
strip_scheme-hit (a ∷ b ∷ []) tail x h = absurd (ground arith)
strip_scheme-hit (a ∷ b ∷ c ∷ t) tail x h = ground arith

-- A text with a scheme has the same first scheme whatever follows it.
pub find_scheme-append :
    (t front tail x : Text)
    → find_scheme t ≡ some (front, tail)
    → find_scheme (t ++ x) ≡ some (front, tail ++ x)
unfolding find_scheme
find_scheme-append [] front tail x h = cc
find_scheme-append (a ∷ []) front tail x h = absurd (unfold strip_prefix in ground arith)
find_scheme-append (a ∷ b ∷ []) front tail x h = absurd (unfold strip_prefix in ground arith)
find_scheme-append (a ∷ b ∷ c ∷ t) front tail x h =
    elim (Option-cases (strip_prefix scheme (a ∷ b ∷ c ∷ t))) [
      | inr (rest, hit) ↦ ground (arith, strip_scheme-hit (a ∷ b ∷ c ∷ t) rest x hit)
      | inl miss ↦ elim (Option-cases (find_scheme (b ∷ c ∷ t))) [
        | inl nothing ↦ ground arith
        | inr ((f, r), e) ↦
            ground (arith, strip_scheme-miss a b c t x miss, find_scheme-append (b ∷ c ∷ t) f r x e)
      ]
    ]

scheme-EndsAtScheme : EndsAtScheme scheme
unfolding find_scheme
scheme-EndsAtScheme = refl

-- The part of a text up to its first scheme ends at its own first scheme.
pub find_scheme-front :
    (t front tail : Text) → find_scheme t ≡ some (front, tail) → EndsAtScheme front
unfolding find_scheme
find_scheme-front [] front tail h = cc
find_scheme-front (c ∷ t) front tail h = elim (Option-cases (strip_prefix scheme (c ∷ t))) [
  | inr (rest, hit) ↦ let same : front ≡ scheme = ground arith in rw same scheme-EndsAtScheme
  | inl miss ↦ elim (Option-cases (find_scheme t)) [
    | inl nothing ↦ absurd (ground arith)
    | inr ((f, r), e) ↦ elim (Option-cases (strip_prefix scheme (c ∷ f))) [
      | inl none_here ↦ ground (arith, find_scheme-front t f r e)
      | inr (x, hit) ↦
          let late = strip_scheme-hit (c ∷ f) x r hit in
          let whole = (find_scheme_split t f r e).0 in absurd (cc (late, whole, miss))
    ]
  ]
]

pub authority_at : (t : Text) → authority (b'@' ∷ t) ≡ b'@' ∷ authority t
unfolding authority is_end
authority_at t = refl

pub after_authority_at : (t : Text) → after_authority (b'@' ∷ t) ≡ after_authority t
unfolding after_authority is_end
after_authority_at t = refl

-- the characters at which the code takes a URL's authority to be over
abbrev ends_authority : ℕ → Bool
ends_authority c =
    c == b'/' || is_whitespace c || c == b'\'' || c == b'"' || c == b')' || c == b'>' || c == b'<'

-- userinfo without a slash, white space, a quotation mark, a closing parenthesis or an angle bracket
abbrev pub IsUserinfo : Text → Type 0
IsUserinfo u = any ends_authority u ≡ false
