-- ===== src/WriteQueue/Redact.antt =====
-- `redact_credentials` of crates/engine/src/write_queue.rs. The loop's two positions in the text are
-- the text that is left; each round takes more than two characters off it, so a fuel above the
-- text's length lasts (`redact_fuel-enough`).
pub mod Scan
pub mod Idempotent
pub mod Secrecy
use git_bamboo.Prelude.{
  ℕ, zero, suc, Bool, ◌||◌, Option, none, some, [], ◌∷◌, ◌++◌, length, if◌then◌else◌, ◌==◌,
  is_empty,
}
use git_bamboo.Prelude.Text.{Text, codes, is_whitespace, strip_prefix, starts_with}
use mathlib.Core.Option

abbrev pub scheme : Text
scheme = b':' ∷ b'/' ∷ b'/' ∷ []

-- `find("://")`: the text up to and with the first match, and the tail behind it
unfoldable pub find_scheme : Text → Option (Text × Text)
unfolding strip_prefix
find_scheme [] = none
find_scheme (c ∷ cs) =
    let later = Option.map (λ (p : Text × Text). (c ∷ p.0, p.1)) (find_scheme cs) in
    elim (strip_prefix scheme (c ∷ cs)) [ some tail ↦ some (scheme, tail) | none ↦ later ]

-- what ends an authority
unfoldable pub is_end : ℕ → Bool
unfolding is_whitespace
is_end c =
    c == b'/' || is_whitespace c || c == b'\'' || c == b'"' || c == b')' || c == b'>' || c == b'<'

-- the authority at the front of a tail, and what follows it
unfoldable pub authority : Text → Text
authority [] = []
authority (c ∷ cs) = let more = c ∷ authority cs in if is_end c then [] else more

unfoldable pub after_authority : Text → Text
after_authority [] = []
after_authority (c ∷ cs) = let more = after_authority cs in if is_end c then c ∷ cs else more

-- `rfind('@')`: what follows the last one
unfoldable pub after_last_at : Text → Option Text
after_last_at [] = none
after_last_at (c ∷ cs) = elim (after_last_at cs) [
  | some host ↦ some host
  | none ↦ if c == b'@' then some cs else none
]

abbrev pub mask_host : Text → Option Text → Text
mask_host whole (some host) = b'*' ∷ b'*' ∷ b'*' ∷ b'@' ∷ host
mask_host whole none = whole

unfoldable pub mask : Text → Text
unfolding after_last_at
mask t = mask_host t (after_last_at t)

-- one round at a scheme that was found
unfoldable pub redact_fuel : ℕ → Text → Text
redact_fuel zero text = text
redact_fuel (suc f) text = elim (find_scheme text) [
  | none ↦ text
  | some (front, tail) ↦ front ++ (mask (authority tail) ++ redact_fuel f (after_authority tail))
]

unfoldable pub redact_credentials : Text → Text
unfolding redact_fuel
redact_credentials text = redact_fuel (suc (length text)) text
