-- ===== src/Prelude/Numbers.antt =====
-- `str::parse` for unsigned integers, by the largest value of the type.
use Prim.Native.Nat.{ℕ, ◌+◌, ◌-◌, ◌*◌}
use mathlib.Core.List.{[], ◌∷◌}
use mathlib.Core.Option.{Option, none, some}
use git_bamboo.Prelude.Tests.{if◌then◌else◌, leb, ◌==◌}
use git_bamboo.Prelude.Text.{Text, is_ascii_digit}

-- The digits behind what has been read; `none` at a character that is no digit, and as soon as the
-- value is above the largest one.
unfoldable pub parse_digits : ℕ → ℕ → Text → Option ℕ
parse_digits most n [] = some n
parse_digits most n (c ∷ cs) =
    let rest = parse_digits most (n * 10 + (c - b'0')) cs in
    if is_ascii_digit c then (if leb (n * 10 + (c - b'0')) most then rest else none) else none

abbrev some_digits : ℕ → Text → Option ℕ
some_digits most [] = none
some_digits most (c ∷ cs) = parse_digits most 0 (c ∷ cs)

-- a plus sign may stand in front; there must be a digit
unfoldable pub parse_uint : ℕ → Text → Option ℕ
unfolding parse_digits
parse_uint most [] = none
parse_uint most (c ∷ cs) = if c == b'+' then some_digits most cs else some_digits most (c ∷ cs)
