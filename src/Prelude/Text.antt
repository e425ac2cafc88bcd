-- ===== src/Prelude/Text.antt =====
-- Rust's `str` as a list of code points, with the operations of it that the engine uses. Lengths are
-- counted in bytes of UTF-8, as `str::len` counts them.
pub mod Decimal
use Prim.Native.Char.{code}
use Prim.Native.Nat.{ℕ, zero, suc, ◌+◌, ◌-◌, ◌/◌, ◌%◌, ◌<◌, ◌≤◌}
use Prim.Native.String.{String}
use mathlib.Core.Path.{◌≡◌, refl}
use mathlib.Core.Bool.{Bool, true, false, ◌&&◌, ◌||◌}
use mathlib.Core.Logic.{◌↔◌}
use mathlib.Core.Option.{Option, none, some}
use mathlib.Core.List.{List, [], ◌∷◌, ◌++◌}
use native.Mathlib.Omega.{arith}
use git_bamboo.Prelude.Tests.{ltb, leb, ◌==◌, if◌then◌else◌}
use git_bamboo.Prelude.Lists.{any}

abbrev pub Text : Type 0
Text = List ℕ

-- A literal.
abbrev pub codes : String → Text
codes String.[] = []
codes (String.◌∷◌ c s) = code c ∷ codes s

-- `char::len_utf8`
unfoldable pub len_utf8 : ℕ → ℕ
len_utf8 c = if ltb c 0x80 then 1 else if ltb c 0x800 then 2 else if ltb c 0x10000 then 3 else 4

-- `str::len`
unfoldable pub len : Text → ℕ
len [] = 0
len (c ∷ cs) = len_utf8 c + len cs

-- `==` on texts
unfoldable pub eq : Text → Text → Bool
eq [] [] = true
eq (x ∷ xs) (y ∷ ys) = x == y && eq xs ys
eq _ _ = false

-- `char::is_ascii_control`
abbrev pub is_ascii_control : ℕ → Bool
is_ascii_control c = ltb c 0x20 || c == 0x7f

-- `char::is_ascii_digit`
abbrev pub is_ascii_digit : ℕ → Bool
is_ascii_digit c = leb b'0' c && leb c b'9'

-- `char::is_ascii_hexdigit`
abbrev pub is_ascii_hexdigit : ℕ → Bool
is_ascii_hexdigit c = is_ascii_digit c || (leb b'a' c && leb c b'f') || (leb b'A' c && leb c b'F')

-- `char::is_whitespace`: the code points with the Unicode property White_Space
unfoldable pub is_whitespace : ℕ → Bool
is_whitespace c =
    (leb 0x9 c && leb c 0xd)
    || c == 0x20
    || c == 0x85
    || c == 0xa0
    || c == 0x1680
    || (leb 0x2000 c && leb c 0x200a)
    || c == 0x2028
    || c == 0x2029
    || c == 0x202f
    || c == 0x205f
    || c == 0x3000

-- `str::strip_prefix`
unfoldable pub strip_prefix : Text → Text → Option Text
strip_prefix [] t = some t
strip_prefix (p ∷ ps) [] = none
strip_prefix (p ∷ ps) (c ∷ cs) = let rest = strip_prefix ps cs in if p == c then rest else none

-- `str::starts_with` for a text
unfoldable pub starts_with : Text → Text → Bool
starts_with [] t = true
starts_with (p ∷ ps) [] = false
starts_with (p ∷ ps) (c ∷ cs) = p == c && starts_with ps cs

-- `str::starts_with` for a character
abbrev pub first_is : ℕ → Text → Bool
first_is p [] = false
first_is p (c ∷ cs) = c == p

-- `str::ends_with` for a character
abbrev pub last_is : ℕ → Text → Bool
last_is p [] = false
last_is p (c ∷ []) = c == p
last_is p (c ∷ d ∷ cs) = last_is p (d ∷ cs)

-- `str::ends_with` for a text
unfoldable pub ends_with : Text → Text → Bool
ends_with p [] = eq p []
ends_with p (c ∷ cs) = eq p (c ∷ cs) || ends_with p cs

-- `str::contains` for a character
abbrev pub has : ℕ → Text → Bool
has p t = any (λ c. c == p) t

-- `str::contains` for a text
unfoldable pub contains : Text → Text → Bool
unfolding starts_with
contains p [] = starts_with p []
contains p (c ∷ cs) = starts_with p (c ∷ cs) || contains p cs

-- Puts a character in front of the first piece.
abbrev pub glue : ℕ → List Text → List Text
glue c [] = (c ∷ []) ∷ []
glue c (t ∷ ts) = (c ∷ t) ∷ ts

-- `str::split` at a character: as many pieces as separators, and one more
unfoldable pub split : ℕ → Text → List Text
split s [] = [] ∷ []
split s (c ∷ cs) = let rest = split s cs in if c == s then [] ∷ rest else glue c rest

-- `str::trim_start`, `str::trim_end`, `str::trim`
unfoldable pub trim_start : Text → Text
trim_start [] = []
trim_start (c ∷ cs) = let rest = trim_start cs in if is_whitespace c then rest else c ∷ cs

abbrev pub put_back : ℕ → Text → Text
put_back c [] = if is_whitespace c then [] else c ∷ []
put_back c (d ∷ ds) = c ∷ d ∷ ds

unfoldable pub trim_end : Text → Text
trim_end [] = []
trim_end (c ∷ cs) = put_back c (trim_end cs)

unfoldable pub trim : Text → Text
unfolding trim_start trim_end
trim t = trim_end (trim_start t)

-- one `\r` off the end of a line
strip_cr : Text → Text
strip_cr [] = []
strip_cr (c ∷ []) = if c == b'\r' then [] else c ∷ []
strip_cr (c ∷ d ∷ t) = c ∷ strip_cr (d ∷ t)

-- the pieces between newlines as lines: an empty last piece is none
whole_lines : List Text → List Text
unfolding strip_cr
whole_lines [] = []
whole_lines ([] ∷ []) = []
whole_lines ((c ∷ t) ∷ []) = (c ∷ t) ∷ []
whole_lines (t ∷ u ∷ ts) = strip_cr t ∷ whole_lines (u ∷ ts)

-- `str::lines`
unfoldable pub lines : Text → List Text
unfolding split whole_lines
lines t = whole_lines (split b'\n' t)

abbrev pub cons_front : ℕ → Option (Text × Text) → Option (Text × Text)
cons_front c none = none
cons_front c (some (a, b)) = some (c ∷ a, b)

-- `&t[..n]` and `&t[n..]`, for `n` in bytes; `none` where Rust panics, past the end or inside the
-- bytes of a character
unfoldable pub split_bytes : Text → ℕ → Option (Text × Text)
split_bytes [] n = if n == 0 then some ([], []) else none
split_bytes (c ∷ cs) n =
    let rest = cons_front c (split_bytes cs (n - len_utf8 c)) in
    if n == 0 then some ([], c ∷ cs) else if ltb n (len_utf8 c) then none else rest

-- `join` with a separator text
unfoldable pub join : Text → List Text → Text
join s [] = []
join s (t ∷ []) = t
join s (t ∷ u ∷ ts) = t ++ (s ++ join s (u ∷ ts))

-- Decimal display of a number, the fuel above its number of digits.
show_fuel : ℕ → ℕ → Text
show_fuel zero n = []
show_fuel (suc f) n =
    let rest = show_fuel f (n / 10) in
    if ltb n 10 then (b'0' + n) ∷ [] else rest ++ (b'0' + n % 10) ∷ []

unfoldable pub show : ℕ → Text
unfolding show_fuel
show n = show_fuel (suc n) n

-- `splitn(2, s)`: what is before the first separator and what is behind it; `none` without one
unfoldable pub split_once : ℕ → Text → Option (Text × Text)
split_once s [] = none
split_once s (c ∷ cs) =
    let rest = cons_front c (split_once s cs) in if c == s then some ([], cs) else rest

pub eq_iff : (a b : Text) → (eq a b ≡ true) ↔ (a ≡ b)
unfolding eq
eq_iff [] [] = ground arith
eq_iff (x ∷ a) (y ∷ b) = ground (arith, eq_iff a b)
eq_iff _ _ = ground arith

pub eq_refl : (a : Text) → eq a a ≡ true
eq_refl a = (eq_iff a a).1 refl

-- Rust's `{:?}` of a string and of a character: its escape tables belong to the standard library and
-- are a parameter, on which no theorem depends.
pub record Debug : Type 0 where
  pub str : Text → Text
  pub chr : ℕ → Text

-- `{:?}` of a slice of strings
debug_items : Debug → List Text → Text
debug_items d [] = []
debug_items d (t ∷ []) = d.str t
debug_items d (t ∷ u ∷ ts) = d.str t ++ (codes ", " ++ debug_items d (u ∷ ts))

unfoldable pub debug_slice : Debug → List Text → Text
unfolding debug_items
debug_slice d ts = codes "[" ++ (debug_items d ts ++ codes "]")

pub len_utf8_ascii : (c : ℕ) → c < 128 → len_utf8 c ≡ 1
unfolding len_utf8
len_utf8_ascii c h = ground arith

pub len_utf8_bounds : (c : ℕ) → (1 ≤ len_utf8 c) × (len_utf8 c ≤ 4)
unfolding len_utf8
len_utf8_bounds c = ground arith

pub split_bytes-zero : (t : Text) → split_bytes t 0 ≡ some ([], t)
unfolding split_bytes
split_bytes-zero [] = refl
split_bytes-zero (c ∷ t) = refl

pub split_bytes_ascii :
    (c : ℕ) (t : Text) (n : ℕ)
    → c < 128
    → split_bytes (c ∷ t) (suc n) ≡ cons_front c (split_bytes t n)
unfolding split_bytes
split_bytes_ascii c t n h =
    rw (len_utf8_ascii c h) (let e : suc n - 1 ≡ n = omega arith in rw e (ground arith))

pub strip_prefix_iff : (p t r : Text) → (strip_prefix p t ≡ some r) ↔ (t ≡ p ++ r)
unfolding strip_prefix
strip_prefix_iff [] t r = ground arith
strip_prefix_iff (a ∷ p) [] r = ground arith
strip_prefix_iff (a ∷ p) (c ∷ t) r = ground (arith, strip_prefix_iff p t r)

pub eq-false : (a b : Text) → (a ≡ b → ⊥) → eq a b ≡ false
eq-false a b h = ground (arith, eq_iff a b)
