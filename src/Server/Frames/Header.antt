-- ===== src/Server/Frames/Header.antt =====
-- The header line that `write_frame` of crates/engine/src/server.rs writes, and how it is parsed.
use git_bamboo.Prelude.{
  ℕ, zero, suc, ◌≤◌, ◌<◌, true, false, ◌==◌, ◌&&◌, not, all, and-true, ltb, [], ◌∷◌, ◌++◌,
  append_assoc, length, length-append, is_empty, All, All-append, All-mono, ◌≡◌, refl, ap, ◌∙◌,
  arith,
}
use git_bamboo.Prelude.Numbers.{parse_uint}
use git_bamboo.Prelude.Text.{
  Text, codes, show, trim, trim_start, trim_end, put_back, strip_prefix, is_whitespace,
}
use git_bamboo.Prelude.Text.Decimal.{
  IsDigit, show-digits, is_empty-show, length-show, parse_uint-show,
}
use git_bamboo.Server.Utf8.{Bytes}
use git_bamboo.Server.Frames.{
  Json, length_of, length_or_error, max_content_length, usize_max, read_line, parse_line,
}

-- no newline, and ASCII
abbrev pub IsPlain : ℕ → Type 0
IsPlain b = (b < 128) × ((b == b'\n') ≡ false)

pub read_line_lem :
    (n : ℕ) (line rest : Bytes)
    → All IsPlain line
    → length line < n
    → read_line n (line ++ b'\n' ∷ rest) ≡ (line ++ b'\n' ∷ [], rest)
unfolding read_line
read_line_lem zero line rest v h = absurd (omega arith)
read_line_lem (suc n) [] rest v h = refl
read_line_lem (suc n) (b ∷ line) rest ((p, q), v) h =
    rw q (ap (λ x. (b ∷ x.0, x.1)) (read_line_lem n line rest v (omega arith)))

digit-IsPlain : (c : ℕ) → IsDigit c → IsPlain c
digit-IsPlain c (p, q) = (omega arith, ground arith)

digit_visible : (c : ℕ) → IsDigit c → is_whitespace c ≡ false
unfolding is_whitespace
digit_visible c (p, q) = ground arith

put_back_visible : (c : ℕ) (t : Text) → is_whitespace c ≡ false → put_back c t ≡ c ∷ t
put_back_visible c [] h = rw h refl
put_back_visible c (d ∷ t) h = refl

trim_end-digits : (t : Text) → All IsDigit t → trim_end (t ++ b'\r' ∷ b'\n' ∷ []) ≡ t
unfolding trim_end is_whitespace
trim_end-digits [] v = refl
trim_end-digits (c ∷ t) (d, v) =
    ap (put_back c) (trim_end-digits t v) ∙ put_back_visible c t (digit_visible c d)

trim_end-only : (t : Text) → All IsDigit t → trim_end t ≡ t
unfolding trim_end
trim_end-only [] v = refl
trim_end-only (c ∷ t) (d, v) =
    ap (put_back c) (trim_end-only t v) ∙ put_back_visible c t (digit_visible c d)

trim_start-visible : (c : ℕ) (t : Text) → is_whitespace c ≡ false → trim_start (c ∷ t) ≡ c ∷ t
unfolding trim_start
trim_start-visible c t h = rw h refl

-- the digits behind the header's name and a space
trim-digits : (t : Text) → All IsDigit t → trim (0x20 ∷ t) ≡ t
unfolding trim trim_start is_whitespace
trim-digits [] v = refl
trim-digits (c ∷ t) (d, v) =
    ap trim_end (trim_start-visible c t (digit_visible c d)) ∙ trim_end-only (c ∷ t) (d, v)

-- the header line without its newline
abbrev pub header : ℕ → Bytes
header n = codes "Content-Length: " ++ (show n ++ b'\r' ∷ [])

all-IsPlain : (t : Text) → all (λ b. ltb b 128 && not (b == b'\n')) t ≡ true → All IsPlain t
all-IsPlain [] h = tt
all-IsPlain (b ∷ t) h =
    let (p, q) = and-true (ltb b 128 && not (b == b'\n')) _ h in
    ((ground arith, ground arith), all-IsPlain t q)

pub header-IsPlain : (n : ℕ) → All IsPlain (header n)
header-IsPlain n =
    let digits = All-mono (show n) digit-IsPlain (show-digits n) in
    let tail = All-append IsPlain (show n) (b'\r' ∷ []) digits ((omega arith, refl), tt) in
    All-append IsPlain (codes "Content-Length: ") (show n ++ b'\r' ∷ [])
      (all-IsPlain (codes "Content-Length: ") refl) tail

pub header-length : (n : ℕ) → n ≤ max_content_length → length (header n) ≤ 25
header-length n h = omega (arith, length-append (show n) (b'\r' ∷ []), length-show n (omega arith))

pub is_empty-snoc : (t : Bytes) → is_empty (t ++ b'\n' ∷ []) ≡ false
is_empty-snoc [] = refl
is_empty-snoc (c ∷ t) = refl

-- the line in full
line-eq :
    (n : ℕ) → header n ++ b'\n' ∷ [] ≡ codes "Content-Length: " ++ (show n ++ b'\r' ∷ b'\n' ∷ [])
line-eq n =
    ap (λ t. codes "Content-Length: " ++ t) (append_assoc (show n) (b'\r' ∷ []) (b'\n' ∷ []))

visible : (t : Text) → is_empty t ≡ false → (c : ℕ) → put_back c t ≡ c ∷ t
visible [] h c = cc
visible (d ∷ t) h c = refl

is_empty-append : (t u : Text) → is_empty u ≡ false → is_empty (t ++ u) ≡ false
is_empty-append [] u h = h
is_empty-append (c ∷ t) u h = refl

trim_end-front : (t u : Text) → is_empty (trim_end u) ≡ false → trim_end (t ++ u) ≡ t ++ trim_end u
unfolding trim_end
trim_end-front [] u h = refl
trim_end-front (c ∷ t) u h =
    ap (put_back c) (trim_end-front t u h)
    ∙ visible (t ++ trim_end u) (is_empty-append t (trim_end u) h) c

pub trim_end-header :
    (n : ℕ) → trim_end (header n ++ b'\n' ∷ []) ≡ codes "Content-Length: " ++ show n
trim_end-header n =
    let e = trim_end-digits (show n) (show-digits n) in
    ap trim_end (line-eq n)
    ∙ trim_end-front (codes "Content-Length: ") (show n ++ b'\r' ∷ b'\n' ∷ [])
        (ap is_empty e ∙ is_empty-show n)
    ∙ ap (λ t. codes "Content-Length: " ++ t) e

pub parse_line-header :
    (j : Json) (n : ℕ)
    → n ≤ usize_max
    → parse_line j (codes "Content-Length: " ++ show n) ≡ length_of n
unfolding parse_line strip_prefix
parse_line-header j n h =
    ap (λ t. length_or_error j t (parse_uint usize_max t)) (trim-digits (show n) (show-digits n))
    ∙ ap (length_or_error j (show n)) (parse_uint-show usize_max n h)
