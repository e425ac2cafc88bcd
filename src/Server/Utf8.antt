-- ===== src/Server/Utf8.antt =====
-- Rust's decoding of UTF-8, which `read_line` applies to a header line.
use git_bamboo.Prelude.{
  ℕ, zero, suc, ◌+◌, ◌-◌, ◌*◌, ◌<◌, true, ◌&&◌, ltb, leb, ◌==◌, Option, none, some, List, [], ◌∷◌,
  All, if◌then◌else◌, ◌≡◌, refl, ap, arith,
}
use git_bamboo.Prelude.Text.{Text}

abbrev pub Bytes : Type 0
Bytes = List ℕ

abbrev and_char : ℕ → Option Text → Option Text
and_char c none = none
and_char c (some t) = some (c ∷ t)

-- What a byte begins: how many bytes follow, the bits in it, and the range of the next byte; `none`
-- for a byte that begins no character of more than one byte.
unfoldable pub lead : ℕ → Option (ℕ × (ℕ × (ℕ × ℕ)))
lead b =
    if leb 0xc2 b && leb b 0xdf
    then some (1, (b - 0xc0, (0x80, 0xbf)))
    else if b == 0xe0
    then some (2, (0, (0xa0, 0xbf)))
    else if b == 0xed
    then some (2, (13, (0x80, 0x9f)))
    else if leb 0xe1 b && leb b 0xef
    then some (2, (b - 0xe0, (0x80, 0xbf)))
    else if b == 0xf0
    then some (3, (0, (0x90, 0xbf)))
    else if leb 0xf1 b && leb b 0xf3
    then some (3, (b - 0xf0, (0x80, 0xbf)))
    else if b == 0xf4
    then some (3, (4, (0x80, 0x8f)))
    else none

-- The characters of the bytes, where so many bytes of one are still to come behind some bits of it.
unfoldable pub decode : ℕ → ℕ → ℕ → ℕ → Bytes → Option Text
unfolding lead
decode zero acc low high [] = some []
decode (suc k) acc low high [] = none
decode zero acc low high (b ∷ bs) =
    if ltb b 0x80 then and_char b (decode zero 0 0 0 bs) else elim (lead b) [
      | none ↦ none
      | some (k, (bits, (low', high'))) ↦ decode k bits low' high' bs
    ]
decode (suc zero) acc low high (b ∷ bs) =
    let rest = decode zero 0 0 0 bs in
    if leb low b && leb b high then and_char (acc * 64 + (b - 0x80)) rest else none
decode (suc (suc k)) acc low high (b ∷ bs) =
    let rest = decode (suc k) (acc * 64 + (b - 0x80)) 0x80 0xbf bs in
    if leb low b && leb b high then rest else none

unfoldable pub decode_utf8 : Bytes → Option Text
unfolding decode
decode_utf8 bs = decode zero 0 0 0 bs

decode_ascii :
    (t : Bytes) (acc low high : ℕ) → All (λ b. b < 128) t → decode zero acc low high t ≡ some t
unfolding decode
decode_ascii [] acc low high v = refl
decode_ascii (b ∷ t) acc low high (h, v) =
    let e = decode_ascii t 0 0 0 v in
    let y : ltb b 0x80 ≡ true = ground arith in rw y (ap (and_char b) e)

pub decode_utf8-ascii : (t : Bytes) → All (λ b. b < 128) t → decode_utf8 t ≡ some t
unfolding decode_utf8
decode_utf8-ascii t v = decode_ascii t 0 0 0 v
