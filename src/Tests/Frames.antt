-- ===== src/Tests/Frames.antt =====
-- The framing of crates/engine/src/server.rs at concrete inputs.
use git_bamboo.Prelude.{
  ℕ, ◌+◌, ◌≤◌, Bool, true, false, Option, none, some, List, [], ◌∷◌, ◌++◌, length, Result, ok, err,
  ◌≡◌, refl, arith,
}
use git_bamboo.Prelude.Text.{Text, codes}
use git_bamboo.Protocol.{plain}
use git_bamboo.Server.Utf8.{Bytes, decode_utf8}
use git_bamboo.Server.Frames.{
  Json, no_fuel, read_headers, read_frame, write_frame, max_header_bytes, max_content_length,
}
use git_bamboo.Server.Frames.Termination.{read_headers-ends, read_frame-bounds}
use git_bamboo.Server.Frames.RoundTrip.{read_frame-write}

-- every body is one value, without members
abbrev bare : Json
bare = record {
  Value = Bytes;
  from_slice = λ bs. ok bs;
  member = λ name v. none;
  as_str = λ v. some v;
  is_null = λ v. false;
  empty_object = [];
  bad_utf8 = plain (codes "utf-8");
  bad_length = λ t. plain t;
  truncated = plain (codes "eof");
}

abbrev body : Bytes
body = codes "{}"

abbrev stream : Bytes
stream = codes "Content-Length: 2\r\n\r\n{}rest"

written_run : write_frame body ++ codes "rest" ≡ stream
unfolding write_frame git_bamboo.Prelude.Text.show
written_run = refl

decoded_run : decode_utf8 (0xe2 ∷ 0x82 ∷ 0xac ∷ []) ≡ some (0x20ac ∷ [])
unfolding decode_utf8
decoded_run = refl

surrogate_run : decode_utf8 (0xed ∷ 0xa0 ∷ 0x80 ∷ []) ≡ none
unfolding decode_utf8
surrogate_run = refl

read_run : read_frame bare stream ≡ ok (some (body, codes "rest"))
unfolding read_frame decode_utf8 git_bamboo.Prelude.Text.trim_end
    git_bamboo.Prelude.Text.is_whitespace git_bamboo.Prelude.Text.strip_prefix
    git_bamboo.Prelude.Numbers.parse_uint git_bamboo.Prelude.Text.trim
read_run = refl

read_frame-write_example :
    read_frame bare (write_frame body ++ codes "rest") ≡ ok (some (body, codes "rest"))
read_frame-write_example = read_frame-write bare body (codes "rest") (omega arith)

read_frame-bounds_example : (2 ≤ max_content_length) × (length stream ≤ max_header_bytes + 2 + 4)
read_frame-bounds_example = read_frame-bounds bare stream body (codes "rest") read_run

read_headers-ends_example : ¬ (read_headers bare 30 none 0 stream ≡ no_fuel)
read_headers-ends_example = read_headers-ends bare 30 none 0 stream (omega arith)
