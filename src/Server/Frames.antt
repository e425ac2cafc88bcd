-- ===== src/Server/Frames.antt =====
-- `read_message` and `write_frame` of crates/engine/src/server.rs: messages behind a block of header
-- lines that gives their length in bytes.
pub mod Termination
pub mod Header
pub mod RoundTrip
use git_bamboo.Prelude.{
  ℕ, zero, suc, ◌+◌, ◌-◌, ◌*◌, ◌^◌, Bool, true, false, ◌==◌, ltb, leb, Option, none, some, List, [],
  ◌∷◌, ◌++◌, length, take, drop, is_empty, if◌then◌else◌, Result, ok, err, and_then,
}
use git_bamboo.Prelude.Numbers.{parse_uint}
use git_bamboo.Prelude.Text.{Text, codes, show, trim, trim_end, strip_prefix, Debug}
use git_bamboo.Protocol.{Error, plain}
use git_bamboo.Server.Utf8.{Bytes, decode_utf8}

abbrev pub max_content_length : ℕ
max_content_length = 16777216

abbrev pub max_header_bytes : ℕ
max_header_bytes = 65536

abbrev pub max_header_line : ℕ
max_header_line = 8192

abbrev pub usize_max : ℕ
usize_max = 18446744073709551615

-- serde_json, and the errors of reading and parsing, whose texts are for the answer only
pub record Json : Type 1 where
  pub Value : Type 0
  pub from_slice : Bytes → Result Error Value
  pub member : Text → Value → Option Value
  pub as_str : Value → Option Text
  pub is_null : Value → Bool
  pub empty_object : Value
  pub bad_utf8 : Error
  pub bad_length : Text → Error
  pub truncated : Error

abbrev cons_line : ℕ → Bytes × Bytes → Bytes × Bytes
cons_line b (line, rest) = (b ∷ line, rest)

-- `take(n).read_line`: the bytes up to a newline, at most so many, and the rest of the stream
unfoldable pub read_line : ℕ → Bytes → Bytes × Bytes
read_line zero bs = ([], bs)
read_line (suc n) [] = ([], [])
read_line (suc n) (b ∷ bs) =
    let rest = cons_line b (read_line n bs) in if b == b'\n' then (b ∷ [], bs) else rest

-- how the header block ends
pub data Headers : Type 0 where
  eof : Headers
  violated : Error → Headers
  ended : (content_length : Option ℕ) (rest : Bytes) → Headers
  no_fuel : Headers

-- what a line without its white space at the end is: the end, a length, or another header
pub data Line : Type 0 where
  last other : Line
  wrong : Error → Line
  length_of : ℕ → Line

module _ (j : Json) where
  abbrev pub length_or_error : Text → Option ℕ → Line
  length_or_error len none = wrong (j.bad_length len)
  length_or_error len (some n) = length_of n

  abbrev of_prefix : Option Text → Line
  of_prefix none = other
  of_prefix (some len) = length_or_error (trim len) (parse_uint usize_max (trim len))

  unfoldable pub parse_line : Text → Line
  parse_line line =
      if is_empty line then last else of_prefix (strip_prefix (codes "Content-Length:") line)

  -- what follows a line, where `again` is the rest of the loop
  abbrev pub on_line : (Option ℕ → Headers) → Option ℕ → Bytes → Line → Headers
  on_line again content_length rest last = ended content_length rest
  on_line again content_length rest other = again content_length
  on_line again content_length rest (wrong e) = violated e
  on_line again content_length rest (length_of n) = again (some n)

  -- the checks of a line, in order; `sum` is the size of the block with it
  abbrev pub on_text : (Option ℕ → Headers) → Option ℕ → Bytes → Bytes → ℕ → Option Text → Headers
  unfolding parse_line
  on_text again content_length line rest sum none = violated j.bad_utf8
  on_text again content_length line rest sum (some text) =
      if is_empty line
      then eof
      else if ltb max_header_bytes sum
      then violated (plain (codes "header block exceeds 65536 bytes"))
      else if ltb max_header_line (length line)
      then violated (plain (codes "header line exceeds 8192 bytes"))
      else on_line again content_length rest (parse_line (trim_end text))

  -- The loop over the header lines, with the length so far, the bytes so far, and fuel.
  unfoldable pub read_headers : ℕ → Option ℕ → ℕ → Bytes → Headers
  unfolding read_line on_text
  read_headers zero content_length header_bytes bs = no_fuel
  read_headers (suc f) content_length header_bytes bs =
      let (line, rest) = read_line (max_header_line + 1) bs in
      on_text (λ cl. read_headers f cl (header_bytes + length line) rest) content_length line rest
        (header_bytes + length line) (decode_utf8 line)

  pub record Message : Type 0 where
    pub id : Option j.Value
    pub method : Text
    pub params : j.Value

  too_long : ℕ → Text
  too_long n = codes "Content-Length " ++ (show n ++ codes " exceeds the maximum of 16777216")

  -- the bytes of the body and the rest of the stream
  unfoldable pub read_body : Option ℕ → Bytes → Result Error (Bytes × Bytes)
  unfolding too_long
  read_body none rest = err (plain (codes "missing Content-Length header"))
  read_body (some n) rest =
      if ltb max_content_length n
      then err (plain (too_long n))
      else if ltb (length rest) n
      then err j.truncated
      else ok (take n rest, drop n rest)

  abbrev method_of : Option j.Value → Option Text
  method_of none = none
  method_of (some v) = j.as_str v

  -- absent or null `params` behave like `{}`
  abbrev pub params_of : Option j.Value → j.Value
  params_of none = j.empty_object
  params_of (some v) = if j.is_null v then j.empty_object else v

  -- the message in a parsed body; without an `id` it is a notification
  unfoldable pub message_of : j.Value → Result Error Message
  message_of value = elim (method_of (j.member (codes "method") value)) [
    | none ↦ err (plain (codes "message missing method"))
    | some method ↦ ok (record {
      id = j.member (codes "id") value;
      method = method;
      params = params_of (j.member (codes "params") value);
    })
  ]

  abbrev pub finish : Headers → Result Error (Option (Bytes × Bytes))
  finish eof = ok none
  finish (violated e) = err e
  finish (ended content_length rest) = and_then (read_body content_length rest) λ p. ok (some p)
  finish no_fuel = err (plain [])

  -- the next frame of a stream: its body and what stands behind it; `none` at the end of the stream
  unfoldable pub read_frame : Bytes → Result Error (Option (Bytes × Bytes))
  unfolding read_headers read_body
  read_frame bs = finish (read_headers (suc (length bs)) none 0 bs)

  abbrev parsed : Option (Bytes × Bytes) → Result Error (Option (Message × Bytes))
  parsed none = ok none
  parsed (some (body, rest)) =
      and_then (j.from_slice body)
        λ value. and_then (message_of value) λ message. ok (some (message, rest))

  unfoldable pub read_message : Bytes → Result Error (Option (Message × Bytes))
  unfolding read_frame message_of
  read_message bs = and_then (read_frame bs) parsed

-- `write_frame`, for the bytes of the body
unfoldable pub write_frame : Bytes → Bytes
write_frame body =
    codes "Content-Length: " ++ (show (length body) ++ (b'\r' ∷ b'\n' ∷ b'\r' ∷ b'\n' ∷ body))
