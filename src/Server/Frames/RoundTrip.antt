-- ===== src/Server/Frames/RoundTrip.antt =====
-- About `write_frame` and `read_message` of crates/engine/src/server.rs together.
use git_bamboo.Prelude.{
  ℕ, suc, ◌+◌, ◌≤◌, ◌<◌, false, ltb, Option, none, some, [], ◌∷◌, ◌++◌, append_assoc, length,
  length-append, take, drop, is_empty, All, All-append, All-mono, ok, and_then, ◌≡◌, refl, sym, ap,
  ◌∙◌, arith,
}
use git_bamboo.Prelude.Text.{Text, codes, show, trim_end, is_whitespace}
use git_bamboo.Server.Utf8.{Bytes, decode_utf8, decode_utf8-ascii}
use git_bamboo.Server.Frames.{
  Json, Headers, ended, max_header_line, max_header_bytes, max_content_length, parse_line, on_line,
  on_text, read_headers, read_body, finish, read_frame, write_frame,
}
use git_bamboo.Server.Frames.Header.{
  IsPlain, header, read_line_lem, header-IsPlain, header-length, trim_end-header, parse_line-header,
  is_empty-snoc,
}

module _ (j : Json) where
  -- a line that passes the checks
  on_text-on_line :
      (again : Option ℕ → Headers) (cl : Option ℕ) (line rest : Bytes) (sum : ℕ) (text : Text)
      → is_empty line ≡ false
      → sum ≤ max_header_bytes
      → length line ≤ max_header_line
      → on_text j again cl line rest sum (some text)
        ≡ on_line j again cl rest (parse_line j (trim_end text))
  unfolding on_text
  on_text-on_line again cl line rest sum text e s h =
      let a : ltb max_header_bytes sum ≡ false = ground arith in
      let b : ltb max_header_line (length line) ≡ false = ground arith in rw e (rw a (rw b refl))

  -- one round of the loop, at a plain line that is within the caps
  read_headers-line :
      (f : ℕ) (cl : Option ℕ) (sum : ℕ) (line rest : Bytes)
      → All IsPlain line
      → length line ≤ 25
      → sum ≤ 30
      → read_headers j (suc f) cl sum (line ++ b'\n' ∷ rest)
        ≡ on_line j
            (λ cl'. read_headers j f cl' (sum + length (line ++ b'\n' ∷ [])) rest)
            cl
            rest
            (parse_line j (trim_end (line ++ b'\n' ∷ [])))
  unfolding read_headers
  read_headers-line f cl sum line rest v h s =
      let whole = line ++ b'\n' ∷ [] in
      let again : Option ℕ → Headers = λ cl'. read_headers j f cl' (sum + length whole) rest in
      let ascii =
        All-append (λ b. b < 128) line (b'\n' ∷ []) (All-mono line (λ b p. p.0) v)
          (omega arith, tt) in
      let size = length-append line (b'\n' ∷ []) in
      ap
        (λ p.
          on_text j (λ cl'. read_headers j f cl' (sum + length p.0) p.1) cl p.0 p.1
            (sum + length p.0) (decode_utf8 p.0))
        (read_line_lem (max_header_line + 1) line rest v (omega arith))
      ∙ ap (on_text j again cl whole rest (sum + length whole)) (decode_utf8-ascii whole ascii)
      ∙ on_text-on_line again cl whole rest (sum + length whole) whole (is_empty-snoc line)
          (omega arith) (omega arith)

  -- the blank line
  read_headers-blank :
      (f : ℕ) (cl : Option ℕ) (sum : ℕ) (rest : Bytes)
      → sum ≤ 30
      → read_headers j (suc f) cl sum (b'\r' ∷ b'\n' ∷ rest) ≡ ended cl rest
  unfolding trim_end is_whitespace parse_line
  read_headers-blank f cl sum rest s =
      read_headers-line f cl sum (b'\r' ∷ []) rest ((omega arith, refl), tt) (omega arith) s

  read_headers-written :
      (f n : ℕ) (rest : Bytes)
      → n ≤ max_content_length
      → read_headers j (suc (suc f)) none 0 (header n ++ b'\n' ∷ b'\r' ∷ b'\n' ∷ rest)
        ≡ ended (some n) rest
  read_headers-written f n rest h =
      let size = header-length n h in
      let more = length-append (header n) (b'\n' ∷ []) in
      read_headers-line (suc f) none 0 (header n) (b'\r' ∷ b'\n' ∷ rest) (header-IsPlain n) size
        (omega arith)
      ∙ ap
          (on_line j
            (λ cl'.
              read_headers j (suc f) cl' (0 + length (header n ++ b'\n' ∷ []))
                (b'\r' ∷ b'\n' ∷ rest))
            none (b'\r' ∷ b'\n' ∷ rest))
          (ap (parse_line j) (trim_end-header n) ∙ parse_line-header j n (omega arith))
      ∙ read_headers-blank f (some n) (0 + length (header n ++ b'\n' ∷ [])) rest (omega arith)

take-append : (t u : Bytes) → take (length t) (t ++ u) ≡ t
take-append [] u = refl
take-append (c ∷ t) u = ap (◌∷◌ c) (take-append t u)

drop-append : (t u : Bytes) → drop (length t) (t ++ u) ≡ u
drop-append [] u = refl
drop-append (c ∷ t) u = drop-append t u

read_body-append :
    (j : Json) (body rest : Bytes)
    → length body ≤ max_content_length
    → read_body j (some (length body)) (body ++ rest) ≡ ok (body, rest)
unfolding read_body
read_body-append j body rest h =
    let size = length-append body rest in
    let a : ltb max_content_length (length body) ≡ false = ground arith in
    let b : ltb (length (body ++ rest)) (length body) ≡ false = ground (arith, size) in
    rw a (rw b (rw (take-append body rest) (rw (drop-append body rest) refl)))

write_frame-eq :
    (body rest : Bytes)
    → write_frame body ++ rest ≡ header (length body) ++ b'\n' ∷ b'\r' ∷ b'\n' ∷ (body ++ rest)
unfolding write_frame
write_frame-eq body rest =
    let digits = show (length body) in
    ap (λ t. codes "Content-Length: " ++ t)
      (append_assoc digits (b'\r' ∷ b'\n' ∷ b'\r' ∷ b'\n' ∷ body) rest
        ∙ sym (append_assoc digits (b'\r' ∷ []) (b'\n' ∷ b'\r' ∷ b'\n' ∷ (body ++ rest))))

-- Reading a stream that begins with a written frame, whose body is at most 16 MiB, gives that body
-- and leaves what stands behind it.
pub read_frame-write :
    (j : Json) (body rest : Bytes)
    → length body ≤ max_content_length
    → read_frame j (write_frame body ++ rest) ≡ ok (some (body, rest))
unfolding read_frame
read_frame-write j body rest h =
    ap (read_frame j) (write_frame-eq body rest)
    ∙ ap (finish j) (
        read_headers-written j
          (length (drop 1 (header (length body) ++ b'\n' ∷ b'\r' ∷ b'\n' ∷ (body ++ rest))))
          (length body) (body ++ rest) h)
    ∙ ap (λ b. and_then b λ p. ok (some p)) (read_body-append j body rest h)
