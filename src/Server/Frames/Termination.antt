-- ===== src/Server/Frames/Termination.antt =====
-- About the loop of `read_message` in crates/engine/src/server.rs: its fuel and what it consumes.
use mathlib.Core.Path.{subst}
use git_bamboo.Prelude.{
  ℕ, zero, suc, ◌+◌, ◌≤◌, ◌<◌, false, ◌==◌, ltb, Bool-cases, Option, none, some, [], ◌∷◌, length,
  length-take, length-drop, is_empty, Result, ok, err, and_then, ◌≡◌, arith, inl, inr,
}
use git_bamboo.Prelude.Text.{Text, trim_end}
use git_bamboo.Protocol.{Error}
use git_bamboo.Server.Utf8.{Bytes, decode_utf8}
use git_bamboo.Server.Frames.{
  Json, Headers, eof, violated, ended, no_fuel, Line, last, other, wrong, length_of,
  max_header_line, max_header_bytes, max_content_length, read_line, parse_line, on_line, on_text,
  read_headers, read_body, finish, read_frame,
}

length-read_line :
    (n : ℕ) (bs : Bytes) → length (read_line n bs).0 + length (read_line n bs).1 ≡ length bs
unfolding read_line
length-read_line zero bs = omega arith
length-read_line (suc n) [] = omega arith
length-read_line (suc n) (b ∷ bs) = elim (Bool-cases (b == b'\n')) [
  | inl y ↦ rw y (omega arith)
  | inr h ↦ rw h (omega (arith, length-read_line n bs))
]

module _ (j : Json) (P : Headers → Type 0) (again : Option ℕ → Headers) (cl : Option ℕ) where
  on_line-lem :
      (rest : Bytes) (l : Line)
      → P (ended cl rest)
      → ((e : Error) → P (violated e))
      → ((cl : Option ℕ) → P (again cl))
      → P (on_line j again cl rest l)
  on_line-lem rest last pe pv pa = pe
  on_line-lem rest other pe pv pa = pa cl
  on_line-lem rest (wrong e) pe pv pa = pv e
  on_line-lem rest (length_of n) pe pv pa = pa (some n)

  -- what the checks of a line leave to show
  pub on_text_lem :
      (line rest : Bytes) (sum : ℕ) (o : Option Text)
      → P eof
      → ((e : Error) → P (violated e))
      → (is_empty line ≡ false → sum ≤ max_header_bytes → P (ended cl rest))
      → (is_empty line ≡ false → sum ≤ max_header_bytes → (cl : Option ℕ) → P (again cl))
      → P (on_text j again cl line rest sum o)
  unfolding on_text
  on_text_lem line rest sum none po pv pe pa = pv j.bad_utf8
  on_text_lem line rest sum (some text) po pv pe pa = elim (Bool-cases (is_empty line)) [
    | inl y ↦ rw y po
    | inr n ↦ rw n (elim (Bool-cases (ltb max_header_bytes sum)) [
      | inl y ↦ rw y (pv _)
      | inr m ↦
          let small : sum ≤ max_header_bytes = ground arith in
          rw m (elim (Bool-cases (ltb max_header_line (length line))) [
            | inl y ↦ rw y (pv _)
            | inr k ↦
                rw k (on_line-lem rest (parse_line j (trim_end text)) (pe n small) pv (pa n small))
          ])
    ])
  ]

-- a line that is not empty leaves less of the stream
shorter :
    (line rest bs : Bytes)
    → length line + length rest ≡ length bs
    → is_empty line ≡ false
    → length rest < length bs
shorter [] rest bs e h = cc
shorter (b ∷ line) rest bs e h = omega arith

-- If the fuel is above the number of bytes of the stream, the loop over the header lines does not run
-- out of it: every round takes a line, which is not empty.
pub read_headers-ends :
    (j : Json) (f : ℕ) (cl : Option ℕ) (sum : ℕ) (bs : Bytes)
    → length bs < f
    → ¬ (read_headers j f cl sum bs ≡ no_fuel)
unfolding read_headers
read_headers-ends j zero cl sum bs h = absurd (omega arith)
read_headers-ends j (suc f) cl sum bs h =
    let line = (read_line (max_header_line + 1) bs).0 in
    let rest = (read_line (max_header_line + 1) bs).1 in
    on_text_lem j (λ x. ¬ (x ≡ no_fuel)) (λ cl. read_headers j f cl (sum + length line) rest) cl
      line rest (sum + length line) (decode_utf8 line) (λ e. cc) (λ e i. cc) (λ n s i. cc)
      (λ n s cl'.
        let less = shorter line rest bs (length-read_line (max_header_line + 1) bs) n in
        read_headers-ends j f cl' (sum + length line) rest (omega arith))

-- what an end of the header block has consumed
abbrev pub Within : ℕ → Headers → Type 0
Within n (ended cl rest) = n ≤ length rest + max_header_bytes
Within n _ = Unit

pub read_headers-Within :
    (j : Json) (f : ℕ) (cl : Option ℕ) (sum : ℕ) (bs : Bytes)
    → Within (sum + length bs) (read_headers j f cl sum bs)
unfolding read_headers
read_headers-Within j zero cl sum bs = tt
read_headers-Within j (suc f) cl sum bs =
    let line = (read_line (max_header_line + 1) bs).0 in
    let rest = (read_line (max_header_line + 1) bs).1 in
    let e = length-read_line (max_header_line + 1) bs in
    let same : sum + length bs ≡ (sum + length line) + length rest = omega arith in
    on_text_lem j (Within (sum + length bs)) (λ cl. read_headers j f cl (sum + length line) rest) cl
      line rest (sum + length line) (decode_utf8 line) tt (λ e. tt) (λ n s. omega arith)
      (λ n s cl'. rw same (read_headers-Within j f cl' (sum + length line) rest))

-- a body that is cut from a stream
abbrev Cut : Bytes → Result Error (Bytes × Bytes) → Type 0
Cut bs (ok (body, rest)) =
    (length body ≤ max_content_length) × (length bs ≡ length body + length rest)
Cut bs (err e) = Unit

read_body-Cut : (j : Json) (cl : Option ℕ) (bs : Bytes) → Cut bs (read_body j cl bs)
unfolding read_body
read_body-Cut j none bs = tt
read_body-Cut j (some n) bs = elim (Bool-cases (ltb max_content_length n)) [
  | inl y ↦ rw y tt
  | inr m ↦ rw m (elim (Bool-cases (ltb (length bs) n)) [
    | inl y ↦ rw y tt
    | inr k ↦
        let small : n ≤ max_content_length = ground arith in
        let there : n ≤ length bs = ground arith in
        let t = length-take n bs in let d = length-drop n bs in rw k (omega arith, omega arith)
  ])
]

-- a frame of a stream of `n` bytes
abbrev Framed : ℕ → Result Error (Option (Bytes × Bytes)) → Type 0
Framed n (ok (some (body, rest))) =
    (length body ≤ max_content_length) × (n ≤ max_header_bytes + length body + length rest)
Framed n (ok none) = Unit
Framed n (err e) = Unit

Cut-Framed :
    (n : ℕ) (bs : Bytes) (b : Result Error (Bytes × Bytes))
    → n ≤ length bs + max_header_bytes
    → Cut bs b
    → Framed n (and_then b λ p. ok (some p))
Cut-Framed n bs (ok (body, rest)) w (h, e) = (h, omega arith)
Cut-Framed n bs (err e) w h = tt

finish-Framed : (j : Json) (n : ℕ) (x : Headers) → Within n x → Framed n (finish j x)
finish-Framed j n eof w = tt
finish-Framed j n (violated e) w = tt
finish-Framed j n no_fuel w = tt
finish-Framed j n (ended cl bs) w = Cut-Framed n bs (read_body j cl bs) w (read_body-Cut j cl bs)

read_frame-Framed : (j : Json) (bs : Bytes) → Framed (length bs) (read_frame j bs)
unfolding read_frame
read_frame-Framed j bs =
    let z : 0 + length bs ≡ length bs = omega arith in
    finish-Framed j (length bs) _ (
      subst (λ n. Within n (read_headers j (suc (length bs)) none 0 bs)) z
        (read_headers-Within j (suc (length bs)) none 0 bs))

-- A frame that is read has a body of at most 16 MiB, and its headers had at most 64 KiB: with the
-- rest of the stream, that is all of the stream.
pub read_frame-bounds :
    (j : Json) (bs body rest : Bytes)
    → read_frame j bs ≡ ok (some (body, rest))
    → (length body ≤ max_content_length)
      × (length bs ≤ max_header_bytes + length body + length rest)
read_frame-bounds j bs body rest h = subst (Framed (length bs)) h (read_frame-Framed j bs)
