-- ===== src/WriteQueue/Validate.antt =====
-- The validators of crates/engine/src/write_queue.rs: what a caller's text must satisfy before it
-- reaches git as an argument.
pub mod Dashes
pub mod Refspecs
use git_bamboo.Prelude.{
  ℕ, Bool, not, ◌&&◌, ◌||◌, Option, none, some, List, [], ◌∷◌, ◌++◌, any, all, is_empty,
  if◌then◌else◌, ltb, leb, ◌==◌, Result, ok, err, and_then,
}
use git_bamboo.Prelude.Text.{
  Text, codes, len, contains, starts_with, has, first_is, last_is, ends_with, split, strip_prefix,
  is_ascii_control, is_ascii_digit, is_ascii_hexdigit, is_whitespace, Debug,
}
use git_bamboo.Protocol.{Error, plain}

abbrev pub Checked : Type 0
Checked = Result Error (Unit {0})

abbrev pub refuse : Text → Checked
refuse msg = err (plain msg)

pub path_begins_with_dash : Debug → Text → Text
path_begins_with_dash d p = codes "path argument may not begin with '-': " ++ d.str p

pub invalid_ref_name : Debug → Text → Text
invalid_ref_name d name = codes "invalid ref name: " ++ d.str name

pub invalid_character : Debug → ℕ → Text → Text
invalid_character d ch name =
    codes "invalid character " ++ (d.chr ch ++ (codes " in ref name " ++ d.str name))

pub invalid_component : Debug → Text → Text
invalid_component d name = codes "invalid ref component in " ++ d.str name

pub invalid_refspec : Debug → Text → Text
invalid_refspec d spec = codes "invalid push refspec: " ++ d.str spec

pub refspec_deletes : Debug → Text → Text
refspec_deletes d spec =
    codes "invalid push refspec (remote branch deletion is not supported): " ++ d.str spec

pub bad_stash_ref : Debug → Text → Text
bad_stash_ref d s = codes "stash ref must be of the form stash@{N}: " ++ d.str s

pub not_under_refs : Debug → Text → Text
not_under_refs d name = codes "ref name must start with 'refs/': " ++ d.str name

pub invalid_object_id : Debug → Text → Text
invalid_object_id d sha = codes "invalid object id: " ++ d.str sha

-- `validate_path_arg`
unfoldable pub validate_path_arg : Debug → Text → Checked
validate_path_arg d p =
    if is_empty p
    then refuse (codes "path argument must not be empty")
    else if first_is b'-' p
    then refuse (path_begins_with_dash d p)
    else if has 0 p || any is_ascii_control p
    then refuse (codes "path argument contains control characters")
    else ok tt

-- a control character, or one of the string that the loop tests
unfoldable pub is_forbidden : ℕ → Bool
is_forbidden ch = is_ascii_control ch || has ch (codes " ~^:?*[\\")

unfoldable pub is_bad_component : Text → Bool
is_bad_component comp = is_empty comp || first_is b'.' comp || last_is b'.' comp

-- `for ch in name.chars()`; the whole name is in the message
unfoldable pub check_chars : Debug → Text → Text → Checked
check_chars d name [] = ok tt
check_chars d name (ch ∷ rest) =
    let later = check_chars d name rest in
    if is_forbidden ch then refuse (invalid_character d ch name) else later

-- `for comp in name.split('/')`
unfoldable pub check_components : Debug → Text → List Text → Checked
check_components d name [] = ok tt
check_components d name (comp ∷ rest) =
    let later = check_components d name rest in
    if is_bad_component comp then refuse (invalid_component d name) else later

-- both loops, in order
unfoldable pub check_body : Debug → Text → Checked
check_body d name =
    and_then (check_chars d name name) λ _. check_components d name (split b'/' name)

-- `validate_ref_arg`
unfoldable pub validate_ref_arg : Debug → Text → Checked
validate_ref_arg d name =
    if is_empty name
    then refuse (codes "ref name must not be empty")
    else if first_is b'-' name || first_is b'/' name || last_is b'/' name
    then refuse (invalid_ref_name d name)
    else if ltb 512 (len name)
        || contains (codes "..") name
        || contains (codes "//") name
        || has b'@' name
        || ends_with (codes ".lock") name
        || last_is b'.' name
    then refuse (invalid_ref_name d name)
    else check_body d name

-- `validate_pushspec`
unfoldable pub validate_pushspec : Debug → Text → Checked
validate_pushspec d spec =
    if is_empty spec || first_is b'-' spec || first_is b'+' spec
    then refuse (invalid_refspec d spec)
    else if first_is b':' spec || last_is b':' spec
    then refuse (refspec_deletes d spec)
    else if any (λ c. is_ascii_control c || is_whitespace c) spec
    then refuse (invalid_refspec d spec)
    else ok tt

abbrev pub put_first : ℕ → Option Text → Option Text
put_first c none = none
put_first c (some t) = some (c ∷ t)

-- `strip_suffix` for a character
unfoldable pub strip_last : ℕ → Text → Option Text
strip_last p [] = none
strip_last p (c ∷ []) = if c == p then some [] else none
strip_last p (c ∷ e ∷ cs) = put_first c (strip_last p (e ∷ cs))

-- the digits between the braces, if the text has the form
unfoldable pub stash_digits : Text → Option Text
stash_digits s = elim (strip_prefix (codes "stash@{") s) [
  | none ↦ none
  | some rest ↦ strip_last b'}' rest
]

-- `validate_stash_ref`; `len` counts bytes
unfoldable pub validate_stash_ref : Debug → Text → Checked
validate_stash_ref d s = elim (stash_digits s) [
  | none ↦ refuse (bad_stash_ref d s)
  | some digits ↦
      if not (is_empty digits) && leb (len digits) 9 && all is_ascii_digit digits
      then ok tt
      else refuse (bad_stash_ref d s)
]

abbrev pub max_stash_message_len : ℕ
max_stash_message_len = 500

-- `validate_stash_message`
unfoldable pub validate_stash_message : Text → Checked
validate_stash_message message =
    if is_empty message
    then refuse (codes "stash message must not be empty")
    else if ltb max_stash_message_len (len message)
    then refuse (codes "stash message exceeds 500 bytes")
    else if has 0 message || any is_ascii_control message
    then refuse (codes "stash message contains control characters")
    else ok tt

-- `validate_full_ref_name` of crates/engine/src/undo.rs
unfoldable pub validate_full_ref_name : Debug → Text → Checked
validate_full_ref_name d name =
    if not (starts_with (codes "refs/") name)
    then refuse (not_under_refs d name)
    else if ltb 512 (len name)
        || contains (codes "..") name
        || contains (codes "//") name
        || has b'@' name
        || last_is b'/' name
        || ends_with (codes ".lock") name
        || last_is b'.' name
    then refuse (invalid_ref_name d name)
    else check_body d name

-- `validate_sha` of crates/engine/src/undo.rs
unfoldable pub validate_sha : Debug → Text → Checked
validate_sha d sha =
    if (len sha == 40 || len sha == 64) && all is_ascii_hexdigit sha
    then ok tt
    else refuse (invalid_object_id d sha)
