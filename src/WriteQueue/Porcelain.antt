-- ===== src/WriteQueue/Porcelain.antt =====
-- `git status --porcelain -z` in crates/engine/src/write_queue.rs: its records, the conflicted ones,
-- and the classes of paths that a discard treats differently.
pub mod RoundTrip
pub mod Classes
use git_bamboo.Prelude.{
  ℕ, Bool, true, false, ◌||◌, Option, none, some, List, [], ◌∷◌, ◌++◌, find, is_empty, is_some,
  if◌then◌else◌, ltb, Result, ok, err, and_then,
}
use git_bamboo.Prelude.Text.{Text, codes, eq, len, first_is, split, split_bytes, Debug}
use git_bamboo.Protocol.{Error, plain, ConflictKind}
use git_bamboo.WriteQueue.Conflict.{porcelain_conflict_kind}

-- (XY, path)
abbrev pub Entry : Type 0
Entry = Text × Text

-- what one NUL-separated field is: nothing, a record, or a slice that panics
pub data Field : Type 0 where
  ignored broken : Field
  record_of : (xy path : Text) → Field

abbrev tail_field : Text → Option (Text × Text) → Field
tail_field xy none = broken
tail_field xy (some (_, path)) = record_of xy path

abbrev head_field : Text → Option (Text × Text) → Field
head_field field none = broken
head_field field (some (xy, _)) = tail_field xy (split_bytes field 3)

unfoldable pub read_field : Text → Field
read_field field =
    if is_empty field
    then ignored
    else if ltb (len field) 3
    then ignored
    else head_field field (split_bytes field 2)

-- a rename or a copy: the next field is its source
abbrev pub is_rename : Text → Bool
is_rename xy = first_is b'R' xy || first_is b'C' xy

abbrev pub put_entry : Text → Text → Option (List Entry) → Option (List Entry)
put_entry xy path none = none
put_entry xy path (some entries) = some ((xy, path) ∷ entries)

-- The loop over the fields; the flag says that this field is a rename's source, to be consumed.
-- `none` is a panic.
unfoldable pub parse_fields : Bool → List Text → Option (List Entry)
parse_fields skip [] = some []
parse_fields true (field ∷ fields) = parse_fields false fields
parse_fields false (field ∷ fields) = elim (read_field field) [
  | ignored ↦ parse_fields false fields
  | broken ↦ none
  | record_of xy path ↦ put_entry xy path (parse_fields (is_rename xy) fields)
]

unfoldable pub parse_porcelain_z : Text → Option (List Entry)
unfolding parse_fields read_field
parse_porcelain_z out = parse_fields false (split 0 out)

abbrev pub is_conflicted : Entry → Bool
is_conflicted entry = is_some (porcelain_conflict_kind entry.0)

pub record Classified : Type 0 where
  pub tracked : List Text
  pub untracked : List Text
  pub intent_to_add : List Text

pub data PathClass : Type 0 where
  is_tracked is_untracked is_intent_to_add : PathClass

-- `path.strip_suffix('/') == Some(p)` too: untracked directories end in a slash
unfoldable pub names_path : Text → Entry → Bool
names_path p entry = eq entry.1 p || eq entry.1 (p ++ b'/' ∷ [])

unfoldable pub class_of : Text → PathClass
class_of xy =
    if eq xy (codes "??")
    then is_untracked
    else if eq xy (codes " A") || eq xy (codes " AM")
    then is_intent_to_add
    else is_tracked

abbrev put_class : PathClass → Text → Classified → Classified
put_class is_tracked p c = record c { tracked = p ∷ c.tracked }
put_class is_untracked p c = record c { untracked = p ∷ c.untracked }
put_class is_intent_to_add p c = record c { intent_to_add = p ∷ c.intent_to_add }

pub conflicted_message : Debug → Text → Text
conflicted_message d path =
    codes "cannot discard "
    ++ (d.str path
        ++ codes
            ": the file has merge conflicts (resolve them first; discarding conflicted files is not supported)")

pub no_changes_message : Debug → Text → Text
no_changes_message d p = codes "no changes to discard for " ++ d.str p

-- the loop over the requested paths
unfoldable pub classify_paths : Debug → List Entry → List Text → Result Error Classified
unfolding names_path class_of
classify_paths d entries [] = ok (record { tracked = []; untracked = []; intent_to_add = [] })
classify_paths d entries (p ∷ ps) = elim (find (names_path p) entries) [
  | none ↦ err (plain (no_changes_message d p))
  | some entry ↦ and_then (classify_paths d entries ps) λ c. ok (put_class (class_of entry.0) p c)
]

-- `classify_discard_paths` behind the status call
unfoldable pub classify_entries : Debug → List Entry → List Text → Result Error Classified
unfolding classify_paths
classify_entries d entries paths = elim (find is_conflicted entries) [
  | some (_, path) ↦ err (plain (conflicted_message d path))
  | none ↦ classify_paths d entries paths
]
