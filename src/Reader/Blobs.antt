-- ===== src/Reader/Blobs.antt =====
-- `read_blob` of crates/engine/src/gix_read.rs and the checks of ids and revisions.
use git_bamboo.Prelude.{
  ℕ, ◌≤◌, Bool, true, not, ◌&&◌, ◌||◌, and-true, leb, Option, none, some, [], ◌∷◌, ◌++◌, All, any,
  all, is_empty, if◌then◌else◌, Act, pure, fail, ◌>>=◌, ◌≡◌, ◌↔◌, ◌⊎◌, refl, arith,
}
use git_bamboo.Prelude.Text.{
  Text, codes, eq, len, first_is, is_ascii_control, is_ascii_hexdigit, Debug,
}
use git_bamboo.Protocol.{Error, plain}
use git_bamboo.Cache.Store.{Redb}
use git_bamboo.Reader.{Repository, Reading, on_repo}

-- `parse_stage_revision`
unfoldable pub parse_stage_revision : Text → Option ℕ
parse_stage_revision revision =
    if eq revision (codes ":1")
    then some 1
    else if eq revision (codes ":2")
    then some 2
    else if eq revision (codes ":3")
    then some 3
    else none

-- what `read_blob` refuses of a revision and of a path
unfoldable pub is_refused : Text → Bool
is_refused t = is_empty t || first_is b'-' t || any is_ascii_control t

abbrev pub or_empty : Option Text → Text
or_empty none = []
or_empty (some t) = t

invalid_revision : Debug → Text → Text
invalid_revision d revision = codes "invalid revision: " ++ d.str revision

invalid_path : Debug → Text → Text
invalid_path d path = codes "invalid path: " ++ d.str path

module _ (p : Repository) (r : Redb) where
  abbrev blob_of : Option ℕ → Text → Text → Act p.World Error (Option Text)
  blob_of (some stage) revision path = p.staged_blob stage path
  blob_of none revision path = p.blob_at revision path

  -- an absent path, or an absent stage, is an empty text
  unfoldable pub read_blob : Text → Text → Act (Reading p r) Error Text
  unfolding invalid_revision invalid_path
  read_blob revision path =
      if is_refused revision
      then fail (plain (invalid_revision p.debug revision))
      else if is_refused path
      then fail (plain (invalid_path p.debug path))
      else (do
        blob ← on_repo p r (blob_of (parse_stage_revision revision) revision path)
        pure (or_empty blob))

-- `is_valid_commit_id`; the loop is over bytes, of which those of a longer character are no digits
unfoldable pub is_valid_commit_id : Text → Bool
is_valid_commit_id id =
    leb 40 (len id)
    && leb (len id) 64
    && all (λ b. is_ascii_hexdigit b && not (leb b'A' b && leb b b'Z')) id

-- one of 0-9 and a-f
abbrev pub IsLowerHex : ℕ → Type 0
IsLowerHex b = ((b'0' ≤ b) × (b ≤ b'9')) ⊎ ((b'a' ≤ b) × (b ≤ b'f'))

IsLowerHex-iff :
    (b : ℕ) → ((is_ascii_hexdigit b && not (leb b'A' b && leb b b'Z')) ≡ true) ↔ IsLowerHex b
IsLowerHex-iff b = ground arith

all_iff :
    {P : ℕ → Type 0} (f : ℕ → Bool) (t : Text)
    → ((b : ℕ) → (f b ≡ true) ↔ P b)
    → (all f t ≡ true) ↔ All P t
all_iff f [] k = (λ h. tt, λ v. refl)
all_iff f (b ∷ t) k = (
  λ h. let (x, y) = and-true (f b) (all f t) h in ((k b).0 x, (all_iff f t k).0 y),
  λ (x, y). ground (arith, (k b).1 x, (all_iff f t k).1 y),
)

and3-true : (a b c : Bool) → (a && b && c) ≡ true → (a ≡ true) × (b ≡ true) × (c ≡ true)
and3-true a b c h = ground arith

-- Exactly the texts of 40 to 64 bytes from the digits and the letters a to f are accepted as commit
-- ids.
is_valid_commit_id_iff :
    (id : Text)
    → (is_valid_commit_id id ≡ true) ↔ ((40 ≤ len id) × (len id ≤ 64) × All IsLowerHex id)
unfolding is_valid_commit_id
is_valid_commit_id_iff id =
    let digits =
      all_iff (λ b. is_ascii_hexdigit b && not (leb b'A' b && leb b b'Z')) id IsLowerHex-iff in
    (
      λ h.
          let (i, j, l) = and3-true (leb 40 (len id)) (leb (len id) 64) _ h in
          (ground arith, ground arith, digits.0 l),
      λ (x, y, z). let q = digits.1 z in ground arith,
    )
