-- ===== src/Undo/Rollback/Maps.antt =====
-- The refs that `read_snapshot` of crates/engine/src/undo.rs reads: each name once, and a loose ref
-- before a packed one.
use mathlib.Core.Path.{subst}
use git_bamboo.Prelude.{
  Bool, true, false, not, ◌&&◌, Option, none, some, List, [], ◌∷◌, is_some, if◌then◌else◌, ltb, ◌≡◌,
  refl, ap, ◌∙◌, sym, Bool-cases, inl, inr, ok, err, ok_injective, and_then-eq-ok, and-true, arith,
}
use git_bamboo.Prelude.Text.{Text, codes, eq, eq_iff, trim, len, starts_with}
use git_bamboo.Host.{DirEntry, unreadable, not_file, file, Host}
use git_bamboo.Undo.Disk.{Refs, lookup, insert}
use git_bamboo.Undo.Snapshots.{
  read_loose, packed_line, merge_packed, merge_lines, packed_lines, read_refs,
}
use git_bamboo.Undo.Rollback.Script.{IsMap}

lookup-insert :
    (n v m : Text) (refs : Refs)
    → lookup m (insert n v refs) ≡ (if eq n m then some v else lookup m refs)
unfolding lookup insert
lookup-insert n v m [] = refl
lookup-insert n v m ((k, w) ∷ refs) = elim (Bool-cases (eq k n)) [
  | inl hit ↦ rw hit (same (eq n m) (eq k m) (ap (λ t. eq t m) (sym ((eq_iff k n).0 hit))))
  | inr miss ↦ rw miss (rw (lookup-insert n v m refs) (swap (eq k m) (eq n m) (apart miss)))
]
  where
    same :
        (a b : Bool)
        → a ≡ b
        → (if a then some v else lookup m refs)
          ≡ (if a then some v else (if b then some w else lookup m refs))
    same true b e = refl
    same false false e = refl
    same false true e = cc e

    apart : eq k n ≡ false → eq k m ≡ true → eq n m ≡ false
    apart miss here = ground (arith, eq_iff k n, eq_iff k m, eq_iff n m)

    swap :
        (a b : Bool)
        → (a ≡ true → b ≡ false)
        → (if a then some w else (if b then some v else lookup m refs))
          ≡ (if b then some v else (if a then some w else lookup m refs))
    swap true true e = cc (e refl)
    swap true false e = refl
    swap false true e = refl
    swap false false e = refl

-- nothing is lost of what is looked up under another name
insert-IsMap : (n v : Text) (refs : Refs) → IsMap refs → IsMap (insert n v refs)
unfolding lookup insert
insert-IsMap n v [] m = (refl, tt)
insert-IsMap n v ((k, w) ∷ refs) m = elim (Bool-cases (eq k n)) [
  | inl hit ↦ rw hit (rw (sym ((eq_iff k n).0 hit)) m.0, m.1)
  | inr miss ↦
      let absent : lookup k (insert n v refs) ≡ none =
        lookup-insert n v k refs ∙ rw (other miss) m.0 in
      rw miss (absent, insert-IsMap n v refs m.1)
]
  where
    other : eq k n ≡ false → eq n k ≡ false
    other miss = ground (arith, eq_iff k n, eq_iff n k)

read_loose-IsMap :
    (prefix : Text) (ds : List DirEntry) (refs : Refs) {out : Refs}
    → IsMap refs
    → read_loose prefix ds refs ≡ ok out
    → IsMap out
unfolding read_loose
read_loose-IsMap prefix [] refs {out} m e = subst IsMap (ok_injective e) m
read_loose-IsMap prefix (unreadable msg ∷ ds) refs m e = absurd (cc e)
read_loose-IsMap prefix (not_file ∷ ds) refs m e = read_loose-IsMap prefix ds refs m e
read_loose-IsMap prefix (file rel (err msg) ∷ ds) refs m e = absurd (cc e)
read_loose-IsMap prefix (file rel (ok content) ∷ ds) refs m e =
    read_loose-IsMap prefix ds _ (taken (ltb (len (trim content)) 40) _ _) e
  where
    taken : (b : Bool) (n v : Text) → IsMap (if b then refs else insert n v refs)
    taken true n v = m
    taken false n v = insert-IsMap n v refs m

merge_packed-IsMap :
    (l : Option (Text × Text)) (refs : Refs) → IsMap refs → IsMap (merge_packed l refs)
unfolding merge_packed
merge_packed-IsMap none refs m = m
merge_packed-IsMap (some (sha, name)) refs m =
    taken (starts_with (codes "refs/heads/") name && not (is_some (lookup name refs)))
  where
    taken : (b : Bool) → IsMap (if b then insert name sha refs else refs)
    taken true = insert-IsMap name sha refs m
    taken false = m

merge_lines-IsMap : (ls : List Text) (refs : Refs) → IsMap refs → IsMap (merge_lines ls refs)
unfolding merge_lines
merge_lines-IsMap [] refs m = m
merge_lines-IsMap (l ∷ ls) refs m =
    merge_lines-IsMap ls _ (merge_packed-IsMap (packed_line l) refs m)

-- The refs of a snapshot that is read have each name once, whatever files the repository has.
pub read_refs-IsMap :
    (h : Host) (w : h.World) {refs : Refs} {stash : Option Text}
    → read_refs h w ≡ ok (refs, stash)
    → IsMap refs
unfolding read_refs
read_refs-IsMap h w {refs} {stash} e =
    let (heads, found, e1) =
      and_then-eq-ok (read_loose (codes "refs/heads") (h.loose_heads w) []) _ e in
    let (all_refs, more, e2) =
      and_then-eq-ok (read_loose (codes "refs") (h.loose_refs w) []) _ e1 in
    subst IsMap (ap (λ (p : Refs × Option Text). p.0) (ok_injective e2)) (
      merge_lines-IsMap (packed_lines (h.packed_refs w)) heads
        (read_loose-IsMap (codes "refs/heads") (h.loose_heads w) [] tt found))

merge_packed_loose :
    (l : Option (Text × Text)) (refs : Refs) (name : Text) {sha : Text}
    → lookup name refs ≡ some sha
    → lookup name (merge_packed l refs) ≡ some sha
unfolding merge_packed
merge_packed_loose none refs name e = e
merge_packed_loose (some (other, n)) refs name {sha} e =
    elim (Bool-cases (starts_with (codes "refs/heads/") n && not (is_some (lookup n refs)))) [
      | inl fresh ↦ rw fresh (
          lookup-insert n other name refs
          ∙ rw (apart (and-true (starts_with (codes "refs/heads/") n) _ fresh).1) e)
      | inr known ↦ rw known e
    ]
  where
    apart : not (is_some (lookup n refs)) ≡ true → eq n name ≡ false
    apart free = elim (Bool-cases (eq n name)) [
      | inl hit ↦
          let there : lookup n refs ≡ some sha = rw ((eq_iff n name).0 hit) e in
          absurd (cc (rw there at free))
      | inr miss ↦ miss
    ]

-- A packed line never replaces the value of a ref that was read from a file of its own.
merge_lines_loose :
    (ls : List Text) (refs : Refs) (name : Text) {sha : Text}
    → lookup name refs ≡ some sha
    → lookup name (merge_lines ls refs) ≡ some sha
unfolding merge_lines
merge_lines_loose [] refs name e = e
merge_lines_loose (l ∷ ls) refs name e =
    merge_lines_loose ls (merge_packed (packed_line l) refs) name
      (merge_packed_loose (packed_line l) refs name e)
