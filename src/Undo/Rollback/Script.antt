-- ===== src/Undo/Rollback/Script.antt =====
-- What the script of `restore_snapshot` in crates/engine/src/undo.rs does to the refs, by git's
-- documentation of `update-ref --stdin`: either every guard holds and every line takes effect, in
-- order, or nothing changes.
use git_bamboo.Prelude.{
  Bool, true, false, not, ◌&&◌, Option, none, some, List, [], ◌∷◌, ◌++◌, is_some, if◌then◌else◌,
  ◌≡◌, refl, ap, ◌∙◌, sym, Bool-cases, Option-cases, inl, inr, ok, ok_injective, and_then-eq-ok,
}
use git_bamboo.Prelude.Text.{Text, eq, eq_iff}
use git_bamboo.Host.{Host}
use git_bamboo.WriteQueue.Validate.{validate_full_ref_name, validate_sha}
use git_bamboo.Undo.Disk.{Refs, lookup}
use git_bamboo.Undo.Rollback.{RefUpdate, update, delete, updates, deletions, script}

-- the value of each ref
abbrev pub View : Type 0
View = Text → Option Text

abbrev put : Text → Option Text → View → View
put n v view name = if eq n name then v else view name

-- every line in order
unfoldable pub applied : List RefUpdate → View → View
applied [] view = view
applied (update n new old ∷ us) view = applied us (put n (some new) view)
applied (delete n old ∷ us) view = applied us (put n none view)

-- the keys of a map: no name comes twice
abbrev pub IsMap : Refs → Type 0
IsMap [] = Unit
IsMap ((n, v) ∷ refs) = (lookup n refs ≡ none) × IsMap refs

abbrev pick : Option Text → Option Text → Option Text
pick (some t) other = some t
pick none other = other

applied-append :
    (us vs : List RefUpdate) (view : View) → applied (us ++ vs) view ≡ applied vs (applied us view)
unfolding applied
applied-append [] vs view = refl
applied-append (update n new old ∷ us) vs view = applied-append us vs (put n (some new) view)
applied-append (delete n old ∷ us) vs view = applied-append us vs (put n none view)

pick-put :
    (n t : Text) (refs : Refs) (view : View) (name : Text)
    → lookup n refs ≡ none
    → pick (lookup name refs) (put n (some t) view name)
      ≡ pick (lookup name ((n, t) ∷ refs)) (view name)
unfolding lookup
pick-put n t refs view name new = elim (Bool-cases (eq n name)) [
  | inl hit ↦
      let absent : lookup name refs ≡ none = rw (sym ((eq_iff n name).0 hit)) new in
      rw (hit, absent) refl
  | inr miss ↦ rw miss refl
]

-- the updates set every ref of the target, and no other
updates-applied :
    (h : Host) (current target : Refs) (view : View) (name : Text) {us : List RefUpdate}
    → IsMap target
    → updates h current target ≡ ok us
    → applied us view name ≡ pick (lookup name target) (view name)
unfolding updates applied lookup
updates-applied h current [] view name m e = rw (sym (ok_injective e)) refl
updates-applied h current ((n, t) ∷ refs) view name m e =
    let (_, _, e1) = and_then-eq-ok (validate_full_ref_name h.debug n) _ e in
    let (_, _, e2) = and_then-eq-ok (validate_sha h.debug t) _ e1 in
    let (us', found, e3) = and_then-eq-ok (updates h current refs) _ e2 in
    let later = updates-applied h current refs (put n (some t) view) name m.1 found in
    rw (sym (ok_injective e3)) (later ∙ pick-put n t refs view name m.0)

-- the value behind the deletions of `refs`
abbrev cut : Refs → Refs → View → Text → Option Text
cut target refs view name =
    if is_some (lookup name refs) && not (is_some (lookup name target)) then none else view name

-- a ref of the target is not deleted
cut_kept :
    (n old : Text) (target refs : Refs) (view : View) (name : Text) {t : Text}
    → lookup n target ≡ some t
    → cut target refs view name ≡ cut target ((n, old) ∷ refs) view name
unfolding lookup
cut_kept n old target refs view name {t} there = elim (Bool-cases (eq n name)) [
  | inl hit ↦
      let here : lookup name target ≡ some t = rw (sym ((eq_iff n name).0 hit)) there in
      rw (hit, here) (spare (is_some (lookup name refs)) (view name))
  | inr miss ↦ rw miss refl
]
  where
    spare : (b : Bool) (v : Option Text) → (if b && false then none else v) ≡ v
    spare true v = refl
    spare false v = refl

cut-put :
    (n old : Text) (target refs : Refs) (view : View) (name : Text)
    → lookup n target ≡ none
    → cut target refs (put n none view) name ≡ cut target ((n, old) ∷ refs) view name
unfolding lookup
cut-put n old target refs view name gone = elim (Bool-cases (eq n name)) [
  | inl hit ↦
      let here : lookup name target ≡ none = rw (sym ((eq_iff n name).0 hit)) gone in
      rw (hit, here) (same (is_some (lookup name refs) && true))
  | inr miss ↦ rw miss refl
]
  where
    same : (b : Bool) → ◌≡◌ {A = Option Text} (if b then none else none) none
    same true = refl
    same false = refl

-- a deletion for each ref that the target lacks, and for no other
deletions-applied :
    (h : Host) (target refs : Refs) (view : View) (name : Text) {ds : List RefUpdate}
    → deletions h target refs ≡ ok ds
    → applied ds view name ≡ (
        if is_some (lookup name refs) && not (is_some (lookup name target))
        then none
        else view name)
unfolding deletions applied lookup
deletions-applied h target [] view name e = rw (sym (ok_injective e)) refl
deletions-applied h target ((n, old) ∷ refs) view name {ds} e =
    elim (Option-cases (lookup n target)) [
      | inr (t, there) ↦
          let e' : deletions h target refs ≡ ok ds = rw there at e in
          deletions-applied h target refs view name e' ∙ cut_kept n old target refs view name there
      | inl gone ↦
          let e' = rw gone at e in
          let (_, _, e1) = and_then-eq-ok (validate_full_ref_name h.debug n) _ e' in
          let (ds', more, e2) = and_then-eq-ok (deletions h target refs) _ e1 in
          rw (sym (ok_injective e2)) (
            deletions-applied h target refs (put n none view) name more
            ∙ cut-put n old target refs view name gone)
    ]

-- what a ref is behind both loops
both :
    (target current : Option Text)
    → (if is_some current && not (is_some target) then none else pick target current) ≡ target
both none none = refl
both none (some v) = refl
both (some t) none = refl
both (some t) (some v) = refl

-- If a script is made, for a target that has each name once, then its lines, taken in order on the
-- current refs, give each name exactly the value that it has in the target, and none if it has none
-- there.
pub script_restores :
    (h : Host) (current target : Refs) (name : Text) {us : List RefUpdate}
    → IsMap target
    → script h current target ≡ ok us
    → applied us (λ n. lookup n current) name ≡ lookup name target
unfolding script
script_restores h current target name m e =
    let (us', found, e1) = and_then-eq-ok (updates h current target) _ e in
    let (ds, more, e2) = and_then-eq-ok (deletions h target current) _ e1 in
    rw (sym (ok_injective e2)) (
      ap (λ v. v name) (applied-append us' ds (λ n. lookup n current))
      ∙ deletions-applied h target current (applied us' (λ n. lookup n current)) name more
      ∙ rw (updates-applied h current target (λ n. lookup n current) name m found)
          (both (lookup name target) (lookup name current)))
