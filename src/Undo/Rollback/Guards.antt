-- ===== src/Undo/Rollback/Guards.antt =====
-- The old values in the script of `restore_snapshot` in crates/engine/src/undo.rs, which git checks
-- before it changes anything.
use mathlib.Core.Path.{subst}
use git_bamboo.Prelude.{
  none, some, List, [], ◌∷◌, All, All-append, All-mono, ◌≡◌, refl, sym, Bool-cases, Option-cases,
  inl, inr, ok, ok_injective, and_then-eq-ok,
}
use git_bamboo.Prelude.Text.{Text, eq, eq_iff, eq_refl}
use git_bamboo.Host.{Host}
use git_bamboo.WriteQueue.Validate.{validate_full_ref_name, validate_sha}
use git_bamboo.Undo.Disk.{Refs, lookup}
use git_bamboo.Undo.Rollback.{RefUpdate, update, delete, or_null, updates, deletions, script}
use git_bamboo.Undo.Rollback.Script.{IsMap}

-- the old value that a line names is the current one, or forty zeros if there is none
abbrev pub IsGuarded : Refs → RefUpdate → Type 0
IsGuarded current (update n new old) = old ≡ or_null (lookup n current)
IsGuarded current (delete n old) = lookup n current ≡ some old

updates-IsGuarded :
    (h : Host) (current target : Refs) {us : List RefUpdate}
    → updates h current target ≡ ok us
    → All (IsGuarded current) us
unfolding updates
updates-IsGuarded h current [] e = subst (All (IsGuarded current)) (ok_injective e) tt
updates-IsGuarded h current ((n, t) ∷ refs) e =
    let (_, _, e1) = and_then-eq-ok (validate_full_ref_name h.debug n) _ e in
    let (_, _, e2) = and_then-eq-ok (validate_sha h.debug t) _ e1 in
    let (us', found, e3) = and_then-eq-ok (updates h current refs) _ e2 in
    subst (All (IsGuarded current)) (ok_injective e3) (refl, updates-IsGuarded h current refs found)

deletions-IsGuarded :
    (h : Host) (current target refs : Refs) {ds : List RefUpdate}
    → All (λ (e : Text × Text). lookup e.0 current ≡ some e.1) refs
    → deletions h target refs ≡ ok ds
    → All (IsGuarded current) ds
unfolding deletions
deletions-IsGuarded h current target [] v e = subst (All (IsGuarded current)) (ok_injective e) tt
deletions-IsGuarded h current target ((n, old) ∷ refs) {ds} v e =
    elim (Option-cases (lookup n target)) [
      | inr (t, there) ↦
          let e' : deletions h target refs ≡ ok ds = rw there at e in
          deletions-IsGuarded h current target refs v.1 e'
      | inl gone ↦
          let e' = rw gone at e in
          let (_, _, e1) = and_then-eq-ok (validate_full_ref_name h.debug n) _ e' in
          let (ds', more, e2) = and_then-eq-ok (deletions h target refs) _ e1 in
          subst (All (IsGuarded current)) (ok_injective e2)
            (v.0, deletions-IsGuarded h current target refs v.1 more)
    ]

-- an entry of a map is what is found under its name
found_behind :
    (n v : Text) (refs : Refs)
    → lookup n refs ≡ none
    → (e : Text × Text) → lookup e.0 refs ≡ some e.1
    → lookup e.0 ((n, v) ∷ refs) ≡ some e.1
unfolding lookup
found_behind n v refs new e there = elim (Bool-cases (eq n e.0)) [
  | inl hit ↦
      let gone : lookup e.0 refs ≡ none = rw (sym ((eq_iff n e.0).0 hit)) new in
      absurd (cc (gone, there))
  | inr miss ↦ rw miss there
]

entries_found :
    (refs : Refs) → IsMap refs → All (λ (e : Text × Text). lookup e.0 refs ≡ some e.1) refs
unfolding lookup
entries_found [] m = tt
entries_found ((n, v) ∷ refs) m =
    (rw (eq_refl n) refl, All-mono refs (found_behind n v refs m.0) (entries_found refs m.1))

-- If a script is made from current refs that have each name once, then every update names the current
-- value of its ref, or forty zeros if the ref does not exist, and every deletion names the current
-- value of a ref that exists.
pub script-IsGuarded :
    (h : Host) (current target : Refs) {us : List RefUpdate}
    → IsMap current
    → script h current target ≡ ok us
    → All (IsGuarded current) us
unfolding script
script-IsGuarded h current target m e =
    let (us', found, e1) = and_then-eq-ok (updates h current target) _ e in
    let (ds, more, e2) = and_then-eq-ok (deletions h target current) _ e1 in
    subst (All (IsGuarded current)) (ok_injective e2) (
      All-append (IsGuarded current) us' ds (updates-IsGuarded h current target found)
        (deletions-IsGuarded h current target current (entries_found current m) more))
