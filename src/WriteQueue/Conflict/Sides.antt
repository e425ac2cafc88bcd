-- ===== src/WriteQueue/Conflict/Sides.antt =====
-- Which blob a resolution takes, in crates/engine/src/write_queue.rs, by what git documents of the
-- index: an unmerged path has stage 2 if our side has content, and stage 3 if theirs has.
use mathlib.Core.Option.{some-injective}
use git_bamboo.Prelude.{
  Option, some, ◌≡◌, ◌↔◌, ◌⊎◌, inl, inr, ap, ◌∙◌, if◌then◌else◌, refl, Bool-cases,
}
use git_bamboo.Prelude.Text.{Text, codes, eq, eq_iff}
use git_bamboo.Protocol.{
  ConflictKind, both_deleted, added_by_us, deleted_by_them, added_by_them, deleted_by_us,
  both_added, both_modified,
}
use git_bamboo.WriteQueue.Conflict.{porcelain_conflict_kind}

-- the two letters of git's status, by its manual
abbrev pub letters : ConflictKind → Text
letters both_deleted = codes "DD"
letters added_by_us = codes "AU"
letters deleted_by_them = codes "UD"
letters added_by_them = codes "UA"
letters deleted_by_us = codes "DU"
letters both_added = codes "AA"
letters both_modified = codes "UU"

writes : (k : ConflictKind) → porcelain_conflict_kind (letters k) ≡ some k
unfolding porcelain_conflict_kind eq
writes both_deleted = refl
writes added_by_us = refl
writes deleted_by_them = refl
writes added_by_them = refl
writes deleted_by_us = refl
writes both_added = refl
writes both_modified = refl

-- one test of the chain
tested :
    {A : Type 0} (xy t : Text) (a b : A) (rest : Option A)
    → (if eq xy t then some a else rest) ≡ some b
    → ((xy ≡ t) × (a ≡ b)) ⊎ (rest ≡ some b)
tested xy t a b rest e = elim (Bool-cases (eq xy t)) [
  | inl hit ↦ inl ((eq_iff xy t).0 hit, some-injective _ _ (rw hit at e))
  | inr miss ↦ inr (rw miss at e)
]

reads : (xy : Text) (k : ConflictKind) → porcelain_conflict_kind xy ≡ some k → xy ≡ letters k
unfolding porcelain_conflict_kind
reads xy k e = link both_deleted e λ e. link added_by_us e λ e. link deleted_by_them e λ e.
    link added_by_them e
      λ e. link deleted_by_us e λ e. link both_added e λ e. link both_modified e λ e. absurd (cc e)
  where
    link :
        (j : ConflictKind) {rest : Option ConflictKind}
        → (if eq xy (letters j) then some j else rest) ≡ some k
        → (rest ≡ some k → xy ≡ letters k)
        → xy ≡ letters k
    link j {rest} e later = elim (tested xy (letters j) j k rest e) [
      | inl (here, same) ↦ here ∙ ap letters same
      | inr e' ↦ later e'
    ]

-- A status code is taken for a conflict of a kind exactly if it is that kind's two letters.
kind_iff : (xy : Text) (k : ConflictKind) → (porcelain_conflict_kind xy ≡ some k) ↔ (xy ≡ letters k)
kind_iff xy k = (reads xy k, λ e. rw e (writes k))
