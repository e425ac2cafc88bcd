-- ===== src/Undo/Journal/Truncation.antt =====
-- The journal of crates/engine/src/undo.rs after a truncation, and its order.
use git_bamboo.Prelude.{
  ℕ, ◌≤◌, Bool, true, List, [], ◌∷◌, map, keep, leb, All, ◌≡◌, refl, ap, ◌∙◌, arith, Option, none,
  some, pure, fail, Post, Post-bind, Result, ok, err, Bool-cases, inl, inr,
}
use git_bamboo.Host.{DiskOutcome, written, refused, cut_short, Host, Run}
use git_bamboo.Prelude.Text.{Text}
use git_bamboo.Protocol.{Fault}
use git_bamboo.Undo.Disk.{Transaction, Line, entry, journal_file, journal_tmp}
use git_bamboo.Undo.Journal.{
  entries, insert_by_id, sort_by_id, transactions, before, truncated, settle, read_fault,
  read_journal, write_tmp, replace_journal, truncate_journal_at,
}

-- the ids do not decrease
abbrev pub IsSorted : List Transaction → Type 0
IsSorted [] = Unit
IsSorted (t ∷ ts) = All (λ u. t.id ≤ u.id) ts × IsSorted ts

insert-All :
    (n : ℕ) (t : Transaction) (ts : List Transaction)
    → n ≤ t.id
    → All (λ (u : Transaction). n ≤ u.id) ts
    → All (λ (u : Transaction). n ≤ u.id) (insert_by_id t ts)
unfolding insert_by_id
insert-All n t [] h v = (h, tt)
insert-All n t (u ∷ us) h v = elim (Bool-cases (leb t.id u.id)) [
  | inl hit ↦ rw hit (h, v)
  | inr miss ↦ rw miss (v.0, insert-All n t us h v.1)
]

raise :
    (n m : ℕ) (ts : List Transaction)
    → n ≤ m
    → All (λ (u : Transaction). m ≤ u.id) ts
    → All (λ (u : Transaction). n ≤ u.id) ts
raise n m [] h v = tt
raise n m (t ∷ ts) h v = (omega (arith, v.0), raise n m ts h v.1)

insert-IsSorted :
    (t : Transaction) (ts : List Transaction) → IsSorted ts → IsSorted (insert_by_id t ts)
unfolding insert_by_id
insert-IsSorted t [] s = (tt, tt)
insert-IsSorted t (u ∷ us) s = elim (Bool-cases (leb t.id u.id)) [
  | inl hit ↦ rw hit ((ground arith, raise t.id u.id us (ground arith) s.0), s)
  | inr miss ↦ rw miss (insert-All u.id t us (ground arith) s.0, insert-IsSorted t us s.1)
]

pub sort-IsSorted : (ts : List Transaction) → IsSorted (sort_by_id ts)
unfolding sort_by_id
sort-IsSorted [] = tt
sort-IsSorted (t ∷ ts) = insert-IsSorted t (sort_by_id ts) (sort-IsSorted ts)

keep-All :
    (p : Transaction → Bool) (n : ℕ) (ts : List Transaction)
    → All (λ (u : Transaction). n ≤ u.id) ts
    → All (λ (u : Transaction). n ≤ u.id) (keep p ts)
keep-All p n [] v = tt
keep-All p n (t ∷ ts) v = elim (Bool-cases (p t)) [
  | inl hit ↦ rw hit (v.0, keep-All p n ts v.1)
  | inr miss ↦ rw miss (keep-All p n ts v.1)
]

keep-IsSorted :
    (p : Transaction → Bool) (ts : List Transaction) → IsSorted ts → IsSorted (keep p ts)
keep-IsSorted p [] s = tt
keep-IsSorted p (t ∷ ts) s = elim (Bool-cases (p t)) [
  | inl hit ↦ rw hit (keep-All p t.id ts s.0, keep-IsSorted p ts s.1)
  | inr miss ↦ rw miss (keep-IsSorted p ts s.1)
]

insert_front :
    (t : Transaction) (ts : List Transaction)
    → All (λ (u : Transaction). t.id ≤ u.id) ts
    → insert_by_id t ts ≡ t ∷ ts
unfolding insert_by_id
insert_front t [] v = refl
insert_front t (u ∷ us) v = let hit : leb t.id u.id ≡ true = ground (arith, v.0) in rw hit refl

sort-sorted : (ts : List Transaction) → IsSorted ts → sort_by_id ts ≡ ts
unfolding sort_by_id
sort-sorted [] s = refl
sort-sorted (t ∷ ts) s = ap (insert_by_id t) (sort-sorted ts s.1) ∙ insert_front t ts s.0

pub entries-map : (ts : List Transaction) → entries (map entry ts) ≡ ts
unfolding entries
entries-map [] = refl
entries-map (t ∷ ts) = ap (λ us. t ∷ us) (entries-map ts)

transactions-truncated :
    (id : ℕ) (ls : List Line) → transactions (truncated id ls) ≡ keep (before id) (transactions ls)
unfolding transactions truncated
transactions-truncated id ls =
    ap sort_by_id (entries-map (keep (before id) (transactions ls)))
    ∙ sort-sorted _ (keep-IsSorted (before id) (transactions ls) (sort-IsSorted (entries ls)))

-- the journal is the one of `r`
abbrev Unchanged : {h : Host} {A : Type 0} → Run h → Result Fault A → Run h → Type 0
Unchanged r x s = s.undo.journal ≡ r.undo.journal

abbrev HasRead : {h : Host} → Run h → Result Fault (List Transaction) → Run h → Type 0
HasRead r (ok ts) s = (ts ≡ transactions r.undo.journal) × (s.undo.journal ≡ r.undo.journal)
HasRead r (err e) s = s.undo.journal ≡ r.undo.journal

abbrev StillRead : {h : Host} → Run h → List Transaction → Result Fault (Unit {0}) → Run h → Type 0
StillRead r ts (ok u) s = (ts ≡ transactions r.undo.journal) × (s.undo.journal ≡ r.undo.journal)
StillRead r ts (err e) s = s.undo.journal ≡ r.undo.journal

-- with success, the transactions before `id` are left; without, the journal of `r`
abbrev pub IsTruncation : {h : Host} {A : Type 0} → ℕ → Run h → Result Fault A → Run h → Type 0
IsTruncation id r (ok a) s =
    transactions s.undo.journal ≡ keep (before id) (transactions r.undo.journal)
IsTruncation id r (err e) s = s.undo.journal ≡ r.undo.journal

module _ (h : Host) (id : ℕ) (r : Run h) where
  read_fault-HasRead :
      (o : Option Text) (s : Run h)
      → s.undo.journal ≡ r.undo.journal
      → let m = read_fault o (pure (transactions s.undo.journal)) s in HasRead r m.0 m.1
  unfolding pure fail
  read_fault-HasRead none s e = (ap transactions e, e)
  read_fault-HasRead (some msg) s e = e

  read-HasRead : Post (λ s. s.undo.journal ≡ r.undo.journal) (read_journal h) (HasRead r)
  unfolding read_journal
  read-HasRead = record { at = λ s e. read_fault-HasRead (h.disk_read journal_file s.world) s e }

  settle-IsTruncation :
      (o : DiskOutcome) (s : Run h) (new old : List Line)
      → transactions new ≡ keep (before id) (transactions r.undo.journal)
      → old ≡ r.undo.journal
      → (w : h.World)
      → let x = settle o old new old in
        IsTruncation id r x.0 (record s { world = w; undo = record s.undo { journal = x.1 } })
  settle-IsTruncation written s new old e k w = e
  settle-IsTruncation (refused f) s new old e k w = k
  settle-IsTruncation (cut_short f) s new old e k w = k

  -- the temporary file leaves the journal alone
  settle-HasRead :
      (ts : List Transaction) (o : DiskOutcome) (s : Run h)
      → HasRead r (ok ts) s
      → (w : h.World) → StillRead r ts (settle o tt tt tt).0 (record s { world = w })
  settle-HasRead ts written s q w = q
  settle-HasRead ts (refused f) s q w = q.1
  settle-HasRead ts (cut_short f) s q w = q.1

  tmp-StillRead : (ts : List Transaction) → Post (HasRead r (ok ts)) (write_tmp h) (StillRead r ts)
  unfolding write_tmp
  tmp-StillRead ts = record {
    at = λ s q.
        settle-HasRead ts (h.disk_write journal_tmp s.world).0 s q
          (h.disk_write journal_tmp s.world).1;
  }

  rename-IsTruncation :
      (ts : List Transaction)
      → Post
          (HasRead r (ok ts))
          (λ s. replace_journal h journal_file (map entry (keep (before id) ts)) s.undo.journal s)
          (IsTruncation id r)
  unfolding replace_journal truncated
  rename-IsTruncation ts = record {
    at = λ s q.
        settle-IsTruncation (h.disk_write journal_file s.world).0 s
          (map entry (keep (before id) ts)) s.undo.journal
          (rw q.0 (transactions-truncated id r.undo.journal)) q.1
          (h.disk_write journal_file s.world).1;
  }

  pub truncate-Truncates :
      Post (λ s. s.undo.journal ≡ r.undo.journal) (truncate_journal_at h id) (IsTruncation id r)
  unfolding truncate_journal_at
  truncate-Truncates =
      Post-bind (read_journal h) _ read-HasRead
        (λ ts.
          Post-bind (write_tmp h) _ (tmp-StillRead ts) (λ u. rename-IsTruncation ts) (λ e s q. q))
        (λ e s q. q)

  -- A truncation that succeeds leaves a journal that reads as exactly the transactions with a smaller
  -- id, in the order in which they were read before; one that fails, in whatever way, leaves the
  -- journal file as it was.
  pub truncate-IsTruncation :
      IsTruncation id r (truncate_journal_at h id r).0 (truncate_journal_at h id r).1
  truncate-IsTruncation = truncate-Truncates.at r refl
