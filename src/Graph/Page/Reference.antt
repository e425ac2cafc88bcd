-- ===== src/Graph/Page/Reference.antt =====
-- A page of crates/engine/src/gix_read.rs against the page of the whole history.
use Prim.Native.Nat.{min}
use git_bamboo.Prelude.{
  ℕ, zero, suc, ◌+◌, ◌-◌, ◌%◌, ◌^◌, ◌≤◌, ◌<◌, true, false, ltb, Bool-cases, Option, none, some,
  List, [], ◌∷◌, length, length-take, take, drop, any, ◌≡◌, refl, ap, ◌∙◌, arith, inl, inr,
}
use git_bamboo.Prelude.Text.{Text, eq, eq_iff}
use git_bamboo.Protocol.{Commit, GraphViewport}
use git_bamboo.Graph.Page.{
  preload_margin, page_end, later, position, at_anchor, start_from, page_start, page_of,
}

module _ {A : Type 0} where
  take-take : (n m : ℕ) (xs : List A) → n ≤ m → take n (take m xs) ≡ take n xs
  take-take zero m xs h = refl
  take-take (suc n) zero xs h = absurd (omega arith)
  take-take (suc n) (suc m) [] h = refl
  take-take (suc n) (suc m) (x ∷ xs) h = ap (◌∷◌ x) (take-take n m xs (omega arith))

  drop-take :
      (o n m : ℕ) (xs : List A) → o + n ≤ m → take n (drop o (take m xs)) ≡ take n (drop o xs)
  drop-take zero n m xs h = take-take n m xs (omega arith)
  drop-take (suc o) n zero xs h = absurd (omega arith)
  drop-take (suc o) n (suc m) [] h = refl
  drop-take (suc o) n (suc m) (x ∷ xs) h = drop-take o n m xs (omega arith)

page_start-offset :
    (v : GraphViewport) (commits : List Commit)
    → v.anchor_commit ≡ none
    → page_start v commits ≡ v.offset
unfolding page_start
page_start-offset v commits a = ap (λ o. start_from o v.offset commits) a

page_end-small :
    (v : GraphViewport)
    → v.offset + v.limit + preload_margin < 2 ^ 64
    → page_end v ≡ v.offset + v.limit + preload_margin
unfolding page_end
page_end-small v h = omega arith

more :
    (sum total n : ℕ)
    → n ≡ min (sum + preload_margin) total
    → sum + preload_margin < 2 ^ 64
    → ltb (sum % 2 ^ 64) n ≡ ltb sum total
more sum total n e h = ground arith

-- If no anchor is given and the offset, the limit and the margin together are below 2 ^ 64, the page
-- that is cut from the enumerated commits has exactly the rows of the whole history from the offset
-- on, as many as the limit, and says that there are more exactly if the history has more.
pub page_of-whole :
    (v : GraphViewport) (epoch : ℕ) (history : List Commit)
    → v.anchor_commit ≡ none
    → v.offset + v.limit + preload_margin < 2 ^ 64
    → ((page_of v epoch (take (page_end v) history)).commits ≡ take v.limit (drop v.offset history))
      × ((page_of v epoch (take (page_end v) history)).has_more
          ≡ ltb (v.offset + v.limit) (length history))
unfolding page_of
page_of-whole v epoch history a h =
    let rows = take (page_end v) history in
    let e = page_end-small v h in
    let n = length-take (page_end v) history ∙ ap (λ k. min k (length history)) e in
    rw (page_start-offset v rows a) (
      drop-take v.offset v.limit (page_end v) history (omega (arith, e)),
      more (v.offset + v.limit) (length history) (length rows) n h,
    )

-- A page never holds more commits than the limit.
pub page_of-limit :
    (v : GraphViewport) (epoch : ℕ) (commits : List Commit)
    → length (page_of v epoch commits).commits ≤ v.limit
unfolding page_of
page_of-limit v epoch commits =
    omega (arith, length-take v.limit (drop (page_start v commits) commits))

abbrev PositionOf : Text → List Commit → Option ℕ → Type 0
PositionOf anchor commits none = any (λ c. eq c.id anchor) commits ≡ false
PositionOf anchor commits (some i) =
    (c : Commit) × (cs : List Commit) × (drop i commits ≡ c ∷ cs)
    × (c.id ≡ anchor)
    × (i < length commits)

later-PositionOf :
    (anchor : Text) (c : Commit) (commits : List Commit) (o : Option ℕ)
    → eq c.id anchor ≡ false
    → PositionOf anchor commits o
    → PositionOf anchor (c ∷ commits) (later o)
later-PositionOf anchor c commits none n v = rw n v
later-PositionOf anchor c commits (some i) n (d, ds, e, f, h) = (d, ds, e, f, omega arith)

position-PositionOf :
    (anchor : Text) (commits : List Commit) → PositionOf anchor commits (position anchor commits)
unfolding position
position-PositionOf anchor [] = refl
position-PositionOf anchor (c ∷ commits) = elim (Bool-cases (eq c.id anchor)) [
  | inl y ↦ rw y (c, commits, refl, (eq_iff c.id anchor).0 y, omega arith)
  | inr n ↦ rw n (
      later-PositionOf anchor c commits (position anchor commits) n
        (position-PositionOf anchor commits))
]

-- where a page begins, by the position of its anchor
anchored :
    (anchor : Text) (offset limit : ℕ) (commits : List Commit) (o : Option ℕ)
    → PositionOf anchor commits o
    → any (λ c. eq c.id anchor) commits ≡ true
    → (c : Commit) × (cs : List Commit) × (take
          (suc limit)
          (drop (at_anchor o offset (length commits)) commits)
        ≡ c ∷ cs)
      × (c.id ≡ anchor)
anchored anchor offset limit commits none v h = cc
anchored anchor offset limit commits (some i) (c, cs, e, f, b) h =
    let m : min i (length commits - 1) ≡ i = omega arith in (c, take limit cs, rw m (rw e refl), f)

-- If the anchor is among the enumerated commits and the limit is not 0, the page begins with the
-- anchor, whatever offset is asked for.
page_of-anchor :
    (offset limit from epoch : ℕ) (anchor : Text) (commits : List Commit)
    → any (λ c. eq c.id anchor) commits ≡ true
    → (c : Commit) × (cs : List Commit) × ((page_of
          (record { offset = offset; limit = suc limit; anchor_commit = some anchor; epoch = from })
          epoch
          commits).commits
        ≡ c ∷ cs)
      × (c.id ≡ anchor)
unfolding page_of page_start
page_of-anchor offset limit from epoch anchor commits h =
    anchored anchor offset limit commits (position anchor commits)
      (position-PositionOf anchor commits) h
