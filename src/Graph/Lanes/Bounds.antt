-- ===== src/Graph/Lanes/Bounds.antt =====
-- How many lanes the sweep of crates/engine/src/gix_read.rs uses.
use git_bamboo.Prelude.{
  ℕ, ◌+◌, ◌-◌, ◌≤◌, ◌<◌, leb, Bool-cases, Option, none, some, List, [], ◌∷◌, length, length-append,
  length-set, set, All, All-mono, ◌≡◌, refl, arith, inl, inr,
}
use git_bamboo.Prelude.Maps.{Map, get, insert}
use git_bamboo.Prelude.Text.{Text, eq}
use git_bamboo.Protocol.{Commit}
use git_bamboo.Graph.Lanes.{
  Children, Lanes, Chosen, max_lanes, behind, take_free, push_lane, found_or_push, or_zero,
  known_lane, child_lanes, sort_in, sort, free_all, leftmost, choose_lane, sweep, assign_lanes,
  children_of,
}

-- at most `n` lanes, and no more than a `u16` counts
abbrev Narrow : Lanes → ℕ → Type 0
Narrow lanes n = (length lanes ≤ n) × (length lanes ≤ max_lanes)

-- a lane of these, or lane 0
abbrev OfLane : ℕ → Lanes → Type 0
OfLane l lanes = l ≤ length lanes - 1

-- what a choice leaves
abbrev Chooses : Lanes → Chosen → Type 0
Chooses lanes (l, lanes') =
    (length lanes ≤ length lanes')
    × (length lanes' ≤ length lanes + 1)
    × (length lanes' ≤ max_lanes)
    × OfLane l lanes'

-- what a search for a free lane finds
abbrev Found : Lanes → Option Chosen → Type 0
Found lanes none = Unit
Found lanes (some (l, lanes')) = (length lanes' ≡ length lanes) × (l < length lanes)

behind-Found :
    (slot : Option Text) (lanes : Lanes) (o : Option Chosen)
    → Found lanes o
    → Found (slot ∷ lanes) (behind slot o)
behind-Found slot lanes none h = tt
behind-Found slot lanes (some (l, lanes')) (e, h) = (omega arith, omega arith)

take_free-Found : (id : Text) (lanes : Lanes) → Found lanes (take_free id lanes)
unfolding take_free
take_free-Found id [] = tt
take_free-Found id (none ∷ lanes) = (refl, omega arith)
take_free-Found id (some q ∷ lanes) =
    behind-Found (some q) lanes (take_free id lanes) (take_free-Found id lanes)

push_lane-Chooses :
    (id : Text) (lanes : Lanes) → length lanes ≤ max_lanes → Chooses lanes (push_lane id lanes)
unfolding push_lane
push_lane-Chooses id lanes h = ground (arith, length-append lanes (some id ∷ []))

length-free_all : (ls : List ℕ) (lanes : Lanes) → length (free_all ls lanes) ≡ length lanes
length-free_all [] lanes = refl
length-free_all (l ∷ ls) lanes =
    ground (arith, length-free_all ls (set lanes l none), length-set lanes l none)

found_or_push-Chooses :
    (id : Text) (lanes : Lanes) (o : Option Chosen)
    → length lanes ≤ max_lanes
    → Found lanes o
    → Chooses lanes (found_or_push id lanes o)
found_or_push-Chooses id lanes none h f = push_lane-Chooses id lanes h
found_or_push-Chooses id lanes (some (l, lanes')) h (e, f) = ground arith

leftmost-Chooses :
    (id : Text) (lanes : Lanes) (ls : List ℕ)
    → length lanes ≤ max_lanes
    → All (λ l. OfLane l lanes) ls
    → Chooses lanes (leftmost id lanes ls)
leftmost-Chooses id lanes [] h v = push_lane-Chooses id lanes h
leftmost-Chooses id lanes (l ∷ ls) h v =
    ground (arith, length-free_all ls (set lanes l (some id)), length-set lanes l (some id))

-- every lane in the map is one of these
abbrev Known : Map ℕ → Lanes → Type 0
Known commit_lanes lanes = All (λ e. OfLane e.1 lanes) commit_lanes

-- of a lane that may be there
abbrev OfOption : Option ℕ → Lanes → Type 0
OfOption none lanes = Unit
OfOption (some l) lanes = OfLane l lanes

get-OfOption : (q : Text) (m : Map ℕ) (lanes : Lanes) → Known m lanes → OfOption (get q m) lanes
unfolding get
get-OfOption q [] lanes v = tt
get-OfOption q ((k, l) ∷ m) lanes (h, v) = elim (Bool-cases (eq q k)) [
  | inl y ↦ rw y h
  | inr n ↦ rw n (get-OfOption q m lanes v)
]

or_zero-OfLane : (o : Option ℕ) (lanes : Lanes) → OfOption o lanes → OfLane (or_zero o) lanes
or_zero-OfLane none lanes h = omega arith
or_zero-OfLane (some l) lanes h = h

known_lane-All :
    (o : Option ℕ) (lanes : Lanes) (ls : List ℕ)
    → OfOption o lanes
    → All (λ l. OfLane l lanes) ls
    → All (λ l. OfLane l lanes) (known_lane o ls)
known_lane-All none lanes ls h v = v
known_lane-All (some l) lanes ls h v = (h, v)

child_lanes-All :
    (m : Map ℕ) (lanes : Lanes) (cs : List Text)
    → Known m lanes
    → All (λ l. OfLane l lanes) (child_lanes m cs)
unfolding child_lanes
child_lanes-All m lanes [] v = tt
child_lanes-All m lanes (c ∷ cs) v =
    known_lane-All (get c m) lanes (child_lanes m cs) (get-OfOption c m lanes v)
      (child_lanes-All m lanes cs v)

sort_in-All : (P : ℕ → Type 0) (l : ℕ) (ls : List ℕ) → P l → All P ls → All P (sort_in l ls)
sort_in-All P l [] p v = (p, tt)
sort_in-All P l (k ∷ ks) p (q, v) = elim (Bool-cases (leb l k)) [
  | inl y ↦ rw y (p, (q, v))
  | inr n ↦ rw n (q, sort_in-All P l ks p v)
]

pub sort-All : (P : ℕ → Type 0) (ls : List ℕ) → All P ls → All P (sort ls)
unfolding sort
sort-All P [] v = tt
sort-All P (l ∷ ls) (p, v) = sort_in-All P l (sort ls) p (sort-All P ls v)

choose_lane-Chooses :
    (id : Text) (cs : List Text) (m : Map ℕ) (lanes : Lanes)
    → length lanes ≤ max_lanes
    → Known m lanes
    → Chooses lanes (choose_lane id cs m lanes)
unfolding choose_lane
choose_lane-Chooses id [] m lanes h v =
    found_or_push-Chooses id lanes (take_free id lanes) h (take_free-Found id lanes)
choose_lane-Chooses id (c ∷ []) m lanes h v = ground (
  arith,
  length-set lanes (or_zero (get c m)) (some id),
  or_zero-OfLane (get c m) lanes (get-OfOption c m lanes v),
)
choose_lane-Chooses id (c ∷ d ∷ cs) m lanes h v =
    leftmost-Chooses id lanes (sort (child_lanes m (c ∷ d ∷ cs))) h (
      sort-All (λ l. OfLane l lanes) (child_lanes m (c ∷ d ∷ cs))
        (child_lanes-All m lanes (c ∷ d ∷ cs) v))

Known-mono :
    (m : Map ℕ) (lanes lanes' : Lanes)
    → length lanes ≤ length lanes'
    → Known m lanes
    → Known m lanes'
Known-mono m lanes lanes' h v = All-mono m (λ e p. omega arith) v

sweep-bounds :
    (children : Children) (commits : List Commit) (m : Map ℕ) (lanes : Lanes) (n : ℕ)
    → length lanes + length commits ≤ n
    → length lanes ≤ max_lanes
    → Known m lanes
    → All (λ c. (c.lane ≤ n - 1) × (c.lane < max_lanes)) (sweep children commits m lanes)
unfolding sweep insert
sweep-bounds children [] m lanes n h b v = tt
sweep-bounds children (c ∷ commits) m lanes n h b v =
    let (p, q, r, s) = choose_lane-Chooses c.id (children c.id) m lanes b v in
    let (l, lanes') = choose_lane c.id (children c.id) m lanes in
    (
      (omega arith, omega arith),
      sweep-bounds children commits ((c.id, l) ∷ m) lanes' n (omega arith) r
          (s, Known-mono m lanes lanes' p v),
    )

-- Every lane that a page's commits get is below the number of the commits, or 0, and is below 65535.
pub assign_lanes-bounds :
    (commits : List Commit)
    → All (λ c. (c.lane ≤ length commits - 1) × (c.lane < max_lanes)) (assign_lanes commits)
unfolding assign_lanes
assign_lanes-bounds commits =
    sweep-bounds (children_of commits) commits [] [] (length commits) (omega arith) (omega arith) tt
