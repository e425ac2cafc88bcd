-- ===== src/Graph/Lanes.antt =====
-- The lanes of the commit graph in `read_graph_page` of crates/engine/src/gix_read.rs: the children
-- of each commit on the page, and the sweep that gives each commit a lane, newest first.
pub mod Bounds
pub mod Children
pub mod Tips
use git_bamboo.Prelude.{
  ℕ, zero, suc, ◌%◌, ◌^◌, Bool, true, false, ltb, leb, Option, none, some, List, [], ◌∷◌, ◌++◌,
  length, set, if◌then◌else◌,
}
use git_bamboo.Prelude.Maps.{Map, get, insert}
use git_bamboo.Prelude.Text.{Text, eq}
use git_bamboo.Protocol.{Commit}

-- the `children` map, absent entries being empty
abbrev pub Children : Type 0
Children = Text → List Text

-- `children.entry(parent_id).or_default().push(id)`
abbrev pub push_child : Text → Text → Children → Children
push_child parent_id id children q = if eq q parent_id then children q ++ id ∷ [] else children q

abbrev pub push_children : List Text → Text → Children → Children
push_children [] id children = children
push_children (p ∷ ps) id children = push_children ps id (push_child p id children)

-- the loop over the page's commits
unfoldable pub add_children : List Commit → Children → Children
add_children [] children = children
add_children (c ∷ cs) children = add_children cs (push_children c.parent_ids c.id children)

unfoldable pub children_of : List Commit → Children
unfolding add_children
children_of cs = add_children cs (λ q. [])

-- `u16::MAX as usize`
abbrev pub max_lanes : ℕ
max_lanes = 65535

-- lanes[i] = Some(commit_id)
abbrev pub Lanes : Type 0
Lanes = List (Option Text)

-- the lane that a commit gets, and the lanes behind it
abbrev pub Chosen : Type 0
Chosen = ℕ × Lanes

abbrev pub behind : Option Text → Option Chosen → Option Chosen
behind slot none = none
behind slot (some (l, lanes)) = some (suc l, slot ∷ lanes)

-- the loop that takes the lowest free lane; `i as u16` is behind it
unfoldable pub take_free : Text → Lanes → Option Chosen
take_free id [] = none
take_free id (none ∷ lanes) = some (0, some id ∷ lanes)
take_free id (some q ∷ lanes) = behind (some q) (take_free id lanes)

-- a new lane, or lane 0 once there are as many as a `u16` counts
unfoldable pub push_lane : Text → Lanes → Chosen
push_lane id lanes =
    if ltb (length lanes) max_lanes
    then (length lanes % 2 ^ 16, lanes ++ some id ∷ [])
    else (0, lanes)

abbrev pub found_or_push : Text → Lanes → Option Chosen → Chosen
found_or_push id lanes none = push_lane id lanes
found_or_push id lanes (some (l, lanes')) = (l % 2 ^ 16, lanes')

-- a commit without children: a tip
unfoldable pub tip_lane : Text → Lanes → Chosen
unfolding take_free push_lane
tip_lane id lanes = found_or_push id lanes (take_free id lanes)

abbrev pub or_zero : Option ℕ → ℕ
or_zero none = 0
or_zero (some l) = l

-- a single child: its lane
unfoldable pub inherit_lane : Text → ℕ → Lanes → Chosen
inherit_lane id child_lane lanes = (child_lane, set lanes child_lane (some id))

abbrev pub known_lane : Option ℕ → List ℕ → List ℕ
known_lane none ls = ls
known_lane (some l) ls = l ∷ ls

-- the lanes of the children that have one
unfoldable pub child_lanes : Map ℕ → List Text → List ℕ
child_lanes commit_lanes [] = []
child_lanes commit_lanes (c ∷ cs) = known_lane (get c commit_lanes) (child_lanes commit_lanes cs)

-- `sort_unstable` on numbers, which equal ones make no difference to
abbrev pub sort_in : ℕ → List ℕ → List ℕ
sort_in l [] = l ∷ []
sort_in l (k ∷ ks) = let rest = sort_in l ks in if leb l k then l ∷ k ∷ ks else k ∷ rest

unfoldable pub sort : List ℕ → List ℕ
sort [] = []
sort (l ∷ ls) = sort_in l (sort ls)

abbrev pub free_all : List ℕ → Lanes → Lanes
free_all [] lanes = lanes
free_all (l ∷ ls) lanes = free_all ls (set lanes l none)

abbrev pub leftmost : Text → Lanes → List ℕ → Chosen
leftmost id lanes [] = push_lane id lanes
leftmost id lanes (l ∷ ls) = (l, free_all ls (set lanes l (some id)))

-- several children: the leftmost lane of theirs, and the others are freed
unfoldable pub merge_lane : Text → List ℕ → Lanes → Chosen
unfolding push_lane sort
merge_lane id ls lanes = leftmost id lanes (sort ls)

-- the `match` on the number of children
unfoldable pub choose_lane : Text → List Text → Map ℕ → Lanes → Chosen
unfolding tip_lane inherit_lane merge_lane child_lanes
choose_lane id [] commit_lanes lanes = tip_lane id lanes
choose_lane id (c ∷ []) commit_lanes lanes = inherit_lane id (or_zero (get c commit_lanes)) lanes
choose_lane id (c ∷ d ∷ cs) commit_lanes lanes =
    merge_lane id (child_lanes commit_lanes (c ∷ d ∷ cs)) lanes

-- the loop over the commits
unfoldable pub sweep : Children → List Commit → Map ℕ → Lanes → List Commit
unfolding choose_lane
sweep children [] commit_lanes lanes = []
sweep children (c ∷ cs) commit_lanes lanes =
    let (lane, lanes') = choose_lane c.id (children c.id) commit_lanes lanes in
    record c { lane = lane } ∷ sweep children cs (insert c.id lane commit_lanes) lanes'

unfoldable pub assign_lanes : List Commit → List Commit
unfolding sweep children_of
assign_lanes commits = sweep (children_of commits) commits [] []
