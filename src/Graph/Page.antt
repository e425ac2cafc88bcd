-- ===== src/Graph/Page.antt =====
-- The arithmetic of a page in `read_graph_page` of crates/engine/src/gix_read.rs: how far the walk
-- goes, where the page begins and what it holds.
pub mod Reference
use Prim.Native.Nat.{min}
use git_bamboo.Prelude.{
  ℕ, zero, suc, ◌+◌, ◌-◌, ◌%◌, ◌^◌, Bool, ltb, Option, none, some, List, [], ◌∷◌, length, take,
  drop, if◌then◌else◌,
}
use git_bamboo.Prelude.Text.{Text, eq}
use git_bamboo.Protocol.{Commit, GraphViewport, GraphPage}

abbrev pub preload_margin : ℕ
preload_margin = 500

-- `u64::saturating_add`
abbrev pub saturating_add : ℕ → ℕ → ℕ
saturating_add a b = min (a + b) (2 ^ 64 - 1)

-- how many commits the walk enumerates
unfoldable pub page_end : GraphViewport → ℕ
page_end v = saturating_add (saturating_add v.offset v.limit) preload_margin

-- `iter().position` of the commit with an id
abbrev pub later : Option ℕ → Option ℕ
later none = none
later (some i) = some (suc i)

unfoldable pub position : Text → List Commit → Option ℕ
position anchor [] = none
position anchor (c ∷ cs) =
    let rest = position anchor cs in if eq c.id anchor then some 0 else later rest

abbrev pub at_anchor : Option ℕ → ℕ → ℕ → ℕ
at_anchor none offset n = offset
at_anchor (some i) offset n = min i (n - 1)

abbrev pub start_from : Option Text → ℕ → List Commit → ℕ
start_from none offset commits = offset
start_from (some anchor) offset commits =
    at_anchor (position anchor commits) offset (length commits)

-- the row that the page begins with: the anchor's, if it is known, or the offset
unfoldable pub page_start : GraphViewport → List Commit → ℕ
unfolding position
page_start v commits = start_from v.anchor_commit v.offset commits

-- The page of the commits that have been enumerated; the sum is a `usize`, which wraps in a release
-- build.
unfoldable pub page_of : GraphViewport → ℕ → List Commit → GraphPage
unfolding page_start
page_of v epoch commits = record {
  commits = take v.limit (drop (page_start v commits) commits);
  total_approx = length commits;
  has_more = ltb ((page_start v commits + v.limit) % 2 ^ 64) (length commits);
  epoch = epoch;
  anchor_commit = v.anchor_commit;
}
