-- ===== src/Reader/Status.antt =====
-- `read_status` of crates/engine/src/gix_read.rs: gix's status items in the protocol's terms, and the
-- filter by paths.
use git_bamboo.Prelude.{
  ℕ, Bool, true, false, ◌||◌, Bool-cases, Option, none, some, is_some, Option-cases, List, [], ◌∷◌,
  ◌++◌, any, if◌then◌else◌, Result, ok, err, Act, pure, ◌>>=◌, ◌==◌, ◌≡◌, ◌↔◌, ◌⊎◌, inl, inr, ap,
  arith,
}
use git_bamboo.Prelude.Text.{Text, eq, eq_iff, strip_prefix, strip_prefix_iff}
use git_bamboo.Protocol.{Error, ConflictKind}
use git_bamboo.Cache.{lift}
use git_bamboo.Cache.Store.{Redb}
use git_bamboo.Reader.{Repository, Reading, read_epoch, on_repo, guard_epoch}
use git_bamboo.Protocol.Answers.{
  StatusCode, added, modified, deleted, renamed, copied, untracked, ignored, conflict, StatusItem,
}

-- `gix::diff::index::Change`
pub data TreeIndexChange : Type 0 where
  addition deletion modification : (location : Text) → TreeIndexChange
  rewrite : (source_location location : Text) (copy : Bool) → TreeIndexChange

-- `EntryStatus`, with what becomes of it
pub data EntryStatus : Type 0 where
  conflicted : ConflictKind → EntryStatus
  removed changed intent_to_add needs_update : EntryStatus

-- the status of an entry of a directory walk
pub data DirStatus : Type 0 where
  dir_untracked dir_ignored dir_other : DirStatus

-- `gix::status::index_worktree::Item`
pub data WorktreeItem : Type 0 where
  modification : (rela_path : Text) → EntryStatus → WorktreeItem
  directory_contents : (rela_path : Text) → DirStatus → WorktreeItem
  rewrite : (source rela_path : Text) (copy : Bool) → WorktreeItem

pub data Item : Type 0 where
  tree_index : TreeIndexChange → Item
  index_worktree : WorktreeItem → Item

abbrev plain_item : Text → StatusCode → StatusItem
plain_item path status = record {
  path = path;
  status = status;
  old_path = none;
  staged = false;
  conflict_kind = none;
}

unfoldable pub map_tree_index_change : TreeIndexChange → Option StatusItem
map_tree_index_change (TreeIndexChange.addition location) = some (plain_item location added)
map_tree_index_change (TreeIndexChange.deletion location) = some (plain_item location deleted)
map_tree_index_change (TreeIndexChange.modification location) = some (plain_item location modified)
map_tree_index_change (TreeIndexChange.rewrite source_location location copy) =
    some (record (plain_item location (if copy then copied else renamed)) {
      old_path = some source_location;
    })

abbrev of_entry : Text → EntryStatus → Option StatusItem
of_entry path (conflicted kind) =
    some (record (plain_item path conflict) { conflict_kind = some kind })
of_entry path removed = some (plain_item path deleted)
of_entry path changed = some (plain_item path modified)
of_entry path intent_to_add = some (plain_item path added)
of_entry path needs_update = none

abbrev of_directory : Text → DirStatus → Option StatusItem
of_directory path dir_untracked = some (plain_item path untracked)
of_directory path dir_ignored = some (plain_item path ignored)
of_directory path dir_other = none

unfoldable pub map_index_worktree_item : WorktreeItem → Option StatusItem
map_index_worktree_item (WorktreeItem.modification path status) = of_entry path status
map_index_worktree_item (directory_contents path status) = of_directory path status
map_index_worktree_item (WorktreeItem.rewrite source path copy) =
    some (record (plain_item path (if copy then copied else renamed)) { old_path = some source })

abbrev stage : Option StatusItem → Option StatusItem
stage none = none
stage (some i) = some (record i { staged = true })

unfoldable pub map_item : Item → Option StatusItem
unfolding map_tree_index_change map_index_worktree_item
map_item (tree_index change) = stage (map_tree_index_change change)
map_item (index_worktree item) = map_index_worktree_item item

abbrev put_slash : ℕ → Text → Text
put_slash c [] = if c == b'/' then [] else c ∷ []
put_slash c (d ∷ ds) = c ∷ d ∷ ds

-- `trim_end_matches('/')`
unfoldable pub trim_slashes : Text → Text
trim_slashes [] = []
trim_slashes (c ∷ cs) = put_slash c (trim_slashes cs)

abbrev starts_under : Text → Text → Bool
starts_under filter path = is_some (strip_prefix (filter ++ b'/' ∷ []) path)

-- `path_matches`
unfoldable pub path_matches : Text → Text → Bool
unfolding trim_slashes
path_matches path filter = eq path (trim_slashes filter) || starts_under (trim_slashes filter) path

abbrev pub wanted : Option (List Text) → Text → Bool
wanted none path = true
wanted (some filter) path = any (path_matches path) filter

abbrev keep_wanted : Option (List Text) → Option StatusItem → List StatusItem → List StatusItem
keep_wanted paths none items = items
keep_wanted paths (some i) items = if wanted paths i.path then i ∷ items else items

abbrev and_items :
    (List StatusItem → List StatusItem)
    → Result Error (List StatusItem)
    → Result Error (List StatusItem)
and_items f (ok items) = ok (f items)
and_items f (err e) = err e

-- the loop of `read_status` over gix's entries
unfoldable pub read_items :
    Option (List Text) → List (Result Error Item) → Result Error (List StatusItem)
unfolding map_item path_matches
read_items paths [] = ok []
read_items paths (err e ∷ entries) = err e
read_items paths (ok entry ∷ entries) =
    and_items (keep_wanted paths (map_item entry)) (read_items paths entries)

-- gix's status iterator is a parameter
module _ (p : Repository) (r : Redb) (status : Act p.World Error (List (Result Error Item))) where
  unfoldable pub read_status : Option (List Text) → Act (Reading p r) Error (List StatusItem)
  unfolding read_items
  read_status paths = do
    current_epoch ← read_epoch p r
    entries ← on_repo p r status
    items ← lift (read_items paths entries)
    guard_epoch p r current_epoch (pure items)

is_some-strip_prefix :
    (p t : Text) → (is_some (strip_prefix p t) ≡ true) ↔ ((rest : Text) × (t ≡ p ++ rest))
is_some-strip_prefix p t = (
  λ h. elim (Option-cases (strip_prefix p t)) [
    | inl n ↦ absurd (ground arith)
    | inr (rest, e) ↦ (rest, (strip_prefix_iff p t rest).0 e)
  ],
  λ (rest, e). ap is_some ((strip_prefix_iff p t rest).1 e),
)

-- A path matches a filter exactly if it is the filter, less the slashes at its end, or stands below
-- that as a directory.
path_matches_iff :
    (path filter : Text)
    → (path_matches path filter ≡ true) ↔ (
        (path ≡ trim_slashes filter)
        ⊎ ((rest : Text) × (path ≡ (trim_slashes filter ++ b'/' ∷ []) ++ rest)))
unfolding path_matches
path_matches_iff path filter =
    let f = trim_slashes filter in
    let below = is_some-strip_prefix (f ++ b'/' ∷ []) path in
    (
      λ h. elim (Bool-cases (eq path f)) [
        | inl y ↦ inl ((eq_iff path f).0 y)
        | inr n ↦ inr (below.0 (ground arith))
      ],
      λ h. elim h [
        | inl e ↦ ground (arith, (eq_iff path f).1 e)
        | inr r ↦ ground (arith, below.1 r)
      ],
    )
