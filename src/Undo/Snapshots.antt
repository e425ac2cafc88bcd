-- ===== src/Undo/Snapshots.antt =====
-- Reading and validating the ref state in crates/engine/src/undo.rs.
use mathlib.Core.Option
use git_bamboo.Prelude.{
  not, ◌&&◌, ◌||◌, Option, none, some, List, [], ◌∷◌, ◌++◌, map, ltb, ◌==◌, if◌then◌else◌, Act,
  pure, fail, ◌>>=◌, Result, ok, err, and_then, is_some,
}
use git_bamboo.Prelude.Text.{
  Text, codes, eq, len, trim, starts_with, first_is, split_once, lines, Debug, debug_slice,
}
use git_bamboo.Protocol.{Error, plain, Fault, raised, panicked}
use git_bamboo.Host.{
  Spawned, not_run, finished, died, DirEntry, unreadable, not_file, file, Host, Run,
}
use git_bamboo.Undo.Disk.{Refs, lookup, insert, Snapshot}

abbrev pub Undo : Host → Type 0 → Type 0
Undo h A = Act (Run h) Fault A

unfoldable pub lift_error : {S A : Type 0} → Result Error A → Act S Fault A
unfolding pure fail
lift_error (ok a) = pure a
lift_error (err e) = fail (raised e)

-- `\` to `/`
slashes : Text → Text
slashes = map (λ c. if c == b'\\' then b'/' else c)

-- the loop of `read_loose_refs` over the walk
unfoldable pub read_loose : Text → List DirEntry → Refs → Result Error Refs
unfolding slashes
read_loose prefix [] refs = ok refs
read_loose prefix (unreadable msg ∷ entries) refs = err (plain msg)
read_loose prefix (not_file ∷ entries) refs = read_loose prefix entries refs
read_loose prefix (file rel (err msg) ∷ entries) refs = err (plain msg)
read_loose prefix (file rel (ok content) ∷ entries) refs =
    let target = trim content in
    read_loose prefix entries
      (if ltb (len target) 40 then refs else insert (prefix ++ b'/' ∷ slashes rel) target refs)

-- the object id and the trimmed name of a line of `packed-refs`; comments and peeled ids are none
unfoldable pub packed_line : Text → Option (Text × Text)
packed_line line =
    if first_is b'#' line || first_is b'^' line
    then none
    else Option.map (λ (p : Text × Text). (p.0, trim p.1)) (split_once b' ' line)

-- a packed branch, unless a loose one has its name
unfoldable pub merge_packed : Option (Text × Text) → Refs → Refs
merge_packed none refs = refs
merge_packed (some (sha, name)) refs =
    if starts_with (codes "refs/heads/") name && not (is_some (lookup name refs))
    then insert name sha refs
    else refs

unfoldable pub merge_lines : List Text → Refs → Refs
unfolding packed_line merge_packed
merge_lines [] refs = refs
merge_lines (line ∷ ls) refs = merge_lines ls (merge_packed (packed_line line) refs)

-- the loop over the packed lines for the stash: the last match stays
pick_stash : Option (Text × Text) → Option Text → Option Text
pick_stash none stash = stash
pick_stash (some (sha, name)) stash = if eq name (codes "refs/stash") then some sha else stash

unfoldable pub stash_lines : List Text → Option Text → Option Text
unfolding packed_line pick_stash
stash_lines [] stash = stash
stash_lines (line ∷ ls) stash = stash_lines ls (pick_stash (packed_line line) stash)

abbrev pub packed_lines : Option Text → List Text
packed_lines none = []
packed_lines (some content) = lines content

abbrev or_packed : Option Text → List Text → Option Text
or_packed (some sha) ls = some sha
or_packed none ls = stash_lines ls none

-- the refs and the stash of a world
unfoldable pub read_refs : (h : Host) → h.World → Result Error (Refs × Option Text)
unfolding read_loose merge_lines stash_lines
read_refs h w =
    let packed = packed_lines (h.packed_refs w) in
    and_then (read_loose (codes "refs/heads") (h.loose_heads w) []) λ heads.
      and_then (read_loose (codes "refs") (h.loose_refs w) []) λ all_refs.
        ok (merge_lines packed heads, or_packed (lookup (codes "refs/stash") all_refs) packed)

abbrev pub text_result : Result Text Text → Result Error Text
text_result (ok t) = ok (trim t)
text_result (err msg) = err (plain (codes "failed to read HEAD"))

pub git_failed : Debug → List Text → Text → Text
git_failed d args stderr = codes "git " ++ (debug_slice d args ++ (codes " failed: " ++ stderr))

abbrev pub captured : Debug → List Text → Spawned → Result Fault Text
captured d args (not_run msg) = err (raised (plain (codes "failed to run git")))
captured d args (finished out) =
    if out.success then ok out.stdout else err (raised (plain (git_failed d args out.stderr)))
captured d args died = err panicked

-- `.ok().map(trim)` of a captured output; a panic goes on
abbrev pub tree_result : {S : Type 0} → Result Fault Text → S → Result Fault (Option Text) × S
tree_result (ok t) s = (ok (some (trim t)), s)
tree_result (err (raised _)) s = (ok none, s)
tree_result (err panicked) s = (err panicked, s)

module _ (h : Host) where
  -- `run_git`, `run_git_capture` and `run_git_stdin`, by the input
  unfoldable pub run_git : List Text → Text → Undo h Text
  run_git args input r =
      let (s, w) = h.undo_git args input r.world in
      (captured h.debug args s, record r { world = w; trace = r.trace ++ args ∷ [] })

  unfoldable pub read_index_tree : Undo h (Option Text)
  unfolding run_git
  read_index_tree r = let (t, r') = run_git (codes "write-tree" ∷ []) [] r in tree_result t r'

  -- `read_snapshot`
  unfoldable pub read_snapshot : Undo h Snapshot
  unfolding read_refs read_index_tree
  read_snapshot r =
      (do
        head ← lift_error (text_result (h.read_head r.world))
        found ← lift_error (read_refs h r.world)
        tree ← read_index_tree
        pure (record { head = head; refs = found.0; stash_ref = found.1; index_tree = tree }))
        r
