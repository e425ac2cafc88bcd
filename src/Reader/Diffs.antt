-- ===== src/Reader/Diffs.antt =====
-- `diff_tree_files` of crates/engine/src/gix_read.rs: the files of a commit, from the two formats of
-- `git diff-tree -z`, paired by path.
use git_bamboo.Prelude.{
  ℕ, Bool, true, false, not, ◌||◌, Option, none, some, List, [], ◌∷◌, is_empty, keep, if◌then◌else◌,
  Act, pure, fail, ◌>>=◌, ◌≡◌,
}
use git_bamboo.Prelude.Maps.{Map, get, insert}
use git_bamboo.Prelude.Numbers.{parse_uint}
use git_bamboo.Prelude.Text.{Text, codes, eq, split, split_once}
use git_bamboo.Protocol.{Error, structured, git_error}
use git_bamboo.Protocol.Answers.{CommitFile}
use git_bamboo.Cache.Store.{Redb}
use git_bamboo.Reader.{Repository, Reading, on_repo}

-- `parse_numstat_count`, a `u32`
unfoldable pub parse_numstat_count : Text → ℕ
parse_numstat_count s = elim (parse_uint 4294967295 s) [ none ↦ 0 | some n ↦ n ]

abbrev unwrap : Option (Text × Text) → Text → Text × Text
unwrap none t = (t, [])
unwrap (some p) t = p

-- the three parts of `splitn(3, '\t')`: a missing count reads as "-", a missing path as ""
abbrev pub second_part : Option (Text × Text) → Text × Text
second_part none = (codes "-", [])
second_part (some (_, rest)) = unwrap (split_once b'\t' rest) rest

unfoldable pub numstat_parts : Text → Text × (Text × Text)
numstat_parts token =
    ((unwrap (split_once b'\t' token) token).0, second_part (split_once b'\t' token))

abbrev pub Counts : Type 0
Counts = Map (ℕ × ℕ)

-- The loop over the tokens of `--numstat`: a record without a path is a rename, whose old and new
-- path are the next two tokens.
unfoldable pub count_lines : List Text → Counts → Counts
unfolding numstat_parts
count_lines [] counts = counts
count_lines (token ∷ []) counts =
    let (a, (d, path)) = numstat_parts token in
    insert path (parse_numstat_count a, parse_numstat_count d) counts
count_lines (token ∷ t ∷ []) counts =
    let (a, (d, path)) = numstat_parts token in
    let rest =
      count_lines (t ∷ []) (insert path (parse_numstat_count a, parse_numstat_count d) counts) in
    if is_empty path then insert [] (parse_numstat_count a, parse_numstat_count d) counts else rest
count_lines (token ∷ t ∷ u ∷ ts) counts =
    let (a, (d, path)) = numstat_parts token in
    let renamed = count_lines ts (insert u (parse_numstat_count a, parse_numstat_count d) counts) in
    let rest =
      count_lines (t ∷ u ∷ ts)
        (insert path (parse_numstat_count a, parse_numstat_count d) counts) in
    if is_empty path then renamed else rest

-- `chars().next()` as a text
abbrev pub letter : Text → Text
letter [] = []
letter (c ∷ cs) = c ∷ []

abbrev pub or_none : Text → Option Text
or_none [] = none
or_none (c ∷ cs) = some (c ∷ cs)

abbrev pub or_zeros : Option (ℕ × ℕ) → ℕ × ℕ
or_zeros none = (0, 0)
or_zeros (some n) = n

abbrev pub file_of : Counts → Text → Text → Option Text → CommitFile
file_of counts status path old_path =
    let n = or_zeros (get path counts) in
    record { path = path; old_path = old_path; status = status; additions = n.0; deletions = n.1 }

abbrev pub is_rename : Text → Bool
is_rename status = eq status (codes "R") || eq status (codes "C")

-- The loop over the tokens of `--name-status`: a status, and a path or, of a rename or a copy, two.
-- Tokens that are missing at the end read as "".
unfoldable pub list_files : Counts → List Text → List CommitFile
list_files counts [] = []
list_files counts (status ∷ []) = file_of counts (letter status) [] none ∷ []
list_files counts (status ∷ old ∷ []) =
    if is_rename (letter status)
    then file_of counts (letter status) [] (or_none old) ∷ []
    else file_of counts (letter status) old none ∷ []
list_files counts (status ∷ old ∷ path ∷ ts) =
    let renamed = list_files counts ts in
    let rest = list_files counts (path ∷ ts) in
    if is_rename (letter status)
    then file_of counts (letter status) path (or_none old) ∷ renamed
    else file_of counts (letter status) old none ∷ rest

-- the tokens between NULs, less the empty ones
unfoldable pub tokens : Text → List Text
tokens stdout = keep (λ t. not (is_empty t)) (split 0 stdout)

module _ (p : Repository) (r : Redb) where
  unfoldable pub diff_tree : Text → Text → Text → Act (Reading p r) Error (List Text)
  unfolding tokens
  diff_tree base id format_flag = do
    out ← on_repo p r (
        p.git_output (
          codes "diff-tree"
          ∷ codes "--no-commit-id"
          ∷ codes "-r"
          ∷ codes "-M"
          ∷ codes "-z"
          ∷ format_flag
          ∷ base
          ∷ id
          ∷ []))
    if out.success
        then pure (tokens out.stdout)
        else fail (structured (git_error (codes "commit diff unavailable")))

  unfoldable pub diff_tree_files : Text → Text → Act (Reading p r) Error (List CommitFile)
  unfolding diff_tree count_lines list_files
  diff_tree_files base id = do
    status_tokens ← diff_tree base id (codes "--name-status")
    numstat_tokens ← diff_tree base id (codes "--numstat")
    pure (list_files (count_lines numstat_tokens []) status_tokens)

-- A record of `--name-status -z`: a change of one path, with its letter; a rename or a copy, with
-- whether it is a copy, what stands behind the letter, and both paths.
pub data Row : Type 0 where
  change : (kind : ℕ) (path : Text) → Row
  move : (copy : Bool) (score old_path path : Text) → Row

abbrev pub move_letter : Bool → ℕ
move_letter true = b'C'
move_letter false = b'R'

abbrev pub print_rows : List Row → List Text
print_rows [] = []
print_rows (change kind path ∷ rows) = (kind ∷ []) ∷ path ∷ print_rows rows
print_rows (move copy score old_path path ∷ rows) =
    (move_letter copy ∷ score) ∷ old_path ∷ path ∷ print_rows rows

-- the lines added and deleted in a path, in this order; none if they are not known
abbrev added : Option (ℕ × ℕ) → ℕ
added none = 0
added (some (plus, minus)) = plus

abbrev deleted : Option (ℕ × ℕ) → ℕ
deleted none = 0
deleted (some (plus, minus)) = minus

abbrev pub row_file : Counts → Row → CommitFile
row_file counts (change kind path) = record {
  path = path;
  old_path = none;
  status = kind ∷ [];
  additions = added (get path counts);
  deletions = deleted (get path counts);
}
row_file counts (move copy score old_path path) = record {
  path = path;
  old_path = some old_path;
  status = move_letter copy ∷ [];
  additions = added (get path counts);
  deletions = deleted (get path counts);
}

-- a change has another letter than R and C, and an old path is not empty
abbrev pub IsRow : Row → Type 0
IsRow (change kind path) = is_rename (kind ∷ []) ≡ false
IsRow (move copy score old_path path) = is_empty old_path ≡ false
