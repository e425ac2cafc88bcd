-- ===== src/Session/Relevant.antt =====
-- Which file system events bump the epoch in crates/engine/src/session.rs.
use git_bamboo.Prelude.{
  Bool, false, not, ◌&&◌, ◌||◌, Bool-cases, Option, none, some, last?, List, [], ◌∷◌, ◌++◌, any,
  is_empty, ◌≡◌, refl, inl, inr, arith,
}
use git_bamboo.Prelude.Text.{Text, codes, eq, starts_with, ends_with, join, first_is, last_is}
use git_bamboo.Session.{
  FilePath, FileEvent, Batch, no_changes, or_empty, is_transient, strip_dir, note_git, note_in,
  note_path, note_paths, note_events, note_batch, is_quiet,
}

-- HEAD, the index, the refs and the sequencer, less lock files
abbrev pub matters_in_git : Text → Bool
matters_in_git rel =
    not (ends_with (codes ".lock") rel)
    && (eq rel (codes "HEAD")
        || (eq rel (codes "index")
            || ((starts_with (codes "refs/") rel || eq rel (codes "packed-refs"))
                || starts_with (codes "sequencer/") rel)))

abbrev pub matters_below : Option FilePath → Bool
matters_below none = false
matters_below (some rel) = matters_in_git (join (codes "/") rel)

-- the names of editors' transient files: `.*.swp`, `*~` and `#*`
abbrev pub is_editor_file : Text → Bool
is_editor_file name =
    (first_is b'.' name && ends_with (codes ".swp") name) || last_is b'~' name || first_is b'#' name

abbrev pub matters : FilePath → FilePath → Bool
matters git_dir path =
    not (is_editor_file (or_empty (last? path))) && matters_below (strip_dir git_dir path)

is_empty-snoc : (t : Text) (ts : List Text) → is_empty (ts ++ t ∷ []) ≡ false
is_empty-snoc t [] = refl
is_empty-snoc t (u ∷ ts) = refl

note_git-quiet :
    (rel : Text) (b : Batch) → is_quiet (note_git rel b) ≡ (is_quiet b && not (matters_in_git rel))
unfolding note_git
note_git-quiet rel b = elim (Bool-cases (ends_with (codes ".lock") rel)) [
  | inl y ↦ rw y (ground arith)
  | inr n ↦ rw n (elim (Bool-cases (eq rel (codes "HEAD"))) [
    | inl y ↦ rw y (ground arith)
    | inr m ↦ rw m (elim (Bool-cases (eq rel (codes "index"))) [
      | inl y ↦ rw y (ground arith)
      | inr k ↦
          rw k
            (elim (Bool-cases (starts_with (codes "refs/") rel || eq rel (codes "packed-refs"))) [
              | inl y ↦ rw y (ground (arith, is_empty-snoc rel b.refs))
              | inr l ↦ rw l (elim (Bool-cases (starts_with (codes "sequencer/") rel)) [
                | inl y ↦ rw y (ground arith)
                | inr o ↦ rw o (ground arith)
              ])
            ])
    ])
  ])
]

note_in-quiet :
    (below_git below_repo : Option FilePath) (b : Batch)
    → is_quiet (note_in below_git below_repo b) ≡ (is_quiet b && not (matters_below below_git))
unfolding note_in
note_in-quiet (some rel) below_repo b = note_git-quiet (join (codes "/") rel) b
note_in-quiet none none b = ground arith
note_in-quiet none (some rel) b = ground arith

note_path-quiet :
    (git_dir repo_path path : FilePath) (b : Batch)
    → is_quiet (note_path git_dir repo_path path b) ≡ (is_quiet b && not (matters git_dir path))
unfolding note_path is_transient
note_path-quiet git_dir repo_path path b =
    elim (Bool-cases (is_editor_file (or_empty (last? path)))) [
      | inl y ↦ rw y (ground arith)
      | inr n ↦ rw n (note_in-quiet (strip_dir git_dir path) (strip_dir repo_path path) b)
    ]

note_paths-quiet :
    (git_dir repo_path : FilePath) (paths : List FilePath) (b : Batch)
    → is_quiet (note_paths git_dir repo_path paths b)
      ≡ (is_quiet b && not (any (matters git_dir) paths))
unfolding note_paths
note_paths-quiet git_dir repo_path [] b = ground arith
note_paths-quiet git_dir repo_path (p ∷ ps) b = ground (
  arith,
  note_paths-quiet git_dir repo_path ps (note_path git_dir repo_path p b),
  note_path-quiet git_dir repo_path p b,
)

abbrev pub is_relevant : FilePath → FileEvent → Bool
is_relevant git_dir e = not e.is_access && any (matters git_dir) e.paths

note_events-quiet :
    (git_dir repo_path : FilePath) (events : List FileEvent) (b : Batch)
    → is_quiet (note_events git_dir repo_path events b)
      ≡ (is_quiet b && not (any (is_relevant git_dir) events))
unfolding note_events
note_events-quiet git_dir repo_path [] b = ground arith
note_events-quiet git_dir repo_path (e ∷ es) b = elim (Bool-cases e.is_access) [
  | inl y ↦ rw y (ground (arith, note_events-quiet git_dir repo_path es b))
  | inr n ↦ rw n (
      ground (
        arith,
        note_events-quiet git_dir repo_path es (note_paths git_dir repo_path e.paths b),
        note_paths-quiet git_dir repo_path e.paths b,
      ))
]

-- A batch is without consequences for the epoch exactly if none of its events that is more than an
-- access names HEAD, the index, a ref or the sequencer in the git directory, lock files apart and all
-- paths whose last part is named like `.*.swp`, `*~` or `#*`, be it a branch's.
pub note_batch-quiet :
    (git_dir repo_path : FilePath) (events : List FileEvent)
    → is_quiet (note_batch git_dir repo_path events) ≡ not (any (is_relevant git_dir) events)
unfolding note_batch
note_batch-quiet git_dir repo_path events = note_events-quiet git_dir repo_path events no_changes
