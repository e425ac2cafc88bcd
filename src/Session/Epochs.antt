-- ===== src/Session/Epochs.antt =====
-- When a batch of file system events bumps the epoch in crates/engine/src/session.rs, and what it
-- announces.
use git_bamboo.Prelude.{
  ℕ, Bool, true, false, not, ◌&&◌, Bool-cases, List, [], ◌∷◌, ◌++◌, All, All-append, is_empty, ◌≡◌,
  refl, inl, inr, ap, ◌+◌, ◌%◌, ◌^◌, append-nil,
}
use git_bamboo.Prelude.Text.{Text, trim}
use git_bamboo.Host.{
  Host, Run, EngineEvent, refs_changed, worktree_changed, index_changed, head_changed,
  graph_invalidated,
}
use git_bamboo.Session.{
  FilePath, FileEvent, Batch, note_batch, when, or_default, notifications, is_quiet, report,
  process_event_batch,
}

-- the event is about the epoch that it names, or names none
abbrev pub IsOf : ℕ → EngineEvent → Type 0
IsOf n (refs_changed changed_refs epoch) = epoch ≡ n
IsOf n (worktree_changed paths) = Unit
IsOf n (index_changed epoch) = epoch ≡ n
IsOf n (head_changed new_head epoch) = epoch ≡ n
IsOf n (graph_invalidated epoch) = epoch ≡ n

-- What a batch does: nothing, or a change of the worktree announced under the old epoch, or one bump
-- with at least one event, every event that names an epoch naming the new one.
pub data Reported (h : Host) (before after : Run h) : Type 0 where
  silent : after ≡ before → Reported h before after
  worktree_only :
      (paths : List Text)
      → after ≡ record before { events = before.events ++ worktree_changed paths ∷ [] }
      → Reported h before after
  bumped :
      (announced : List EngineEvent)
      → is_empty announced ≡ false
      → All (IsOf after.epoch) announced
      → after
        ≡ record before { epoch = (before.epoch + 1) % 2 ^ 64; events = before.events ++ announced }
      → Reported h before after

when-IsOf : (n : ℕ) (b : Bool) (e : EngineEvent) → IsOf n e → All (IsOf n) (when b e)
when-IsOf n true e p = (p, tt)
when-IsOf n false e p = tt

notifications-IsOf : (b : Batch) (t : Text) (n : ℕ) → All (IsOf n) (notifications b t n)
unfolding notifications
notifications-IsOf b t n = All-append (IsOf n) _ _ (when-IsOf n b.head (head_changed t n) refl) (
    All-append (IsOf n) _ _ (when-IsOf n (not (is_empty b.refs)) (refs_changed b.refs n) refl) (
      All-append (IsOf n) _ _ (when-IsOf n b.index (index_changed n) refl) (
        All-append (IsOf n) _ _ (when-IsOf n b.graph (graph_invalidated n) refl)
          (when-IsOf n (not (is_empty b.worktree)) (worktree_changed b.worktree) tt))))

first_some :
    (p r q g : Bool) (a b c d : EngineEvent) (rest : List EngineEvent)
    → (not p && not q && r && not g) ≡ false
    → is_empty (when p a ++ (when (not r) b ++ (when q c ++ (when g d ++ rest)))) ≡ false
first_some true r q g a b c d rest h = refl
first_some false false q g a b c d rest h = refl
first_some false true true g a b c d rest h = refl
first_some false true false true a b c d rest h = refl
first_some false true false false a b c d rest h = cc

notifications-some :
    (b : Batch) (t : Text) (n : ℕ) → is_quiet b ≡ false → is_empty (notifications b t n) ≡ false
unfolding notifications
notifications-some b t n h = first_some b.head (is_empty b.refs) b.index b.graph _ _ _ _ _ h

quiet-Reported :
    (h : Host) (w : Bool) (paths : List Text) (r : Run h)
    → Reported h r (record r { events = r.events ++ when w (worktree_changed paths) })
quiet-Reported h true paths r = worktree_only paths refl
quiet-Reported h false paths r = silent (ap (λ e. record r { events = e }) (append-nil r.events))

report-Reported : (h : Host) (b : Batch) (r : Run h) → Reported h r (report h b r)
unfolding report
report-Reported h b r = elim (Bool-cases (is_quiet b)) [
  | inl y ↦ rw y (quiet-Reported h (not (is_empty b.worktree)) b.worktree r)
  | inr n ↦
      let epoch = (r.epoch + 1) % 2 ^ 64 in
      let head = trim (or_default (h.read_head r.world)) in
      rw n (
        bumped (notifications b head epoch) (notifications-some b head epoch n)
          (notifications-IsOf b head epoch) refl)
]

-- A batch of file system events leaves the session as it was, or announces a change of the worktree
-- without a new epoch, or bumps the epoch once and announces at least one event, where every event
-- that names an epoch names the new one.
pub process_event_batch-Reported :
    (h : Host) (repo_path git_dir : FilePath) (events : List FileEvent) (r : Run h)
    → Reported h r (process_event_batch h repo_path git_dir events r)
unfolding process_event_batch
process_event_batch-Reported h repo_path git_dir events r =
    report-Reported h (note_batch git_dir repo_path events) r
