-- ===== src/Undo/Engine/Ids.antt =====
-- The first transaction id of a new engine in crates/engine/src/undo.rs.
use Prim.Native.Nat.{max}
use git_bamboo.Prelude.{ℕ, ◌+◌, ◌%◌, ◌^◌, ◌≤◌, ◌<◌, List, [], ◌∷◌, All, All-mono, arith}
use git_bamboo.Undo.Disk.{Transaction, Stored, Files, UndoState}
use git_bamboo.Undo.Journal.{entries}
use git_bamboo.Undo.Engine.{next_after, next_after_files, initial_id}

-- ids behind which `m` more can be taken before the counter wraps
abbrev pub RoomAfter : ℕ → List Transaction → Type 0
RoomAfter m ts = All (λ (t : Transaction). t.id + 1 + m < 2 ^ 64) ts

abbrev pub RoomAfterFiles : ℕ → Files → Type 0
RoomAfterFiles m files = All (λ (f : ℕ × Stored). f.0 + 1 + m < 2 ^ 64) files

-- the bounds on a next id: it is not below `n`, and has room
abbrev Next : ℕ → ℕ → ℕ → Type 0
Next m n k = (n ≤ k) × (k + m < 2 ^ 64)

step-Next :
    (m n i k : ℕ) → i + 1 + m < 2 ^ 64 → Next m (max n ((i + 1) % 2 ^ 64)) k → Next m n k × (i < k)
step-Next m n i k h v = ((omega arith, v.1), omega arith)

max-room : (m n i : ℕ) → i + 1 + m < 2 ^ 64 → n + m < 2 ^ 64 → max n ((i + 1) % 2 ^ 64) + m < 2 ^ 64
max-room m n i h k = omega arith

next_after-above :
    (m : ℕ) (ts : List Transaction) (n : ℕ)
    → RoomAfter m ts
    → n + m < 2 ^ 64
    → Next m n (next_after ts n) × All (λ (t : Transaction). t.id < next_after ts n) ts
unfolding next_after
next_after-above m [] n v k = ((omega arith, k), tt)
next_after-above m (t ∷ ts) n v k =
    let rest = next_after-above m ts (max n ((t.id + 1) % 2 ^ 64)) v.1 (max-room m n t.id v.0 k) in
    let (next, below) = step-Next m n t.id _ v.0 rest.0 in (next, (below, rest.1))

next_after_files-above :
    (m : ℕ) (files : Files) (n : ℕ)
    → RoomAfterFiles m files
    → n + m < 2 ^ 64
    → Next m n (next_after_files files n)
      × All (λ (f : ℕ × Stored). f.0 < next_after_files files n) files
unfolding next_after_files
next_after_files-above m [] n v k = ((omega arith, k), tt)
next_after_files-above m ((i, s) ∷ files) n v k =
    let rest =
      next_after_files-above m files (max n ((i + 1) % 2 ^ 64)) v.1 (max-room m n i v.0 k) in
    let (next, below) = step-Next m n i _ v.0 rest.0 in (next, (below, rest.1))

-- all ids in the engine's files leave room for `m` more
abbrev pub HasRoom : ℕ → UndoState → Type 0
HasRoom m u =
    RoomAfter m (entries u.journal) × RoomAfterFiles m u.pre_files × RoomAfterFiles m u.post_files

-- If all ids leave room, the id with which a new engine begins is larger than that of every
-- transaction in the journal and of every snapshot file of either kind, and leaves room.
pub initial_id-above :
    (m : ℕ) (u : UndoState)
    → HasRoom m u
    → 1 + m < 2 ^ 64
    → All (λ (t : Transaction). t.id < initial_id u) (entries u.journal)
      × All (λ (f : ℕ × Stored). f.0 < initial_id u) u.pre_files
      × All (λ (f : ℕ × Stored). f.0 < initial_id u) u.post_files
      × (initial_id u + m < 2 ^ 64)
unfolding initial_id
initial_id-above m u v k =
    let (p, q) = next_after-above m (entries u.journal) 1 v.0 k in
    let a = next_after (entries u.journal) 1 in
    let (p', q') = next_after_files-above m u.pre_files a v.1 p.1 in
    let b = next_after_files u.pre_files a in
    let (p'', q'') = next_after_files-above m u.post_files b v.2 p'.1 in
    (
      All-mono (entries u.journal) (λ t x. omega (arith, p'.0, p''.0)) q,
      All-mono u.pre_files (λ f x. omega (arith, p''.0)) q',
      q'',
      p''.1,
    )
