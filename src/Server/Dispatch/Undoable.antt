-- ===== src/Server/Dispatch/Undoable.antt =====
-- About a client's request, from `dispatch_with_session` in crates/engine/src/server.rs through the
-- write queue and back.
use git_bamboo.Undo.Disk.{Transaction, Line, unfinished, entry}
use git_bamboo.Undo.Journal.{append_line}
use git_bamboo.Prelude.{Bool, false, List, [], ◌∷◌, last?, some, ◌⊎◌, true, ◌≡◌}
use git_bamboo.Prelude.Text.{Text}
use git_bamboo.Host.{Host, Run}

-- whether the last append was cut short
abbrev pub is_torn : List Line → Bool
is_torn [] = false
is_torn (unfinished ∷ []) = true
is_torn (l ∷ []) = false
is_torn (l ∷ m ∷ ls) = is_torn (m ∷ ls)

-- the line of a transaction that is marked as a success has been appended, and the journal ends in it
-- unless it went on behind a line that was cut short
abbrev pub Appended : {h : Host} → Run h → Type 0
Appended s =
    (tx : Transaction) × (before : List Line) × (tx.success ≡ true)
    × (s.undo.journal ≡ append_line (entry tx) before)
    × ((is_torn before ≡ true) ⊎ (last? s.undo.journal ≡ some (entry tx)))
