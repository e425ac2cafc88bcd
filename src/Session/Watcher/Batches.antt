-- ===== src/Session/Watcher/Batches.antt =====
-- About the batches of the watcher thread in crates/engine/src/session.rs.
use git_bamboo.Prelude.{
  ℕ, zero, suc, ◌+◌, ◌-◌, ◌≤◌, List, [], ◌∷◌, ◌++◌, append_assoc, All, length, length-append, ◌≡◌,
  refl, ap, ◌∙◌, arith,
}
use git_bamboo.Session.{FileEvent}
use git_bamboo.Session.Watcher.{
  max_events_per_batch, Signal, arrived, faulty, pause, collect, batches,
}

-- the events among what the channel gives
abbrev pub events_of : List Signal → List FileEvent
events_of [] = []
events_of (arrived e ∷ signals) = e ∷ events_of signals
events_of (faulty ∷ signals) = events_of signals
events_of (pause ∷ signals) = events_of signals

abbrev pub concat : List (List FileEvent) → List FileEvent
concat [] = []
concat (b ∷ bs) = b ++ concat bs

abbrev pub IsBatch : List FileEvent → Type 0
IsBatch b = (1 ≤ length b) × (length b ≤ max_events_per_batch)

collect-keeps :
    (n : ℕ) (batch : List FileEvent) (signals : List Signal)
    → (collect n batch signals).0 ++ events_of (collect n batch signals).1
      ≡ batch ++ events_of signals
unfolding collect
collect-keeps zero batch signals = refl
collect-keeps (suc n) batch [] = refl
collect-keeps (suc n) batch (pause ∷ signals) = refl
collect-keeps (suc n) batch (faulty ∷ signals) = collect-keeps (suc n) batch signals
collect-keeps (suc n) batch (arrived e ∷ signals) =
    collect-keeps n (batch ++ e ∷ []) signals ∙ append_assoc batch (e ∷ []) (events_of signals)

collect-bounds :
    (n : ℕ) (batch : List FileEvent) (signals : List Signal)
    → (length batch ≤ length (collect n batch signals).0)
      × (length (collect n batch signals).0 ≤ length batch + n)
unfolding collect
collect-bounds zero batch signals = omega arith
collect-bounds (suc n) batch [] = omega arith
collect-bounds (suc n) batch (pause ∷ signals) = omega arith
collect-bounds (suc n) batch (faulty ∷ signals) = collect-bounds (suc n) batch signals
collect-bounds (suc n) batch (arrived e ∷ signals) =
    omega (arith, length-append batch (e ∷ []), collect-bounds n (batch ++ e ∷ []) signals)

-- what a run of the watcher promises of its batches
abbrev Coalesced : ℕ → List Signal → List (List FileEvent) × List Signal → Type 0
Coalesced n signals (bs, left) =
    (concat bs ++ events_of left ≡ events_of signals)
    × All IsBatch bs
    × (length (events_of left) ≤ length (events_of signals) - n)

batch-Coalesced :
    (n : ℕ) (e : FileEvent) (signals : List Signal)
    → Coalesced n (collect 4095 (e ∷ []) signals).1 (batches n (collect 4095 (e ∷ []) signals).1)
    → Coalesced (suc n) (arrived e ∷ signals) (batches (suc n) (arrived e ∷ signals))
unfolding batches
batch-Coalesced n e signals (kept, sized, left) =
    let (batch, rest) = collect 4095 (e ∷ []) signals in
    let k = collect-keeps 4095 (e ∷ []) signals in
    let (lower, upper) = collect-bounds 4095 (e ∷ []) signals in
    (
      append_assoc batch (concat (batches n rest).0) (events_of (batches n rest).1)
          ∙ ap (◌++◌ batch) kept
          ∙ k,
      ((omega arith, omega arith), sized),
      omega (arith, ap length k, length-append batch (events_of rest)),
    )

-- However the events arrive, the batches that are processed before the session is dropped hold the
-- first of them in order, none twice and none left out, each batch has one to 4096 events, and if
-- there may be n batches, then all but the first n events, at most, are left.
pub batches-Coalesced :
    (n : ℕ) (signals : List Signal)
    → (concat (batches n signals).0 ++ events_of (batches n signals).1 ≡ events_of signals)
      × All IsBatch (batches n signals).0
      × (length (events_of (batches n signals).1) ≤ length (events_of signals) - n)
unfolding batches
batches-Coalesced n [] = (refl, tt, omega arith)
batches-Coalesced n (pause ∷ signals) = batches-Coalesced n signals
batches-Coalesced n (faulty ∷ signals) = batches-Coalesced n signals
batches-Coalesced zero (arrived e ∷ signals) = (refl, tt, omega arith)
batches-Coalesced (suc n) (arrived e ∷ signals) =
    batch-Coalesced n e signals (batches-Coalesced n (collect 4095 (e ∷ []) signals).1)
