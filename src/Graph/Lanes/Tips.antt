-- ===== src/Graph/Lanes/Tips.antt =====
-- Which lane a commit without children gets in crates/engine/src/gix_read.rs, and which one a commit
-- with several.
use Prim.Native.Nat.{min}
use git_bamboo.Prelude.{
  ℕ, suc, ◌<◌, true, leb, Bool-cases, Option, none, some, is_some, List, [], ◌∷◌, ◌++◌, length,
  length-append, All, ◌≡◌, refl, sym, ap, ◌∙◌, arith, inl, inr,
}
use git_bamboo.Prelude.Text.{Text}
use git_bamboo.Graph.Lanes.{
  Lanes, Chosen, max_lanes, behind, take_free, push_lane, found_or_push, tip_lane, sort_in, sort,
  leftmost, merge_lane,
}

-- The lowest lane that is free, or a new one behind all others, is taken by a commit: the lanes in
-- front of it are occupied, and no other lane changes.
pub data Lowest (id : Text) (lanes : Lanes) (l : ℕ) (lanes' : Lanes) : Type 0 where
  reuses :
      (front back : Lanes)
      → All (λ slot. is_some slot ≡ true) front
      → lanes ≡ front ++ none ∷ back
      → l ≡ length front
      → lanes' ≡ front ++ some id ∷ back
      → Lowest id lanes l lanes'
  appends :
      All (λ slot. is_some slot ≡ true) lanes
      → l ≡ length lanes
      → lanes' ≡ lanes ++ some id ∷ []
      → Lowest id lanes l lanes'

-- what the search for a free lane tells
abbrev Searched : Text → Lanes → Option Chosen → Type 0
Searched id lanes none = All (λ slot. is_some slot ≡ true) lanes
Searched id lanes (some (l, lanes')) =
    (front : Lanes) × (back : Lanes) × All (λ slot. is_some slot ≡ true) front
    × (lanes ≡ front ++ none ∷ back)
    × (l ≡ length front)
    × (lanes' ≡ front ++ some id ∷ back)

behind-Searched :
    (id q : Text) (lanes : Lanes) (o : Option Chosen)
    → Searched id lanes o
    → Searched id (some q ∷ lanes) (behind (some q) o)
behind-Searched id q lanes none v = (refl, v)
behind-Searched id q lanes (some (l, lanes')) (front, back, v, e, f, g) =
    (some q ∷ front, back, (refl, v), ap (◌∷◌ (some q)) e, ap suc f, ap (◌∷◌ (some q)) g)

take_free-Searched : (id : Text) (lanes : Lanes) → Searched id lanes (take_free id lanes)
unfolding take_free
take_free-Searched id [] = tt
take_free-Searched id (none ∷ lanes) = ([], lanes, tt, refl, refl, refl)
take_free-Searched id (some q ∷ lanes) =
    behind-Searched id q lanes (take_free id lanes) (take_free-Searched id lanes)

push_lane-small :
    (id : Text) (lanes : Lanes)
    → length lanes < max_lanes
    → push_lane id lanes ≡ (length lanes, lanes ++ some id ∷ [])
unfolding push_lane
push_lane-small id lanes h = ground arith

lowest :
    (id : Text) (lanes : Lanes) (o : Option Chosen)
    → length lanes < max_lanes
    → Searched id lanes o
    → Lowest id lanes (found_or_push id lanes o).0 (found_or_push id lanes o).1
lowest id lanes none h v =
    let e = push_lane-small id lanes h in appends v (ap (λ c. c.0) e) (ap (λ c. c.1) e)
lowest id lanes (some (l, lanes')) h (front, back, v, e, f, g) =
    let k = ap length e ∙ length-append front (none ∷ back) in
    reuses front back v e (omega (arith, f, k, h)) g

-- While there are fewer than 65535 lanes, a commit without children takes the lowest free lane, or a
-- new one behind all others if none is free, and the other lanes stay as they are.
pub tip_lane-Lowest :
    (id : Text) (lanes : Lanes)
    → length lanes < max_lanes
    → Lowest id lanes (tip_lane id lanes).0 (tip_lane id lanes).1
unfolding tip_lane
tip_lane-Lowest id lanes h = lowest id lanes (take_free id lanes) h (take_free-Searched id lanes)

abbrev pub minimum : ℕ → List ℕ → ℕ
minimum x [] = x
minimum x (y ∷ ys) = min x (minimum y ys)

sort_in-head : (x k : ℕ) (ks : List ℕ) → (rest : List ℕ) × (sort_in x (k ∷ ks) ≡ min x k ∷ rest)
sort_in-head x k ks = elim (Bool-cases (leb x k)) [
  | inl y ↦ let e : min x k ≡ x = ground arith in (k ∷ ks, rw y (ap (λ m. m ∷ k ∷ ks) (sym e)))
  | inr n ↦
      let e : min x k ≡ k = ground arith in
      (sort_in x ks, rw n (ap (λ m. m ∷ sort_in x ks) (sym e)))
]

sort-head : (x : ℕ) (xs : List ℕ) → (rest : List ℕ) × (sort (x ∷ xs) ≡ minimum x xs ∷ rest)
unfolding sort
sort-head x [] = ([], refl)
sort-head x (y ∷ ys) =
    let (rest, e) = sort-head y ys in
    let (rest', f) = sort_in-head x (minimum y ys) rest in (rest', ap (sort_in x) e ∙ f)

-- Of several children's known lanes, a commit takes the least.
pub merge_lane-minimum :
    (id : Text) (x : ℕ) (xs : List ℕ) (lanes : Lanes)
    → (merge_lane id (x ∷ xs) lanes).0 ≡ minimum x xs
unfolding merge_lane
merge_lane-minimum id x xs lanes = ap (λ ls. (leftmost id lanes ls).0) (sort-head x xs).1
