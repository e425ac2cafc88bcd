-- ===== src/Prelude/Maps.antt =====
-- `HashMap` with text keys, as a list of entries of which the first with a key counts. The engine
-- never iterates over one, so the order of the entries is not observed.
use mathlib.Core.Path.{◌≡◌, refl}
use mathlib.Core.List.{List, [], ◌∷◌}
use mathlib.Core.Option.{Option, none, some}
use git_bamboo.Prelude.Tests.{if◌then◌else◌}
use git_bamboo.Prelude.Text.{Text, eq, eq_refl}

abbrev pub Map : Type 0 → Type 0
Map V = List (Text × V)

module _ {V : Type 0} where
  -- `get`
  unfoldable pub get : Text → Map V → Option V
  get k [] = none
  get k ((q, v) ∷ m) = let rest = get k m in if eq k q then some v else rest

  -- `insert`
  unfoldable pub insert : Text → V → Map V → Map V
  insert k v m = (k, v) ∷ m

  pub get-insert :
      (k q : Text) (v : V) (m : Map V) → get q (insert k v m) ≡ (if eq q k then some v else get q m)
  unfolding get insert
  get-insert k q v m = refl

  pub get-insert_same : (k : Text) (v : V) (m : Map V) → get k (insert k v m) ≡ some v
  unfolding get insert
  get-insert_same k v m = rw (eq_refl k) refl
