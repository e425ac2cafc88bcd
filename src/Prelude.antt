-- ===== src/Prelude.antt =====
-- The names that every module shares: the libraries' names, passed on, the Boolean tests, lists
-- measured by native numbers, results, and texts as lists of code points.
mod Tests
mod Lists
mod Results
mod Posts
pub mod Text
pub mod Maps
pub mod Numbers
pub use Tests.*
pub use Lists.*
unfoldable pub use Results.{pure, fail, ◌>>=◌}
pub use Results.*
pub use Posts.*
pub use Prim.Native.Nat.{ℕ, zero, suc, ◌+◌, ◌-◌, ◌*◌, ◌/◌, ◌%◌, ◌^◌, ◌≤◌, ◌<◌}
pub use Prim.Native.String.{String}
pub use mathlib.Core.Path.{◌≡◌, refl, sym, ap, ◌∙◌}
pub use mathlib.Core.Logic.{◌≢◌, ◌↔◌, ◌⊎◌, inl, inr}
pub use mathlib.Core.Bool.{Bool, true, false, not, ◌&&◌, ◌||◌}
pub use mathlib.Core.Option.{Option, none, some}
pub use mathlib.Core.List.{List, [], ◌∷◌, ◌++◌, map, reverse, append-nil, append_assoc}
pub use native.Mathlib.Omega.{arith}
