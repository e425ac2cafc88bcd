-- ===== src/Graph/Current.antt =====
-- The epoch guards of `read_graph_page` in crates/engine/src/gix_read.rs.
use git_bamboo.Prelude.{ℕ, All, Result, ok, err, ◌≡◌, ◌⊎◌}
use git_bamboo.Protocol.{Error, GraphViewport, GraphPage}
use git_bamboo.Cache.{Codec}
use git_bamboo.Cache.Store.{Redb}
use git_bamboo.Reader.{Repository, Reading}

module _ (p : Repository) (r : Redb) (c : Codec) where
  -- every value read from the counter so far is `n`
  abbrev Seen : ℕ → Reading p r → Type 0
  Seen n s = All (λ e. e ≡ n) s.seen

  abbrev Served : GraphViewport → Result Error GraphPage → Reading p r → Type 0
  Served v (ok page) s = All (λ e. e ≡ page.epoch) s.seen × ((v.epoch ≡ 0) ⊎ (v.epoch ≡ page.epoch))
  Served v (err e) s = Unit
