-- ===== src/Graph/Limits.antt =====
-- About the number of rows that `read_graph_page` of crates/engine/src/gix_read.rs answers with.
use mathlib.Core.Path.{subst}
use git_bamboo.Prelude.{
  ℕ, ◌≤◌, Result, ok, err, length, Act, Preserves, Post, Post-if, Post-fail, Post_mono, Post-bind,
  ◌≡◌,
}
use git_bamboo.Protocol.{Error, GraphViewport, GraphPage}
use git_bamboo.Cache.{Codec, invalidate_on_epoch_change}
use git_bamboo.Cache.Store.{Redb}
use git_bamboo.Graph.{read_graph_page, is_stale}
use git_bamboo.Graph.Guards.{Kept, Looked, Answered, Answered-behind, read_body-Answered}
use git_bamboo.Reader.{Repository, Reading, read_epoch, on_cache}

module _ (p : Repository) (r : Redb) (c : Codec) where
  abbrev Anything : Reading p r → Type 0
  Anything s = Unit

  abbrev Limited : GraphViewport → Result Error GraphPage → Reading p r → Type 0
  Limited v (ok page) s = length page.commits ≤ v.limit
  Limited v (err e) s = Unit

  anything : {A : Type 0} (m : Act (Reading p r) Error A) → Preserves Anything m
  anything m = record { at = λ s h. tt }

  Answered-Limited :
      (n : ℕ) (v : GraphViewport) (x : Result Error GraphPage) (s : Reading p r)
      → Answered p r c n v Anything x s
      → Limited v x s
  Answered-Limited n v (ok page) s (e, l, h) = l
  Answered-Limited n v (err e) s h = tt

  read_epoch-Looked : (n : ℕ) → Post Anything (read_epoch p r) (Looked p r c n Anything)
  unfolding read_epoch
  read_epoch-Looked n = record { at = λ s h e. tt }

  Anything-Kept : (n : ℕ) → Kept p r c n Anything
  Anything-Kept n = record {
    looked = read_epoch-Looked n;
    repo = λ A m. record { at = λ s h. tt };
    metas_read = λ ids. record { at = λ s h. tt };
    metas_stored = λ entries. record { at = λ s h. tt };
    lanes_stored = λ lanes. record { at = λ s h. tt };
  }

  read_graph_page-Limited :
      (v : GraphViewport) → Post Anything (read_graph_page p r c v) (Limited v)
  unfolding read_graph_page
  read_graph_page-Limited v =
      Post-bind {Q = λ _ s. Anything s} (read_epoch p r) _ (record { at = λ s h. tt })
        (λ n.
          Post-if (is_stale v.epoch n) _ _ (λ _. Post-fail _ (λ s h. tt))
            (λ _.
              Post_mono _
                (Answered-behind p r c n v Anything (Anything-Kept n)
                  (on_cache p r (invalidate_on_epoch_change r n)) _
                  (anything (on_cache p r (invalidate_on_epoch_change r n)))
                  (λ _. read_body-Answered p r c n v Anything (Anything-Kept n)))
                (Answered-Limited n v)))
        (λ e s q. tt)

  -- A page has at most as many rows as the viewport asks for.
  pub read_graph_page-limit :
      (v : GraphViewport) (s : Reading p r) (page : GraphPage)
      → (read_graph_page p r c v s).0 ≡ ok page
      → length page.commits ≤ v.limit
  read_graph_page-limit v s page i =
      subst (λ x. Limited v x (read_graph_page p r c v s).1) i ((read_graph_page-Limited v).at s tt)
