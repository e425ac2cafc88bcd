-- ===== src/Graph/Lanes/Children.antt =====
-- The children map of crates/engine/src/gix_read.rs against the parents that the commits name.
use git_bamboo.Prelude.{Bool, ◌&&◌, ◌||◌, List, [], ◌∷◌, ◌++◌, any, ◌≡◌, refl, arith}
use git_bamboo.Prelude.Text.{Text, eq}
use git_bamboo.Protocol.{Commit}
use git_bamboo.Graph.Lanes.{Children, push_child, push_children, add_children, children_of}

abbrev is_among : Text → List Text → Bool
is_among q ts = any (eq q) ts

among-append :
    (q : Text) (ts us : List Text) → is_among q (ts ++ us) ≡ (is_among q ts || is_among q us)
among-append q [] us = refl
among-append q (t ∷ ts) us = ground (arith, among-append q ts us)

push_child-among :
    (parent_id id q k : Text) (children : Children)
    → is_among k (push_child parent_id id children q)
      ≡ (is_among k (children q) || (eq q parent_id && eq k id))
push_child-among parent_id id q k children = ground (arith, among-append k (children q) (id ∷ []))

push_children-among :
    (ps : List Text) (id q k : Text) (children : Children)
    → is_among k (push_children ps id children q)
      ≡ (is_among k (children q) || (is_among q ps && eq k id))
push_children-among [] id q k children = ground arith
push_children-among (p ∷ ps) id q k children = ground (
  arith,
  push_children-among ps id q k (push_child p id children),
  push_child-among p id q k children,
)

add_children-among :
    (cs : List Commit) (q k : Text) (children : Children)
    → is_among k (add_children cs children q)
      ≡ (is_among k (children q) || any (λ c. is_among q c.parent_ids && eq k c.id) cs)
unfolding add_children
add_children-among [] q k children = ground arith
add_children-among (c ∷ cs) q k children = ground (
  arith,
  add_children-among cs q k (push_children c.parent_ids c.id children),
  push_children-among c.parent_ids c.id q k children,
)

-- An id is among the children of a commit exactly if some commit of the page with that id names the
-- commit as a parent.
children_of-among :
    (cs : List Commit) (q k : Text)
    → any (eq k) (children_of cs q) ≡ any (λ c. any (eq q) c.parent_ids && eq k c.id) cs
unfolding children_of
children_of-among cs q k = add_children-among cs q k (λ p. [])
