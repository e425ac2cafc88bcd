-- ===== src/WriteQueue/Validate/Refspecs.antt =====
-- Names that pass one check of crates/engine/src/write_queue.rs or undo.rs, and what follows for git.
use git_bamboo.Prelude.{true, [], ◌∷◌, ◌++◌, ◌≡◌, ◌≢◌, refl, arith, ok}
use git_bamboo.Prelude.Text.{Text, last_is, Debug}
use git_bamboo.WriteQueue.Validate.{validate_pushspec}

last_colon : (src : Text) → last_is b':' (src ++ b':' ∷ []) ≡ true
last_colon [] = refl
last_colon (c ∷ []) = refl
last_colon (c ∷ d ∷ src) = last_colon (d ∷ src)

-- No push specification that is accepted begins with a colon, so that its source is empty, or ends in
-- one, so that its destination is.
pushspec_sides :
    (d : Debug) (spec : Text)
    → validate_pushspec d spec ≡ ok tt
    → ((dst : Text) → spec ≢ b':' ∷ dst) × ((src : Text) → spec ≢ src ++ b':' ∷ [])
unfolding validate_pushspec
pushspec_sides d spec h = (starts, ends)
  where
    starts : (dst : Text) → spec ≢ b':' ∷ dst
    starts dst e = let h' = rw e at h in cc h'

    ends : (src : Text) → spec ≢ src ++ b':' ∷ []
    ends src e = let last : last_is b':' spec ≡ true = rw e (last_colon src) in ground (arith, last)
