-- ===== src/Gitdir/Fingerprint.antt =====
-- About `repo_fingerprint` of crates/engine/src/gitdir.rs: what it tells apart.
use git_bamboo.Prelude.{false, [], ◌∷◌, ◌++◌, ◌≡◌, arith}
use git_bamboo.Prelude.Text.{Text, has}
use git_bamboo.Gitdir.{Surroundings, head_of, heads_of, repo_fingerprint}

first_newline :
    (a b x y : Text)
    → has b'\n' a ≡ false
    → has b'\n' b ≡ false
    → a ++ b'\n' ∷ x ≡ b ++ b'\n' ∷ y
    → (a ≡ b) × (x ≡ y)
first_newline [] [] x y h k e = ground arith
first_newline [] (d ∷ b) x y h k e = ground arith
first_newline (c ∷ a) [] x y h k e = ground arith
first_newline (c ∷ a) (d ∷ b) x y h k e = ground (arith, first_newline a b x y)

-- If git prints the id of HEAD on one line, then two states of a repository that have the same
-- fingerprint have the same HEAD and the same list of branches with their commits.
pub repo_fingerprint-tells :
    (s : Surroundings) (v w : s.World)
    → has b'\n' (head_of s v) ≡ false
    → has b'\n' (head_of s w) ≡ false
    → (repo_fingerprint s v).0 ≡ (repo_fingerprint s w).0
    → (head_of s v ≡ head_of s w) × (heads_of s v ≡ heads_of s w)
unfolding repo_fingerprint
repo_fingerprint-tells s v w h k e =
    first_newline (head_of s v) (head_of s w) (heads_of s v) (heads_of s w) h k e
