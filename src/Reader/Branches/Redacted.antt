-- ===== src/Reader/Branches/Redacted.antt =====
-- About the URLs that `read_remotes` of crates/engine/src/gix_read.rs answers with.
use mathlib.Core.Path.{subst}
use git_bamboo.Prelude.{
  ℕ, suc, Bool-cases, Option, none, some, List, [], ◌∷◌, All, is_empty, Result, ok, err, Act, Post,
  Post-pure, Post-if, Post-bind, ◌≡◌, inl, inr,
}
use git_bamboo.Prelude.Text.{Text, codes, lines}
use git_bamboo.Protocol.{Error}
use git_bamboo.Protocol.Answers.{RemoteInfo}
use git_bamboo.Host.{Output}
use git_bamboo.WriteQueue.Redact.{redact_credentials}
use git_bamboo.WriteQueue.Redact.Idempotent.{redact_idem}
use git_bamboo.Cache.Store.{Redb}
use git_bamboo.Reader.{Repository, Reading, on_repo}
use git_bamboo.Reader.Branches.{
  map_redact, url_of, remotes_from, read_config, read_remotes, run_git_stdout_lines, first_line,
}

-- redaction finds nothing more in the URL
abbrev pub IsRedacted : Option Text → Type 0
IsRedacted none = Unit
IsRedacted (some url) = redact_credentials url ≡ url

map_redact-IsRedacted : (o : Option Text) → IsRedacted (map_redact o)
map_redact-IsRedacted none = tt
map_redact-IsRedacted (some l) = redact_idem l

url_of-IsRedacted : (out : Output) → IsRedacted (url_of out)
unfolding url_of
url_of-IsRedacted out = elim (Bool-cases out.success) [
  | inl y ↦ rw y (map_redact-IsRedacted (first_line (lines out.stdout)))
  | inr n ↦ rw n tt
]

abbrev Redacted : {S : Type 0} → Result Error (List RemoteInfo) → S → Type 0
Redacted (ok remotes) s = All (λ i. IsRedacted i.url) remotes
Redacted (err e) s = Unit

module _ (p : Repository) (r : Redb) where
  abbrev Any : Reading p r → Type 0
  Any s = Unit

  abbrev Whatever : {A : Type 0} → Result Error A → Reading p r → Type 0
  Whatever x s = Unit

  anything : {A : Type 0} (m : Act (Reading p r) Error A) → Post Any m Whatever
  anything m = record { at = λ s h. tt }

  remotes_from-Redacted :
      (d : Option Text) (idx : ℕ) (names : List Text)
      → Post Any (remotes_from p r d idx names) Redacted
  unfolding remotes_from
  remotes_from-Redacted d idx [] = Post-pure [] (λ s h. tt)
  remotes_from-Redacted d idx (name ∷ names) =
      Post-bind (on_repo p r _) _ (anything (on_repo p r _))
        (λ out.
          Post-bind (remotes_from p r d (suc idx) names) _ (remotes_from-Redacted d (suc idx) names)
            (λ remotes. Post-pure _ (λ s v. (url_of-IsRedacted out, v))) (λ e s q. tt))
        (λ e s q. tt)

  read_remotes-Redacted : Post Any (read_remotes p r) Redacted
  unfolding read_remotes
  read_remotes-Redacted =
      Post-bind (run_git_stdout_lines p r (codes "remote" ∷ [])) _ (anything _)
        (λ names.
          Post-if (is_empty names) _ _ (λ _. Post-pure [] (λ s h. tt))
            (λ _.
              Post-bind (read_config p r (codes "remote.default")) _ (anything _)
                (λ d. remotes_from-Redacted d 0 names) (λ e s q. tt)))
        (λ e s q. tt)

-- Redacting the URL of a remote that is answered changes nothing: none has userinfo left that the
-- redaction knows.
pub read_remotes-IsRedacted :
    (p : Repository) (r : Redb) (s : Reading p r) (remotes : List RemoteInfo)
    → (read_remotes p r s).0 ≡ ok remotes
    → All (λ i. IsRedacted i.url) remotes
read_remotes-IsRedacted p r s remotes h =
    subst (λ x. Redacted x (read_remotes p r s).1) h ((read_remotes-Redacted p r).at s tt)
