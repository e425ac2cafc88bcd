-- ===== src/WriteQueue/Git.antt =====
-- How crates/engine/src/write_queue.rs runs git: one subprocess for each argv, with its output
-- captured. The working directory and the environment of `base_git_command` are the same for every
-- call and belong to the host.
use git_bamboo.Prelude.{
  Option, none, some, List, [], ◌∷◌, ◌++◌, map, if◌then◌else◌, Act, pure, fail, ◌>>=◌, Result, ok,
  err,
}
use git_bamboo.Prelude.Text.{Text, codes, trim, Debug, debug_slice}
use git_bamboo.Protocol.{Error, plain, structured, Fault, raised, panicked, BambooError}
use git_bamboo.Host.{Output, Spawned, not_run, finished, died, Host, Run}
use git_bamboo.WriteQueue.Redact.{redact_credentials}

abbrev pub Git : Host → Type 0 → Type 0
Git h A = Act (Run h) Fault A

module _ {S A : Type 0} where
  unfoldable pub bail : Text → Act S Fault A
  unfolding fail
  bail msg = fail (raised (plain msg))

  unfoldable pub reject : BambooError → Act S Fault A
  unfolding fail
  reject e = fail (raised (structured e))

  -- `?` on a plain result
  unfoldable pub attempt : Result Error A → Act S Fault A
  unfolding pure fail
  attempt (ok a) = pure a
  attempt (err e) = fail (raised e)

  abbrev pub handle : Result Fault A → S → Result Fault (Result Error A) × S
  handle (ok a) s = (ok (ok a), s)
  handle (err (raised e)) s = (ok (err e), s)
  handle (err panicked) s = (err panicked, s)

  -- the result of an action as a value; a panic is not caught
  unfoldable pub caught : Act S Fault A → Act S Fault (Result Error A)
  caught m s = handle (m s).0 (m s).1

  -- `none` is a slice that panics
  unfoldable pub or_panic : Option A → Act S Fault A
  unfolding pure fail
  or_panic (some a) = pure a
  or_panic none = fail panicked

abbrev pub spawn_result : Spawned → Result Fault Output
spawn_result (not_run msg) = err (raised (plain msg))
spawn_result (finished out) = ok out
spawn_result died = err panicked

-- `literal_pathspecs`
unfoldable pub literal_pathspecs : List Text → List Text
literal_pathspecs paths = map (λ p. codes ":(literal)" ++ p) paths

-- what `run_git_checked` adds to its arguments
unfoldable pub path_args : List Text → List Text
unfolding literal_pathspecs
path_args [] = []
path_args (p ∷ ps) = codes "--" ∷ literal_pathspecs (p ∷ ps)

pub checked_failure : Debug → List Text → Text → Text
checked_failure d args stderr =
    codes "git " ++ (debug_slice d args ++ (codes " failed: " ++ trim (redact_credentials stderr)))

abbrev first_or_default : List Text → Text
first_or_default [] = []
first_or_default (t ∷ ts) = t

pub timeout_failure : List Text → Text
timeout_failure argv =
    codes "git "
    ++ (first_or_default argv ++ codes " timed out after 600 seconds (network command killed)")

abbrev within_result : List Text → Option Spawned → Result Fault Output
within_result argv none = err (raised (plain (timeout_failure argv)))
within_result argv (some s) = spawn_result s

-- the display form of an output: redacted and trimmed
unfoldable pub display : Output → Text
display out = redact_credentials (trim (out.stdout ++ out.stderr))

module _ (h : Host) where
  -- `run_git_raw`
  unfoldable pub run_git_raw : List Text → Git h Output
  run_git_raw argv r =
      let (s, w) = h.git argv r.world in
      (spawn_result s, record r { world = w; trace = r.trace ++ argv ∷ [] })

  -- `run_git_network`
  unfoldable pub run_git_network : List Text → Git h Output
  run_git_network argv r =
      let (s, w) = h.git_within argv r.world in
      (within_result argv s, record r { world = w; trace = r.trace ++ argv ∷ [] })

  -- `run_git_checked`
  unfoldable pub run_git_checked : List Text → List Text → Git h Text
  unfolding run_git_raw path_args
  run_git_checked args paths = do
    out ← run_git_raw (args ++ path_args paths)
    if out.success
        then pure (out.stdout ++ out.stderr)
        else bail (checked_failure h.debug args out.stderr)
