-- ===== src/Protocol/Errors.antt =====
-- `BambooError` of crates/protocol/src/lib.rs, and the engine's `anyhow::Error`, which either carries
-- a `BambooError` or is a plain message.
use git_bamboo.Prelude.{ℕ, suc, ◌∷◌, ◌++◌}
use git_bamboo.Prelude.Text.{Text, codes, show}

-- `negsuc n` is -(n + 1).
pub data ℤ : Type 0 where
  pos : ℕ → ℤ
  negsuc : ℕ → ℤ

pub record BambooError : Type 0 where
  pub code : ℤ
  pub message : Text

abbrev pub repo_not_found_code : ℤ
repo_not_found_code = negsuc 32000

abbrev pub git_error_code : ℤ
git_error_code = negsuc 32001

abbrev pub epoch_mismatch_code : ℤ
epoch_mismatch_code = negsuc 32003

abbrev pub invalid_argument_code : ℤ
invalid_argument_code = negsuc 32004

abbrev pub not_initialized_code : ℤ
not_initialized_code = negsuc 32005

abbrev pub undo_blocked_code : ℤ
undo_blocked_code = negsuc 32006

abbrev pub stash_conflict_code : ℤ
stash_conflict_code = negsuc 32007

abbrev pub push_rejected_code : ℤ
push_rejected_code = negsuc 32008

abbrev pub auth_required_code : ℤ
auth_required_code = negsuc 32009

unfoldable pub repo_not_found : Text → BambooError
repo_not_found msg = record { code = repo_not_found_code; message = msg }

unfoldable pub git_error : Text → BambooError
git_error msg = record { code = git_error_code; message = msg }

unfoldable pub invalid_argument : Text → BambooError
invalid_argument msg = record { code = invalid_argument_code; message = msg }

unfoldable pub not_initialized : Text → BambooError
not_initialized msg = record { code = not_initialized_code; message = msg }

epoch_mismatch_message : ℕ → ℕ → Text
epoch_mismatch_message expected actual =
    codes "epoch mismatch: expected " ++ (show expected ++ (codes ", got " ++ show actual))

unfoldable pub epoch_mismatch : ℕ → ℕ → BambooError
unfolding epoch_mismatch_message
epoch_mismatch expected actual = record {
  code = epoch_mismatch_code;
  message = epoch_mismatch_message expected actual;
}

unfoldable pub undo_blocked : Text → BambooError
undo_blocked reason = record { code = undo_blocked_code; message = reason }

unfoldable pub stash_conflict : Text → BambooError
stash_conflict msg = record { code = stash_conflict_code; message = msg }

unfoldable pub push_rejected : Text → BambooError
push_rejected msg = record { code = push_rejected_code; message = msg }

unfoldable pub auth_required : Text → BambooError
auth_required msg = record { code = auth_required_code; message = msg }

-- `anyhow::Error`
pub data Error : Type 0 where
  plain : Text → Error
  structured : BambooError → Error

show_int : ℤ → Text
show_int (pos n) = show n
show_int (negsuc n) = b'-' ∷ show (suc n)

-- Display of an error; that of a `BambooError` is by its `#[error]` attribute.
unfoldable pub to_string : Error → Text
unfolding show_int
to_string (plain msg) = msg
to_string (structured e) = codes "BambooError " ++ (show_int e.code ++ (codes ": " ++ e.message))

-- `e.downcast::<BambooError>()`, any other error degrading to a plain git error
unfoldable pub downcast_or_git_error : Error → BambooError
downcast_or_git_error (structured e) = e
downcast_or_git_error (plain msg) = git_error msg

-- How a computation stops before its end: with an error that `?` passes on, or by a panic, which no
-- handler of the engine catches.
pub data Fault : Type 0 where
  raised : Error → Fault
  panicked : Fault
