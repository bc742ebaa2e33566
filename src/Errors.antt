-- ===== src/Errors.antt =====
-- internal/api/noplane/errors.go: the error values, the two typed errors of the noplane.io API and
-- their tests, and Go's multiple results `(value, error)` with panics as a result type.
-- An `error` is kept as the call that builds it: a format with its arguments stands for the text
-- that `fmt.Errorf` would print, and `wrap` is an `fmt.Errorf` whose format ends in `%w`.
pub mod Monad
use capi_noplane.Prelude.{String, Bool, true, false, List, ℕ, Option, none, some}

-- An argument of `fmt.Errorf`.
pub data Arg : Type 0 where
  text : String → Arg
  number : ℕ → Arg

pub data Error : Type 0 where
  conflict_error : String → Error
  not_found_error : String → Error
  errorf : String → List Arg → Error
  wrap : String → List Arg → Error → Error
  -- An error value made by code outside the repository.
  external : String → Error

-- `(v, nil)`, `(_, err)` with `err != nil`, or a panic.
pub data Result {ℓ} (A : Type ℓ) : Type ℓ where
  ok : A → Result A
  err : Error → Result A
  panic : Result A

unfoldable pub new_conflict_error : String → Error
new_conflict_error name = conflict_error name

-- `err.(*ConflictError)` looks at the error itself and not at what it wraps.
unfoldable pub is_conflict : Option Error → Bool
is_conflict none = false
is_conflict (some (conflict_error name)) = true
is_conflict (some _) = false

unfoldable pub new_not_found_error : String → Error
new_not_found_error id = not_found_error id

unfoldable pub is_not_found : Option Error → Bool
is_not_found none = false
is_not_found (some (not_found_error id)) = true
is_not_found (some _) = false
