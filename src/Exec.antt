-- ===== src/Exec.antt =====
-- Effects. A Go function that talks to the Kubernetes API or to noplane.io is an action on the world
-- outside, of an unknown type `W`, and on the list of the calls made so far with their outcomes,
-- newest first. The world is changed by nothing but the operations that the code is given, and each
-- call of one goes through `call`, so the trace is the code's whole interaction.
pub mod Emits
pub mod Gives
pub mod Keeps
use capi_noplane.Prelude.{List, ◌∷◌, String, Option, none, some}
use capi_noplane.Errors.{Arg, Error, Result, ok, err, panic, wrap}

pub data Outcome : Type 0 where
  done : Outcome
  failed : Error → Outcome
  panicked : Outcome

abbrev pub outcome : {A : Type 0} → Result A → Outcome
outcome (ok a) = done
outcome (err e) = failed e
outcome panic = panicked

pub record Sys (W Ev : Type 0) : Type 0 where
  pub world : W
  pub trace : List (Ev × Outcome)

-- An operation of the world, and an action of the code.
abbrev pub Op : Type 0 → Type 0 → Type 0
Op W A = W → Result A × W

abbrev pub Exec : Type 0 → Type 0 → Type 0 → Type 0
Exec W Ev A = Sys W Ev → Result A × Sys W Ev

abbrev pub wrap_result : {A : Type 0} → String → List Arg → Result A → Result A
wrap_result fmt args (ok a) = ok a
wrap_result fmt args (err e) = err (wrap fmt args e)
wrap_result fmt args panic = panic

-- What a call returned, where the code goes on in both cases.
pub data Caught (A : Type 0) : Type 0 where
  returned : A → Caught A
  raised : Error → Caught A

abbrev pub error_of : {A : Type 0} → Caught A → Option Error
error_of (returned a) = none
error_of (raised e) = some e

abbrev pub catch_result : {A : Type 0} → Result A → Result (Caught A)
catch_result (ok a) = ok (returned a)
catch_result (err e) = ok (raised e)
catch_result panic = panic

module _ {W Ev A : Type 0} where
  unfoldable pub pure : A → Exec W Ev A
  pure a s = (ok a, s)

  unfoldable pub fail : Error → Exec W Ev A
  fail e s = (err e, s)

  -- A function that has no effect.
  unfoldable pub lift : Result A → Exec W Ev A
  lift r s = (r, s)

  -- One call of an operation of the world, which the trace records.
  unfoldable pub call : Ev → Op W A → Exec W Ev A
  call ev op s =
      let (r, w) = op s.world in (r, record { world = w; trace = (ev, outcome r) ∷ s.trace })

  -- `if err != nil { return fmt.Errorf("...: %w", err) }`
  unfoldable pub or_wrap : String → List Arg → Exec W Ev A → Exec W Ev A
  or_wrap fmt args m s = let (r, s') = m s in (wrap_result fmt args r, s')

  -- `v, err := f()` where the code goes on with both; a panic is not caught.
  unfoldable pub attempt : Exec W Ev A → Exec W Ev (Caught A)
  attempt m s = let (r, s') = m s in (catch_result r, s')

module _ {W Ev A B : Type 0} where
  abbrev pub continue : Result A → (A → Exec W Ev B) → Exec W Ev B
  continue (ok a) f s = f a s
  continue (err e) f s = (err e, s)
  continue panic f s = (panic, s)

  infixl 5 ◌>>=◌ ◌>>◌
  -- Unfolding this unfolds the other ways to build an action.
  unfoldable pub ◌>>=◌ : Exec W Ev A → (A → Exec W Ev B) → Exec W Ev B
  unfolding pure fail lift call or_wrap attempt
  ◌>>=◌ m f s = let (r, s') = m s in continue r f s'

  abbrev pub ◌>>◌ : Exec W Ev A → Exec W Ev B → Exec W Ev B
  m >> n = m >>= λ _. n
