-- ===== src/Exec/Gives.antt =====
-- What is true of every value that an action returns, one rule for each way to build an action.
use mathlib.Core.Path.{subst}
use capi_noplane.Prelude.{String, List, Bool, true, false, ◌≡◌, refl, if◌then◌else◌}
use capi_noplane.Errors.{Arg, Error, Result, ok, err, panic}
use capi_noplane.Exec.{Op, call, or_wrap, wrap_result, Sys, Exec, pure, fail, continue, ◌>>=◌}

pub record Gives {W Ev A : Type 0} (Q : A → Type 0) (m : Exec W Ev A) : Type 0 where
  pub at : (s : Sys W Ev) (a : A) → (m s).0 ≡ ok a → Q a

holds_at : {A : Type 0} (Q : A → Type 0) (a b : A) → Q a → ok a ≡ ok b → Q b
holds_at Q a b q e = subst Q (cc e) q

module _ {W Ev A : Type 0} {Q : A → Type 0} where
  pub Gives-pure : (a : A) → Q a → Gives {W = W} {Ev = Ev} Q (pure a)
  unfolding pure
  Gives-pure a q = record { at = λ s b e. holds_at Q a b q e }

  pub Gives-fail : (e : Error) → Gives {W = W} {Ev = Ev} Q (fail e)
  unfolding fail
  Gives-fail e = record { at = λ s b h. cc h }

  pub Gives-if :
      (b : Bool) (m n : Exec W Ev A)
      → (b ≡ true → Gives Q m)
      → (b ≡ false → Gives Q n)
      → Gives Q (if b then m else n)
  Gives-if true m n km kn = km refl
  Gives-if false m n km kn = kn refl

module _ {W Ev A B : Type 0} {Q : B → Type 0} where
  continue_gives :
      (r : Result A) (f : A → Exec W Ev B) (s : Sys W Ev)
      → ((a : A) → r ≡ ok a → Gives Q (f a))
      → (b : B) → (continue r f s).0 ≡ ok b
      → Q b
  continue_gives (ok a) f s k b e = (k a refl).at s b e
  continue_gives (err x) f s k b e = cc e
  continue_gives panic f s k b e = cc e

  pub Gives-bind :
      (m : Exec W Ev A) (f : A → Exec W Ev B) → ((a : A) → Gives Q (f a)) → Gives Q (m >>= f)
  unfolding ◌>>=◌
  Gives-bind m f k = record { at = λ s b e. continue_gives (m s).0 f (m s).1 (λ a _. k a) b e }

  -- The rest of a block may use what is known of the results of `m`.
  pub Gives-bind-Gives :
      (R : A → Type 0) (m : Exec W Ev A) (f : A → Exec W Ev B)
      → Gives R m
      → ((a : A) → R a → Gives Q (f a))
      → Gives Q (m >>= f)
  unfolding ◌>>=◌
  Gives-bind-Gives R m f g k = record {
    at = λ s b e. continue_gives (m s).0 f (m s).1 (λ a h. k a (g.at s a h)) b e;
  }

wrapped_ok :
    {A : Type 0} (fmt : String) (args : List Arg) (r : Result A) (a : A)
    → wrap_result fmt args r ≡ ok a
    → r ≡ ok a
wrapped_ok fmt args (ok x) a e = e
wrapped_ok fmt args (err x) a e = cc e
wrapped_ok fmt args panic a e = cc e

module _ {W Ev A : Type 0} {Q : A → Type 0} where
  pub Gives-call :
      (ev : Ev) (op : Op W A) → ((w : W) (a : A) → (op w).0 ≡ ok a → Q a) → Gives Q (call ev op)
  unfolding call
  Gives-call ev op k = record { at = λ s a e. k s.world a e }

  pub Gives-or_wrap :
      (fmt : String) (args : List Arg) (m : Exec W Ev A) → Gives Q m → Gives Q (or_wrap fmt args m)
  unfolding or_wrap
  Gives-or_wrap fmt args m k = record { at = λ s a e. k.at s a (wrapped_ok fmt args (m s).0 a e) }

pub ruleset gives_rules = (Gives-pure, Gives-fail, Gives-if, Gives-bind)

-- For blocks whose last call decides.
pub ruleset gives_call_rules = (Gives-pure, Gives-fail, Gives-if, Gives-call, Gives-or_wrap)
