-- ===== src/Exec/Emits.antt =====
-- Invariants of the trace: an action that makes only calls with a property, one rule for each way to
-- build an action.
use capi_noplane.Prelude.{String, List, Bool, true, false, ◌≡◌, refl, All, if◌then◌else◌}
use capi_noplane.Errors.{Arg, Error, Result, ok, err, panic}
use capi_noplane.Exec.{
  Outcome, Sys, Op, Exec, pure, fail, lift, call, or_wrap, attempt, continue, ◌>>=◌,
}
use capi_noplane.Exec.Gives.{Gives}

-- Whatever `m` adds to a trace of entries with `P` has `P`.
pub record Emits {W Ev A : Type 0} (P : Ev × Outcome → Type 0) (m : Exec W Ev A) : Type 0 where
  pub at : (s : Sys W Ev) → All P s.trace → All P (m s).1.trace

module _ {W Ev A : Type 0} {P : Ev × Outcome → Type 0} where
  pub Emits-pure : (a : A) → Emits {W = W} P (pure a)
  unfolding pure
  Emits-pure a = record { at = λ s h. h }

  pub Emits-fail : (e : Error) → Emits {W = W} {A = A} P (fail e)
  unfolding fail
  Emits-fail e = record { at = λ s h. h }

  pub Emits-lift : (r : Result A) → Emits {W = W} P (lift r)
  unfolding lift
  Emits-lift r = record { at = λ s h. h }

  pub Emits-call : (ev : Ev) (op : Op W A) → ((o : Outcome) → P (ev, o)) → Emits P (call ev op)
  unfolding call
  Emits-call ev op k = record { at = λ s h. (k _, h) }

  pub Emits-or_wrap :
      (fmt : String) (args : List Arg) (m : Exec W Ev A) → Emits P m → Emits P (or_wrap fmt args m)
  unfolding or_wrap
  Emits-or_wrap fmt args m k = record { at = λ s h. k.at s h }

  pub Emits-attempt : (m : Exec W Ev A) → Emits P m → Emits P (attempt m)
  unfolding attempt
  Emits-attempt m k = record { at = λ s h. k.at s h }

  pub Emits-if :
      (b : Bool) (m n : Exec W Ev A)
      → (b ≡ true → Emits P m)
      → (b ≡ false → Emits P n)
      → Emits P (if b then m else n)
  Emits-if true m n km kn = km refl
  Emits-if false m n km kn = kn refl

module _ {W Ev A B : Type 0} {P : Ev × Outcome → Type 0} where
  continue_at :
      (r : Result A) (f : A → Exec W Ev B) (s : Sys W Ev)
      → ((a : A) → r ≡ ok a → Emits P (f a))
      → All P s.trace
      → All P (continue r f s).1.trace
  continue_at (ok a) f s kf h = (kf a refl).at s h
  continue_at (err e) f s kf h = h
  continue_at panic f s kf h = h

  pub Emits-bind :
      (m : Exec W Ev A) (f : A → Exec W Ev B)
      → Emits P m
      → ((a : A) → Emits P (f a))
      → Emits P (m >>= f)
  unfolding ◌>>=◌
  Emits-bind m f km kf = record {
    at = λ s h. continue_at (m s).0 f (m s).1 (λ a _. kf a) (km.at s h);
  }

  -- The rest of a block may use what is known of the results of `m`.
  pub Emits-bind-Gives :
      (Q : A → Type 0) (m : Exec W Ev A) (f : A → Exec W Ev B)
      → Gives Q m
      → Emits P m
      → ((a : A) → Q a → Emits P (f a))
      → Emits P (m >>= f)
  unfolding ◌>>=◌
  Emits-bind-Gives Q m f g km kf = record {
    at = λ s h. continue_at (m s).0 f (m s).1 (λ a e. kf a (g.at s a e)) (km.at s h);
  }

pub ruleset emits_rules = (
  Emits-pure, Emits-fail, Emits-lift, Emits-call, Emits-or_wrap, Emits-attempt, Emits-if,
  Emits-bind,
)
