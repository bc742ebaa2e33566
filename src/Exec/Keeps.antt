-- ===== src/Exec/Keeps.antt =====
-- Invariants of the whole state, world and trace, and panics: one rule for each way to build an
-- action. `N` is what a panic may stand for: `⊥` where there must be none, `Unit` where nothing is
-- claimed of panics.
use capi_noplane.Prelude.{String, List, Bool, true, false, ◌∷◌, ◌≡◌, refl, if◌then◌else◌}
use capi_noplane.Errors.{Arg, Error, Result, ok, err, panic}
use capi_noplane.Exec.{
  outcome, Sys, Op, Exec, pure, fail, lift, call, or_wrap, wrap_result, attempt, catch_result,
  continue, ◌>>=◌,
}

-- The state after a call.
abbrev pub after : {W Ev A : Type 0} → Ev → Op W A → Sys W Ev → Sys W Ev
after ev op s = record { world = (op s.world).1; trace = (ev, outcome (op s.world).0) ∷ s.trace }

-- The action keeps the invariant, and panics only if `N`.
pub record Keeps {W Ev A : Type 0} (I : Sys W Ev → Type 0) (N : Type 0) (m : Exec W Ev A)
    : Type 0 where
  pub at : (s : Sys W Ev) → I s → I (m s).1 × ((m s).0 ≡ panic → N)

module _ {A : Type 0} where
  wrapped_panic :
      (fmt : String) (args : List Arg) (r : Result A) → wrap_result fmt args r ≡ panic → r ≡ panic
  wrapped_panic fmt args (ok a) e = cc e
  wrapped_panic fmt args (err x) e = cc e
  wrapped_panic fmt args panic e = refl

  caught_panic : (r : Result A) → catch_result r ≡ panic → r ≡ panic
  caught_panic (ok a) e = cc e
  caught_panic (err x) e = cc e
  caught_panic panic e = refl

module _ {W Ev A : Type 0} {I : Sys W Ev → Type 0} {N : Type 0} where
  pub Keeps-pure : (a : A) → Keeps I N (pure a)
  unfolding pure
  Keeps-pure a = record { at = λ s h. (h, λ e. cc e) }

  pub Keeps-fail : (e : Error) → Keeps {A = A} I N (fail e)
  unfolding fail
  Keeps-fail e = record { at = λ s h. (h, λ p. cc p) }

  pub Keeps-lift : (r : Result A) → (r ≡ panic → N) → Keeps I N (lift r)
  unfolding lift
  Keeps-lift r k = record { at = λ s h. (h, k) }

  pub Keeps-call :
      (ev : Ev) (op : Op W A)
      → ((s : Sys W Ev) → I s → I (after ev op s) × ((op s.world).0 ≡ panic → N))
      → Keeps I N (call ev op)
  unfolding call
  Keeps-call ev op k = record { at = k }

  pub Keeps-or_wrap :
      (fmt : String) (args : List Arg) (m : Exec W Ev A)
      → Keeps I N m
      → Keeps I N (or_wrap fmt args m)
  unfolding or_wrap
  Keeps-or_wrap fmt args m k = record {
    at = λ s h. let (i, n) = k.at s h in (i, λ e. n (wrapped_panic fmt args (m s).0 e));
  }

  pub Keeps-attempt : (m : Exec W Ev A) → Keeps I N m → Keeps I N (attempt m)
  unfolding attempt
  Keeps-attempt m k = record {
    at = λ s h. let (i, n) = k.at s h in (i, λ e. n (caught_panic (m s).0 e));
  }

  pub Keeps-if :
      (b : Bool) (m n : Exec W Ev A)
      → (b ≡ true → Keeps I N m)
      → (b ≡ false → Keeps I N n)
      → Keeps I N (if b then m else n)
  Keeps-if true m n km kn = km refl
  Keeps-if false m n km kn = kn refl

module _ {W Ev A B : Type 0} {I : Sys W Ev → Type 0} {N : Type 0} where
  continue-Keeps :
      (r : Result A) (f : A → Exec W Ev B) (s : Sys W Ev)
      → ((a : A) → r ≡ ok a → Keeps I N (f a))
      → I s
      → (r ≡ panic → N)
      → I (continue r f s).1 × ((continue r f s).0 ≡ panic → N)
  continue-Keeps (ok a) f s k h n = (k a refl).at s h
  continue-Keeps (err e) f s k h n = (h, λ p. cc p)
  continue-Keeps panic f s k h n = (h, λ p. n refl)

  pub Keeps-bind :
      (m : Exec W Ev A) (f : A → Exec W Ev B)
      → Keeps I N m
      → ((a : A) → Keeps I N (f a))
      → Keeps I N (m >>= f)
  unfolding ◌>>=◌
  Keeps-bind m f km kf = record {
    at = λ s h. let (i, n) = km.at s h in continue-Keeps (m s).0 f (m s).1 (λ a _. kf a) i n;
  }
  -- The rest of a block may use what is known of the results of `m`.

pub ruleset keeps_rules = (
  Keeps-pure, Keeps-fail, Keeps-lift, Keeps-call, Keeps-or_wrap, Keeps-attempt, Keeps-if,
  Keeps-bind,
)
