-- ===== src/Errors/Monad.antt =====
-- Chains of fallible steps with no effect: an error or a panic ends the chain.
use capi_noplane.Errors.{Result, ok, err, panic}

infixl 5 ◌>>=◌
abbrev pub ◌>>=◌ : {A B : Type 0} → Result A → (A → Result B) → Result B
ok a >>= f = f a
err e >>= f = err e
panic >>= f = panic

abbrev pub map_result : {A B : Type 0} → (A → B) → Result A → Result B
map_result f (ok a) = ok (f a)
map_result f (err e) = err e
map_result f panic = panic
