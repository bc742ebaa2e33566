-- ===== src/DeepCopy/Pieces.antt =====
-- The pieces of the objects: cells of an int32, what other types point at, arrays.
use capi_noplane.Prelude.{ℕ, ◌≤◌, ◌<◌, ◌≡◌, refl, ap, Option, none, some, arith, nat_eq, beq_refl}
use capi_noplane.Prelude.Int.{ℤ}
use capi_noplane.DeepCopy.Memory.{Memory, Pointer, put}
use capi_noplane.DeepCopy.Copies.{copy_int, on_foreign}
use capi_noplane.DeepCopy.Kinds.{Extends, Kind, IsDeepCopy, Copies}

-- A copy of another type is as the original, points at nothing that was there, and writes nothing that
-- was there. `Later f f'` says that `f'` has all that the memory `f` had, `see` is how a value looks
-- in a memory, `Valid` that it points at what is there, `Fresh f0 f x` that in the memory f it
-- points at nothing that f0 had, and `Writes f x f'` that f' is f after writes through x.
pub record ForeignLaw {F X : Type 0} (V : Type 0) (Later : F → F → Type 0) (copy : X → F → X × F)
    : Type 1 where
  pub see : F → X → V
  pub Valid : F → X → Type 0
  pub Fresh : F → F → X → Type 0
  pub Writes : F → X → F → Type 0
  pub grown : (x : X) (f : F) → Later f (copy x f).1
  pub copied : (x : X) (f : F) → Valid f x → see (copy x f).1 (copy x f).0 ≡ see f x
  pub copied_valid : (x : X) (f : F) → Valid f x → Valid (copy x f).1 (copy x f).0
  pub copied_fresh : (x : X) (f : F) → Valid f x → Fresh f (copy x f).1 (copy x f).0
  pub kept : (x : X) (f f' : F) → Later f f' → Valid f x → see f' x ≡ see f x
  pub still_valid : (x : X) (f f' : F) → Later f f' → Valid f x → Valid f' x
  pub still_fresh : (x : X) (f0 f f' : F) → Later f f' → Valid f x → Fresh f0 f x → Fresh f0 f' x
  pub lower : (x : X) (f0 f1 f : F) → Later f0 f1 → Fresh f1 f x → Fresh f0 f x
  -- Writes through a value that is new leave what was there.
  pub apart : (x : X) (f0 f f' : F) → Later f0 f → Fresh f0 f x → Writes f x f' → Later f0 f'

abbrev pub Below : ℕ → Pointer → Type 0
Below n none = Unit
Below n (some a) = a < n

abbrev pub AtLeast : ℕ → Pointer → Type 0
AtLeast n none = Unit
AtLeast n (some a) = n ≤ a

pub Below-le : (n n' : ℕ) (p : Pointer) → n ≤ n' → Below n p → Below n' p
Below-le n n' none le h = tt
Below-le n n' (some a) le h = omega arith

pub AtLeast-le : (n n' : ℕ) (p : Pointer) → n ≤ n' → AtLeast n' p → AtLeast n p
AtLeast-le n n' none le h = tt
AtLeast-le n n' (some a) le h = omega arith

pub put_here : {A : Type 0} (a : ℕ) (x : A) (m : ℕ → A) → put a x m a ≡ x
put_here a x m = ground (arith, beq_refl a)

pub put_below : {A : Type 0} (a b : ℕ) (x : A) (m : ℕ → A) → b < a → put a x m b ≡ m b
put_below a b x m lt = ground (arith, nat_eq.beq_iff b a)

module _ {F : Type 0} (K A : Type 0) (Later : F → F → Type 0) (same : (f : F) → Later f f) where
  abbrev pub int_at : Memory F K A → Pointer → Option ℤ
  int_at m none = none
  int_at m (some a) = some (m.ints a)

  pub int_stable :
      (m m' : Memory F K A) (p : Pointer)
      → Extends K A Later m m'
      → Below m.next p
      → int_at m' p ≡ int_at m p
  int_stable m m' none e h = refl
  int_stable m m' (some a) e h = ap some (e.ints a h)

  abbrev pub IntCell : Kind K A Later Pointer (Option ℤ)
  IntCell = record {
    view = int_at;
    Valid = λ m p. Below m.next p;
    Fresh = λ b m p. AtLeast b.next p;
    stable = λ m m' p e h. (int_stable m m' p e h, Below-le m.next m'.next p e.grown h);
    still = λ b m m' p e v h. h;
    lower = λ b b' m p e h. AtLeast-le b.next b'.next p e.grown h;
  }

  copy_int-IsDeepCopy :
      (p : Pointer) (m : Memory F K A)
      → Below m.next p
      → IsDeepCopy K A Later IntCell m p (copy_int p m)
  unfolding copy_int
  copy_int-IsDeepCopy none m h = record {
    extends = record {
      grown = omega arith;
      ints = λ a lt. refl;
      conditions = λ a lt. refl;
      items = λ a lt. refl;
      foreign = same m.foreign;
    };
    same = refl;
    valid = tt;
    fresh = tt;
  }
  copy_int-IsDeepCopy (some a) m h = record {
    extends = record {
      grown = omega arith;
      ints = λ b lt. put_below m.next b (m.ints a) m.ints lt;
      conditions = λ b lt. refl;
      items = λ b lt. refl;
      foreign = same m.foreign;
    };
    same = ap some (put_here m.next (m.ints a) m.ints);
    valid = omega arith;
    fresh = omega arith;
  }

  pub copy_int-Copies : Copies K A Later IntCell copy_int
  copy_int-Copies = record { at = copy_int-IsDeepCopy }

  module _ {X V : Type 0} (copy : X → F → X × F) (law : ForeignLaw V Later copy) where
    abbrev pub Foreign : Kind K A Later X V
    Foreign = record {
      view = λ m x. law.see m.foreign x;
      Valid = λ m x. law.Valid m.foreign x;
      Fresh = λ b m x. law.Fresh b.foreign m.foreign x;
      stable = λ m m' x e h. (
        law.kept x m.foreign m'.foreign e.foreign h,
        law.still_valid x m.foreign m'.foreign e.foreign h,
      );
      still = λ b m m' x e v h. law.still_fresh x b.foreign m.foreign m'.foreign e.foreign v h;
      lower = λ b b' m x e h. law.lower x b.foreign b'.foreign m.foreign e.foreign h;
    }

    pub on_foreign-Copies : Copies K A Later Foreign (on_foreign copy)
    on_foreign-Copies = record {
      at = λ x m h. record {
        extends = record {
          grown = omega arith;
          ints = λ a lt. refl;
          conditions = λ a lt. refl;
          items = λ a lt. refl;
          foreign = law.grown x m.foreign;
        };
        same = law.copied x m.foreign h;
        valid = law.copied_valid x m.foreign h;
        fresh = law.copied_fresh x m.foreign h;
      };
    }
