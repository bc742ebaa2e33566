-- ===== src/DeepCopy/Conditions.antt =====
-- The array of conditions.
use mathlib.Core.Path.{subst}
use capi_noplane.Prelude.{
  ◌≤◌, ◌<◌, sym, ◌≡◌, refl, ◌∙◌, ap, List, [], ◌∷◌, Option, none, some, arith, nat_eq,
}
use capi_noplane.DeepCopy.Memory.{Memory, Pointer, ForeignCopies}
use capi_noplane.DeepCopy.Copies.{copy_each, copy_conditions}
use capi_noplane.DeepCopy.Kinds.{Extends, Kind, IsDeepCopy, Copies}
use capi_noplane.DeepCopy.Pieces.{ForeignLaw, put_here, put_below}

module _ {F K V : Type 0} (Later : F → F → Type 0) (same : (f : F) → Later f f)
    (trans : (f g h : F) → Later f g → Later g h → Later f h) (copy : K → F → K × F)
    (law : ForeignLaw V Later copy) where
  abbrev pub see_all : F → List K → List V
  see_all f [] = []
  see_all f (x ∷ xs) = law.see f x ∷ see_all f xs

  abbrev pub AllLive : F → List K → Type 0
  AllLive f [] = Unit
  AllLive f (x ∷ xs) = law.Valid f x × AllLive f xs

  abbrev pub AllNew : F → F → List K → Type 0
  AllNew f0 f [] = Unit
  AllNew f0 f (x ∷ xs) = law.Fresh f0 f x × AllNew f0 f xs

  see_all_kept : (xs : List K) (f f' : F) → Later f f' → AllLive f xs → see_all f' xs ≡ see_all f xs
  see_all_kept [] f f' e v = refl
  see_all_kept (x ∷ xs) f f' e (v, vs) =
      ap (λ y. y ∷ see_all f' xs) (law.kept x f f' e v)
      ∙ ap (λ ys. law.see f x ∷ ys) (see_all_kept xs f f' e vs)

  pub live_kept : (xs : List K) (f f' : F) → Later f f' → AllLive f xs → AllLive f' xs
  live_kept [] f f' e v = tt
  live_kept (x ∷ xs) f f' e (v, vs) = (law.still_valid x f f' e v, live_kept xs f f' e vs)

  new_kept :
      (xs : List K) (f0 f f' : F) → Later f f' → AllLive f xs → AllNew f0 f xs → AllNew f0 f' xs
  new_kept [] f0 f f' e v h = tt
  new_kept (x ∷ xs) f0 f f' e (v, vs) (h, hs) =
      (law.still_fresh x f0 f f' e v h, new_kept xs f0 f f' e vs hs)

  new_lower : (xs : List K) (f0 f1 f : F) → Later f0 f1 → AllNew f1 f xs → AllNew f0 f xs
  new_lower [] f0 f1 f e h = tt
  new_lower (x ∷ xs) f0 f1 f e (h, hs) = (law.lower x f0 f1 f e h, new_lower xs f0 f1 f e hs)

  pub each_grown : (xs : List K) (f : F) → Later f (copy_each copy xs f).1
  each_grown [] f = same f
  each_grown (x ∷ xs) f = trans _ _ _ (law.grown x f) (each_grown xs (copy x f).1)

  pub each_copied :
      (xs : List K) (f : F)
      → AllLive f xs
      → let (ys, f') = copy_each copy xs f in
        (see_all f' ys ≡ see_all f xs) × AllLive f' ys × AllNew f f' ys
  each_copied [] f v = (refl, tt, tt)
  each_copied (x ∷ xs) f (v, vs) =
      let (y, f') = copy x f in
      let (ys, f'') = copy_each copy xs f' in
      let one = law.grown x f in
      let more = each_grown xs f' in
      let w = law.copied_valid x f v in
      let (seen, live, new) = each_copied xs f' (live_kept xs f f' one vs) in
      (
        ap (λ z. z ∷ see_all f'' ys) (law.kept y f' f'' more w ∙ law.copied x f v)
            ∙ ap (λ zs. law.see f x ∷ zs) (seen ∙ see_all_kept xs f f' one vs),
        (law.still_valid y f' f'' more w, live),
        (law.still_fresh y f f' f'' more w (law.copied_fresh x f v), new_lower ys f f' f'' one new),
      )

  module _ (A : Type 0) where
    abbrev pub conditions_at : Memory F K A → Pointer → Option (List V)
    conditions_at m none = none
    conditions_at m (some a) = some (see_all m.foreign (m.conditions a))

    -- The array and its elements are there.
    abbrev pub LiveConditions : Memory F K A → Pointer → Type 0
    LiveConditions m none = Unit
    LiveConditions m (some a) = (a < m.next) × AllLive m.foreign (m.conditions a)

    -- The array is new, and its elements point at nothing that was there.
    abbrev pub NewConditions : Memory F K A → Memory F K A → Pointer → Type 0
    NewConditions b m none = Unit
    NewConditions b m (some a) = (b.next ≤ a) × AllNew b.foreign m.foreign (m.conditions a)

    pub conditions_stable :
        (m m' : Memory F K A) (p : Pointer)
        → Extends K A Later m m'
        → LiveConditions m p
        → (conditions_at m' p ≡ conditions_at m p) × LiveConditions m' p
    conditions_stable m m' none e h = (refl, tt)
    conditions_stable m m' (some a) e (lt, v) =
        let le = e.grown in
        (
          ap (λ xs. some (see_all m'.foreign xs)) (e.conditions a lt)
              ∙ ap some (see_all_kept (m.conditions a) m.foreign m'.foreign e.foreign v),
          (
            omega arith,
            subst (AllLive m'.foreign) (sym (e.conditions a lt))
                (live_kept (m.conditions a) m.foreign m'.foreign e.foreign v),
          ),
        )

    pub conditions_still :
        (b m m' : Memory F K A) (p : Pointer)
        → Extends K A Later m m'
        → LiveConditions m p
        → NewConditions b m p
        → NewConditions b m' p
    conditions_still b m m' none e v h = tt
    conditions_still b m m' (some a) e (lt, v) (le, h) = (
      le,
      subst (AllNew b.foreign m'.foreign) (sym (e.conditions a lt))
          (new_kept (m.conditions a) b.foreign m.foreign m'.foreign e.foreign v h),
    )

    pub conditions_lower :
        (b b' m : Memory F K A) (p : Pointer)
        → Extends K A Later b b'
        → NewConditions b' m p
        → NewConditions b m p
    conditions_lower b b' m none e h = tt
    conditions_lower b b' m (some a) e (le, h) =
        let grown = e.grown in
        (omega arith, new_lower (m.conditions a) b.foreign b'.foreign m.foreign e.foreign h)

    abbrev pub ConditionArray : Kind K A Later Pointer (Option (List V))
    ConditionArray = record {
      view = conditions_at;
      Valid = LiveConditions;
      Fresh = NewConditions;
      stable = conditions_stable;
      still = conditions_still;
      lower = conditions_lower;
    }

module _ {F M L T K V : Type 0} (foreign : ForeignCopies F M L T K) (A : Type 0)
    (Later : F → F → Type 0) (same : (f : F) → Later f f)
    (trans : (f g h : F) → Later f g → Later g h → Later f h)
    (law : ForeignLaw V Later foreign.copy_condition) where
  copy_conditions-IsDeepCopy :
      (p : Pointer) (m : Memory F K A)
      → LiveConditions Later same trans foreign.copy_condition law A m p
      → IsDeepCopy K A Later
          (ConditionArray Later same trans foreign.copy_condition law A)
          m
          p
          (copy_conditions foreign p m)
  unfolding copy_conditions
  copy_conditions-IsDeepCopy none m h = record {
    extends = record {
      grown = omega arith;
      ints = λ a lt. refl;
      conditions = λ a lt. refl;
      items = λ a lt. refl;
      foreign = same m.foreign;
    };
    same = refl;
    valid = tt;
    fresh = tt;
  }
  copy_conditions-IsDeepCopy (some a) m (lt, v) =
      let (copied, f) = copy_each foreign.copy_condition (m.conditions a) m.foreign in
      let here = put_here m.next copied m.conditions in
      let (seen, live, new) =
        each_copied Later same trans foreign.copy_condition law (m.conditions a) m.foreign v in
      record {
        extends = record {
          grown = omega arith;
          ints = λ b lt. refl;
          conditions = λ b lt. put_below m.next b copied m.conditions lt;
          items = λ b lt. refl;
          foreign =
              each_grown Later same trans foreign.copy_condition law (m.conditions a) m.foreign;
        };
        same =
            ap (λ xs. some (see_all Later same trans foreign.copy_condition law f xs)) here
            ∙ ap some seen;
        valid = (
          omega arith,
          subst (AllLive Later same trans foreign.copy_condition law f) (sym here) live,
        );
        fresh = (
          omega arith,
          subst (AllNew Later same trans foreign.copy_condition law m.foreign f) (sym here) new,
        );
      }

  pub copy_conditions-Copies :
      Copies K A Later
        (ConditionArray Later same trans foreign.copy_condition law A)
        (copy_conditions foreign)
  copy_conditions-Copies = record { at = copy_conditions-IsDeepCopy }
