-- ===== src/DeepCopy/Lists.antt =====
-- Lists and arrays of items: what a deep copy of one is.
use capi_noplane.Prelude.{
  ℕ, ◌≤◌, ◌<◌, ◌≡◌, refl, sym, ◌∙◌, ap, List, [], ◌∷◌, Option, some, none, arith, nat_eq,
}
use mathlib.Core.Path.{subst}
use capi_noplane.DeepCopy.Memory.{Memory, Pointer}
use capi_noplane.DeepCopy.Copies.{copy_each}
use capi_noplane.DeepCopy.Kinds.{Extends, Extends-trans, Kind, IsDeepCopy, Copies}

module _ {F : Type 0} (K A : Type 0) (Later : F → F → Type 0) (same : (f : F) → Later f f)
    (trans : (f g h : F) → Later f g → Later g h → Later f h) {V : Type 0}
    (k : Kind K A Later A V) where
  abbrev pub view_all : Memory F K A → List A → List V
  view_all m [] = []
  view_all m (x ∷ xs) = k.view m x ∷ view_all m xs

  abbrev pub AllValid : Memory F K A → List A → Type 0
  AllValid m [] = Unit
  AllValid m (x ∷ xs) = k.Valid m x × AllValid m xs

  abbrev pub AllFresh : Memory F K A → Memory F K A → List A → Type 0
  AllFresh b m [] = Unit
  AllFresh b m (x ∷ xs) = k.Fresh b m x × AllFresh b m xs

  pub all_stable :
      (m m' : Memory F K A) (xs : List A)
      → Extends K A Later m m'
      → AllValid m xs
      → (view_all m' xs ≡ view_all m xs) × AllValid m' xs
  all_stable m m' [] e v = (refl, tt)
  all_stable m m' (x ∷ xs) e (v, vs) =
      let (one, w) = k.stable m m' x e v in
      let (rest, ws) = all_stable m m' xs e vs in
      (ap (λ y. y ∷ view_all m' xs) one ∙ ap (λ ys. k.view m x ∷ ys) rest, (w, ws))

  pub all_still :
      (n m m' : Memory F K A) (xs : List A)
      → Extends K A Later m m'
      → AllValid m xs
      → AllFresh n m xs
      → AllFresh n m' xs
  all_still n m m' [] e v f = tt
  all_still n m m' (x ∷ xs) e (v, vs) (f, fs) =
      (k.still n m m' x e v f, all_still n m m' xs e vs fs)

  pub all_lower :
      (n n' m : Memory F K A) (xs : List A)
      → Extends K A Later n n'
      → AllFresh n' m xs
      → AllFresh n m xs
  all_lower n n' m [] e f = tt
  all_lower n n' m (x ∷ xs) e (f, fs) = (k.lower n n' m x e f, all_lower n n' m xs e fs)

  abbrev pub Each : Kind K A Later (List A) (List V)
  Each = record {
    view = view_all;
    Valid = AllValid;
    Fresh = AllFresh;
    stable = all_stable;
    still = all_still;
    lower = all_lower;
  }

  pub each-IsDeepCopy :
      {c : A → Memory F K A → A × Memory F K A}
      → Copies K A Later k c
      → (xs : List A) (m : Memory F K A) → AllValid m xs
      → IsDeepCopy K A Later Each m xs (copy_each c xs m)
  each-IsDeepCopy ck [] m v = record {
    extends = record {
      grown = omega arith;
      ints = λ a lt. refl;
      conditions = λ a lt. refl;
      items = λ a lt. refl;
      foreign = same m.foreign;
    };
    same = refl;
    valid = tt;
    fresh = tt;
  }
  each-IsDeepCopy {c} ck (x ∷ xs) m (v, vs) =
      let (y, m') = c x m in
      let one = ck.at x m v in
      let (kept, vs') = all_stable m m' xs one.extends vs in
      let rest = each-IsDeepCopy ck xs m' vs' in
      let m'' = (copy_each c xs m').1 in
      let (sy, vy) = k.stable m' m'' y rest.extends one.valid in
      record {
        extends = Extends-trans K A Later trans one.extends rest.extends;
        same =
            ap (λ z. z ∷ view_all m'' (copy_each c xs m').0) (sy ∙ one.same)
            ∙ ap (λ zs. k.view m x ∷ zs) (rest.same ∙ kept);
        valid = (vy, rest.valid);
        fresh = (
          k.still m m' m'' y rest.extends one.valid one.fresh,
          all_lower m m' m'' (copy_each c xs m').0 one.extends rest.fresh,
        );
      }

  -- The arrays of items have no part in how an item looks, or in what it points at.
  pub record IsFlat : Type 0 where
    pub view :
        (m : Memory F K A) (i : ℕ → List A) (x : A) → k.view (record m { items = i }) x ≡ k.view m x
    pub valid :
        (m : Memory F K A) (i : ℕ → List A) (x : A)
        → k.Valid m x
        → k.Valid (record m { items = i }) x
    pub fresh :
        (n m : Memory F K A) (i : ℕ → List A) (x : A)
        → k.Fresh n m x
        → k.Fresh n (record m { items = i }) x

  module _ (flat : IsFlat) where
    pub view_flat :
        (m : Memory F K A) (i : ℕ → List A) (xs : List A)
        → view_all (record m { items = i }) xs ≡ view_all m xs
    view_flat m i [] = refl
    view_flat m i (x ∷ xs) =
        ap (λ y. y ∷ view_all (record m { items = i }) xs) (flat.view m i x)
        ∙ ap (λ ys. k.view m x ∷ ys) (view_flat m i xs)

    pub valid_flat :
        (m : Memory F K A) (i : ℕ → List A) (xs : List A)
        → AllValid m xs
        → AllValid (record m { items = i }) xs
    valid_flat m i [] v = tt
    valid_flat m i (x ∷ xs) (v, vs) = (flat.valid m i x v, valid_flat m i xs vs)

    pub fresh_flat :
        (n m : Memory F K A) (i : ℕ → List A) (xs : List A)
        → AllFresh n m xs
        → AllFresh n (record m { items = i }) xs
    fresh_flat n m i [] f = tt
    fresh_flat n m i (x ∷ xs) (f, fs) = (flat.fresh n m i x f, fresh_flat n m i xs fs)

    abbrev pub items_at : Memory F K A → Pointer → Option (List V)
    items_at m none = none
    items_at m (some a) = some (view_all m (m.items a))

    abbrev pub ValidItems : Memory F K A → Pointer → Type 0
    ValidItems m none = Unit
    ValidItems m (some a) = (a < m.next) × AllValid m (m.items a)

    abbrev pub FreshItems : Memory F K A → Memory F K A → Pointer → Type 0
    FreshItems n m none = Unit
    FreshItems n m (some a) = (n.next ≤ a) × AllFresh n m (m.items a)

    pub items_stable :
        (m m' : Memory F K A) (p : Pointer)
        → Extends K A Later m m'
        → ValidItems m p
        → (items_at m' p ≡ items_at m p) × ValidItems m' p
    items_stable m m' none e v = (refl, tt)
    items_stable m m' (some a) e (lt, v) =
        let (sm, w) = all_stable m m' (m.items a) e v in
        let le = e.grown in
        (
          ap (λ xs. some (view_all m' xs)) (e.items a lt) ∙ ap some sm,
          (omega arith, subst (AllValid m') (sym (e.items a lt)) w),
        )

    pub items_still :
        (n m m' : Memory F K A) (p : Pointer)
        → Extends K A Later m m'
        → ValidItems m p
        → FreshItems n m p
        → FreshItems n m' p
    items_still n m m' none e v f = tt
    items_still n m m' (some a) e (lt, v) (le, f) =
        (le, subst (AllFresh n m') (sym (e.items a lt)) (all_still n m m' (m.items a) e v f))

    pub items_lower :
        (n n' m : Memory F K A) (p : Pointer)
        → Extends K A Later n n'
        → FreshItems n' m p
        → FreshItems n m p
    items_lower n n' m none e f = tt
    items_lower n n' m (some a) e (at, f) =
        let grown = e.grown in (omega arith, all_lower n n' m (m.items a) e f)

    abbrev pub Items : Kind K A Later Pointer (Option (List V))
    Items = record {
      view = items_at;
      Valid = ValidItems;
      Fresh = FreshItems;
      stable = items_stable;
      still = items_still;
      lower = items_lower;
    }
