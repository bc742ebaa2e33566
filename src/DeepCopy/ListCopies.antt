-- ===== src/DeepCopy/ListCopies.antt =====
-- The copies of list objects: a new array of new items.
use capi_noplane.Prelude.{ℕ, ◌+◌, ◌≡◌, refl, sym, ◌∙◌, ap, List, Option, some, none, arith, nat_eq}
use mathlib.Core.Path.{subst}
use capi_noplane.DeepCopy.Memory.{Memory, Pointer, ForeignCopies, put, ListStruct, TypeMeta}
use capi_noplane.DeepCopy.Copies.{copy_each, copy_items, copy_list}
use capi_noplane.DeepCopy.Kinds.{
  Extends, Extends-trans, Kind, IsDeepCopy, Copies, Pair, pair-Copies,
}
use capi_noplane.DeepCopy.Pieces.{Foreign, on_foreign-Copies, put_below, put_here}
use capi_noplane.DeepCopy.Structs.{Struct, struct-Copies, ForeignLaws}
use capi_noplane.DeepCopy.Lists.{
  view_all, AllValid, AllFresh, all_stable, all_lower, each-IsDeepCopy, IsFlat, view_flat,
  valid_flat, fresh_flat, ValidItems, Items,
}

module _ {F M L T K V : Type 0} {Later : F → F → Type 0} (foreign : ForeignCopies F M L T K)
    (laws : ForeignLaws V Later foreign) {A U : Type 0} (k : Kind K A Later A U)
    (flat : IsFlat K A Later laws.same laws.trans k) {c : A → Memory F K A → A × Memory F K A}
    (ck : Copies K A Later k c) where
  copy_items-IsDeepCopy :
      (p : Pointer) (m : Memory F K A)
      → ValidItems K A Later laws.same laws.trans k flat m p
      → IsDeepCopy K A Later
          (Items K A Later laws.same laws.trans k flat)
          m
          p
          (copy_items foreign c p m)
  unfolding copy_items
  copy_items-IsDeepCopy none m v = record {
    extends = record {
      grown = omega arith;
      ints = λ a lt. refl;
      conditions = λ a lt. refl;
      items = λ a lt. refl;
      foreign = laws.same m.foreign;
    };
    same = refl;
    valid = tt;
    fresh = tt;
  }
  copy_items-IsDeepCopy (some a) m (lt, v) =
      let m0 : Memory F K A = record m { next = m.next + 1 } in
      let begun : Extends K A Later m m0 = record {
        grown = omega arith;
        ints = λ b l. refl;
        conditions = λ b l. refl;
        items = λ b l. refl;
        foreign = laws.same m.foreign;
      } in
      let (kept, v0) = all_stable K A Later laws.same laws.trans k m m0 (m.items a) begun v in
      let (copied, m1) = copy_each c (m.items a) m0 in
      let rest = each-IsDeepCopy K A Later laws.same laws.trans k ck (m.items a) m0 v0 in
      let whole = Extends-trans K A Later laws.trans begun rest.extends in
      let i : ℕ → List A = put m.next copied m1.items in
      let here : i m.next ≡ copied = put_here m.next copied m1.items in
      let m2 : Memory F K A = record m1 { items = i } in
      let le = rest.extends.grown in
      record {
        extends = record {
          grown = whole.grown;
          ints = whole.ints;
          conditions = whole.conditions;
          items = λ b l. put_below m.next b copied m1.items l ∙ whole.items b l;
          foreign = whole.foreign;
        };
        same =
            ap (λ xs. some (view_all K A Later laws.same laws.trans k m2 xs)) here
            ∙ ap some
                (view_flat K A Later laws.same laws.trans k flat m1 i copied ∙ rest.same ∙ kept);
        valid = (
          omega arith,
          subst (AllValid K A Later laws.same laws.trans k m2) (sym here)
              (valid_flat K A Later laws.same laws.trans k flat m1 i copied rest.valid),
        );
        fresh = (
          omega arith,
          subst (AllFresh K A Later laws.same laws.trans k m m2) (sym here) (
              fresh_flat K A Later laws.same laws.trans k flat m m1 i copied
                (all_lower K A Later laws.same laws.trans k m m0 m1 copied begun rest.fresh)),
        );
      }

  abbrev ListPieces : Kind K A Later (L × Pointer) (V × Option (List U))
  ListPieces =
      Pair K A Later (Foreign K A Later laws.same foreign.copy_list_meta laws.list_meta)
        (Items K A Later laws.same laws.trans k flat)

  -- How a list object looks: its type, its metadata and its items.
  abbrev pub ListKind : Kind K A Later (ListStruct L) (TypeMeta × (V × Option (List U)))
  ListKind = Struct K A Later ListPieces (λ l. (l.list_meta, l.items)) (λ l. l.type_meta)

  pub copy_list-Copies : Copies K A Later ListKind (copy_list foreign c)
  unfolding copy_list
  copy_list-Copies =
      struct-Copies K A Later ListPieces (λ l. (l.list_meta, l.items)) (λ l. l.type_meta)
        (λ l x. record l { list_meta = x.0; items = x.1 }) (λ l x. refl) (λ l x. refl)
        (pair-Copies K A Later _ _ laws.trans
          (on_foreign-Copies K A Later laws.same foreign.copy_list_meta laws.list_meta)
          (record { at = copy_items-IsDeepCopy }))
