-- ===== src/Tests/DeepCopy.antt =====
-- Copies in a small memory, in which the metadata and the conditions are pointers to a text.
use capi_noplane.Prelude.{
  ◌+◌, ◌≤◌, ◌<◌, ◌≢◌, ◌∙◌, ◌==◌, if◌then◌else◌, false, String, ℕ, ◌≡◌, refl, List, [], ◌∷◌, some,
  none, arith, nat_eq,
}
use capi_noplane.Prelude.Int.{ℤ, pos}
use capi_noplane.DeepCopy.Memory.{put, Memory, ForeignCopies, PlaneStruct, ListStruct, SpecStruct}
use capi_noplane.DeepCopy.Copies.{copy_plane, copy_list, copy_spec}
use capi_noplane.DeepCopy.Kinds.{IsDeepCopy}
use capi_noplane.DeepCopy.Pieces.{ForeignLaw, put_here, put_below}
use capi_noplane.DeepCopy.Structs.{ForeignLaws}
use capi_noplane.DeepCopy.Objects.{PlaneKind}
use capi_noplane.DeepCopy.Independence.{
  PointsAt, copy_plane_independent, copy_plane_list-IsDeepCopy, PlaneListKind, write,
}

-- A memory of texts.
record Store : Type 0 where
  size : ℕ
  texts : ℕ → String

-- A text is copied to a new cell.
abbrev clone : ℕ → Store → ℕ × Store
clone a f = (f.size, record { size = f.size + 1; texts = put f.size (f.texts a) f.texts })

abbrev clones : ForeignCopies Store ℕ ℕ ℕ ℕ
clones = record {
  copy_meta = clone;
  copy_list_meta = clone;
  copy_template_meta = clone;
  copy_condition = clone;
}

-- There are no fewer cells, and those that were there have their text.
record Grown (f g : Store) : Type 0 where
  size : f.size ≤ g.size
  texts : (a : ℕ) → a < f.size → g.texts a ≡ f.texts a

-- Another text in the one cell.
record Changed (f : Store) (a : ℕ) (g : Store) : Type 0 where
  size : g.size ≡ f.size
  texts : (b : ℕ) → b ≢ a → g.texts b ≡ f.texts b

grown_trans : (f g h : Store) → Grown f g → Grown g h → Grown f h
grown_trans f g h i j =
    let le = i.size in
    let le' = j.size in
    record { size = omega arith; texts = λ a lt. j.texts a (omega arith) ∙ i.texts a lt }

clone-Grown : (a : ℕ) (f : Store) → Grown f (clone a f).1
clone-Grown a f = record {
  size = omega arith;
  texts = λ b lt. put_below f.size b (f.texts a) f.texts lt;
}

changed-Grown : (a : ℕ) (f0 f f' : Store) → Grown f0 f → f0.size ≤ a → Changed f a f' → Grown f0 f'
changed-Grown a f0 f f' g le c =
    let e = c.size in
    let le' = g.size in
    record { size = omega arith; texts = λ b lt. c.texts b (λ same. omega (arith)) ∙ g.texts b lt }

abbrev law : ForeignLaw String Grown clone
law = record {
  see = λ f a. f.texts a;
  Valid = λ f a. a < f.size;
  Fresh = λ f0 f a. f0.size ≤ a;
  Writes = Changed;
  grown = clone-Grown;
  copied = λ a f v. put_here f.size (f.texts a) f.texts;
  copied_valid = λ a f v. omega arith;
  copied_fresh = λ a f v. omega arith;
  kept = λ a f f' g v. g.texts a v;
  still_valid = λ a f f' g v. let le = g.size in omega arith;
  still_fresh = λ a f0 f f' g v h. h;
  lower = λ a f0 f1 f g h. let le = g.size in omega arith;
  apart = changed-Grown;
}

abbrev laws : ForeignLaws String Grown clones
laws = record {
  same = λ f. record { size = omega arith; texts = λ a lt. refl };
  trans = grown_trans;
  meta = law;
  list_meta = law;
  template_meta = law;
  condition = law;
}

abbrev spec : SpecStruct
spec = record {
  version = "v1.33";
  replicas = some 0;
  control_plane_endpoint = record { host = ""; port = pos 0 };
  credentials_secret_ref = record { name = "creds"; namespace = "default" };
  plane_id = "";
}

abbrev plane : PlaneStruct ℕ
plane = record {
  type_meta = record { kind = "NoPlaneControlPlane"; api_version = "v1alpha1" };
  object_meta = 0;
  spec = spec;
  status = record {
    ready = false;
    initialized = false;
    plane_id = "";
    version = "";
    replicas = some 1;
    ready_replicas = none;
    selector = "";
    conditions = some 2;
  };
}

-- The cells 0 and 1 are taken, the array 2 has one condition, and the array 3 one item. There are
-- three texts.
abbrev memory : Memory Store ℕ (PlaneStruct ℕ)
memory = record {
  foreign = record { size = 3; texts = λ a. if a == 0 then "cp" else "text" };
  next = 4;
  ints = λ a. pos a;
  conditions = λ a. 1 ∷ [];
  items = λ a. plane ∷ [];
}

-- The replicas of the copy are a cell of their own with the same number.
copied_replicas :
    ((copy_spec spec memory).0.replicas ≡ some 4) × ((copy_spec spec memory).1.ints 4 ≡ pos 0)
unfolding copy_spec
copied_replicas = (refl, refl)

plane_live : (PlaneKind clones laws (PlaneStruct ℕ)).Valid memory plane
plane_live = (omega arith, (omega arith, (omega arith, (tt, (omega arith, (omega arith, tt))))))

copy_plane_independent_example :
    let k = PlaneKind clones laws (PlaneStruct ℕ) in
    let (out, m') = copy_plane clones plane memory in
    (k.view m' out ≡ k.view memory plane)
    × (k.view m' plane ≡ k.view memory plane)
    × ((a : ℕ) (v : ℤ) (conditions : List ℕ)
        → PointsAt out a
        → k.view (write a v conditions m') plane ≡ k.view memory plane)
    × ((f : Store)
        → laws.meta.Writes m'.foreign out.object_meta f
        → k.view (record m' { foreign = f }) plane ≡ k.view memory plane)
copy_plane_independent_example = copy_plane_independent clones laws plane memory plane_live

abbrev list : ListStruct ℕ
list = record {
  type_meta = record { kind = "NoPlaneControlPlaneList"; api_version = "v1alpha1" };
  list_meta = 2;
  items = some 3;
}

copy_plane_list-IsDeepCopy_example :
    IsDeepCopy ℕ
      (PlaneStruct ℕ)
      Grown
      (PlaneListKind clones laws)
      memory
      list
      (copy_list clones (copy_plane clones) list memory)
copy_plane_list-IsDeepCopy_example =
    copy_plane_list-IsDeepCopy clones laws list memory
      (omega arith, (omega arith, (plane_live, tt)))
