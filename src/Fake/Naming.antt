-- ===== src/Fake/Naming.antt =====
-- fake/client.go keeps names apart, as the controller relies on.
use capi_noplane.Prelude.{
  String, ◌≡◌, ◌≢◌, ap, ◌∙◌, some, ℕ, arith, nat_eq, string_eq, lookup-insert,
}
use capi_noplane.Errors.{ok}
use capi_noplane.Plane.{Plane, CreateRequest}
use capi_noplane.Reconciler.PlaneId.Recovery.{KeepsNames}
use capi_noplane.Fake.Laws.{entries, poked}
use capi_noplane.Fake.{
  find, FakeClient, fake_plane, fake_create_plane, fake_get_plane_by_name, fake_interface,
}

-- The name leads to the plane.
pub record HasName (name : String) (p : Plane) (f : FakeClient) : Type 0 where
  pub ptr : ℕ
  pub named : find name f.planes_by_name ≡ some ptr
  pub stored : f.heap ptr ≡ p

created_named :
    (req : CreateRequest) (p : Plane) (f : FakeClient)
    → (fake_create_plane req f).0 ≡ ok p
    → let f' = (fake_create_plane req f).1 in
      (find req.name f'.planes_by_name ≡ some f.next) × (f'.heap f.next ≡ p)
unfolding fake_create_plane
created_named req p f h = ground (
  arith,
  lookup-insert req.name f.next (entries f.planes_by_name),
  poked f.next (fake_plane req) f.heap,
)

refused_named :
    (req : CreateRequest) (p q : Plane) (f : FakeClient) (ptr : ℕ)
    → find req.name f.planes_by_name ≡ some ptr
    → (fake_create_plane req f).0 ≢ ok q
unfolding fake_create_plane
refused_named req p q f ptr h = ground arith

kept_named :
    (req : CreateRequest) (f : FakeClient) {ptr : ℕ}
    → find req.name f.planes_by_name ≡ some ptr
    → let f' = (fake_create_plane req f).1 in
      (f'.planes_by_name ≡ f.planes_by_name) × (f'.heap ≡ f.heap)
unfolding fake_create_plane
kept_named req f h = ground arith

found_named :
    (name : String) (p q : Plane) (f : FakeClient) (ptr : ℕ)
    → find name f.planes_by_name ≡ some ptr
    → f.heap ptr ≡ p
    → (fake_get_plane_by_name name f).0 ≡ ok q
    → q ≡ p
unfolding fake_get_plane_by_name
found_named name p q f ptr h e k = ground arith

-- The fake client keeps names apart, where it has a plane under a name if the name leads to the
-- plane: a creation that succeeds makes it so, a creation under a name that it has fails and
-- leaves that name, and what is found by the name is the plane.
pub fake_interface-KeepsNames : KeepsNames fake_interface HasName
unfolding fake_interface
fake_interface-KeepsNames = record {
  created = λ req p f h.
      let (n, e) = created_named req p f h in record { ptr = f.next; named = n; stored = e };
  refused = λ req p q f k. refused_named req p q f k.ptr k.named;
  kept = λ req p f k.
      let (n, e) = kept_named req f k.named in
      record {
        ptr = k.ptr;
        named = ap (find req.name) n ∙ k.named;
        stored = ap (λ heap. heap k.ptr) e ∙ k.stored;
      };
  found = λ name p q f k h. found_named name p q f k.ptr k.named k.stored h;
}
