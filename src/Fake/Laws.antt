-- ===== src/Fake/Laws.antt =====
-- fake/client.go: what a creation stores, what a deletion leaves, and the two views of one plane.
use capi_noplane.Prelude.{
  String, ℕ, ◌≡◌, Option, none, some, Dict, [], arith, string_eq, nat_eq, lookup-insert,
  lookup-erase, refl, sym,
}
use capi_noplane.Errors.{ok, err, new_conflict_error, new_not_found_error}
use capi_noplane.Plane.{Plane, CreateRequest, UpdateRequest}
use capi_noplane.Fake.{
  find, delete_key, poke, FakeClient, fake_plane, with_version, fake_create_plane, fake_get_plane,
  fake_get_plane_by_name, fake_update_plane, fake_delete_plane,
}

abbrev pub entries : Option (Dict String ℕ) → Dict String ℕ
entries none = []
entries (some m) = m

missing_deleted : (k : String) (m : Option (Dict String ℕ)) → find k (delete_key k m) ≡ none
missing_deleted k none = refl
missing_deleted k (some m) = lookup-erase k m

pub poked : (ptr : ℕ) (p : Plane) (heap : ℕ → Plane) → poke ptr p heap ptr ≡ p
poked ptr p heap = ground (arith, nat_eq.beq_iff ptr ptr)

-- A plane that was created is found by its ID and by its name, and a second creation under the name
-- is refused with a ConflictError; where errors are not injected.
pub fake_create_then_get :
    (req : CreateRequest) (f : FakeClient) {p : Plane}
    → f.create_err ≡ none
    → f.get_err ≡ none
    → (fake_create_plane req f).0 ≡ ok p
    → let f' = (fake_create_plane req f).1 in
      ((fake_get_plane p.id f').0 ≡ ok p)
      × ((fake_get_plane_by_name req.name f').0 ≡ ok p)
      × ((fake_create_plane req f').0 ≡ err (new_conflict_error req.name))
unfolding fake_create_plane fake_get_plane fake_get_plane_by_name
fake_create_then_get req f h g e = ground (
  arith,
  lookup-insert req.name f.next (entries f.planes_by_name),
  lookup-insert (fake_plane req).id f.next (entries f.planes),
  poked f.next (fake_plane req) f.heap,
)

update_seen_at :
    (ptr : Option ℕ) (id name : String) (req : UpdateRequest) (f : FakeClient) {p : Plane}
    → find id f.planes ≡ ptr
    → find name f.planes_by_name ≡ ptr
    → f.update_err ≡ none
    → (fake_get_plane id f).0 ≡ ok p
    → let f' = (fake_update_plane id req f).1 in
      ((fake_get_plane id f').0 ≡ ok (with_version req p))
      × ((fake_get_plane_by_name name f').0 ≡ ok (with_version req p))
unfolding fake_update_plane fake_get_plane fake_get_plane_by_name
update_seen_at none id name req f e e' v h = ground arith
update_seen_at (some ptr) id name req f {p} e e' v h =
    ground (arith, poked ptr (with_version req p) f.heap)

-- Where an ID and a name lead to one plane, an update by the ID is seen by both reads: they give the
-- plane in the version of the request, or unchanged where the request has no version.
pub fake_update_seen :
    (id name : String) (req : UpdateRequest) (f : FakeClient) {p : Plane}
    → find id f.planes ≡ find name f.planes_by_name
    → f.update_err ≡ none
    → (fake_get_plane id f).0 ≡ ok p
    → let f' = (fake_update_plane id req f).1 in
      ((fake_get_plane id f').0 ≡ ok (with_version req p))
      × ((fake_get_plane_by_name name f').0 ≡ ok (with_version req p))
fake_update_seen id name req f e v h =
    update_seen_at (find id f.planes) id name req f refl (sym e) v h

-- After a deletion the plane is found neither by its ID nor by its name, and a second deletion says
-- so; where errors are not injected.
pub fake_delete_gone :
    (id : String) (f : FakeClient) {p : Plane}
    → f.get_err ≡ none
    → (fake_get_plane id f).0 ≡ ok p
    → (fake_delete_plane id f).0 ≡ ok tt
    → let f' = (fake_delete_plane id f).1 in
      ((fake_get_plane id f').0 ≡ err (new_not_found_error id))
      × ((fake_get_plane_by_name p.name f').0 ≡ err (new_not_found_error p.name))
      × ((fake_delete_plane id f').0 ≡ err (new_not_found_error id))
unfolding fake_delete_plane fake_get_plane fake_get_plane_by_name
fake_delete_gone id f {p} g h d =
    ground (arith, missing_deleted id f.planes, missing_deleted p.name f.planes_by_name)
