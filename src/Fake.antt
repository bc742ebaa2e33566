-- ===== src/Fake.antt =====
-- internal/api/noplane/fake/client.go: the client that the controller's tests run against. Both maps
-- hold pointers, and a plane that is created stands in both, so that an update through one is seen
-- through the other: the planes are in a heap, and a pointer is a number. A map is nil until it is
-- made: nothing is found in a nil map, nothing is deleted from it, and a write to it panics. The
-- pointers in the maps are those of planes; a nil pointer put into a map by hand is not modelled.
-- The mutex makes every operation one step.
pub mod Laws
pub mod Naming
pub mod Panics
use capi_noplane.Prelude.{
  String, ℕ, ◌+◌, [], ◌∷◌, Option, none, some, Dict, lookup, insert, erase, ◌==◌, nat_eq, string_eq,
  if◌then◌else◌,
}
use capi_noplane.Prelude.Int.{pos}
use capi_noplane.Errors.{Error, Result, ok, err, panic, new_conflict_error, new_not_found_error}
use capi_noplane.Exec.{Op}
use capi_noplane.Types.{Bytes}
use capi_noplane.Plane.{Plane, CreateRequest, UpdateRequest, ClientInterface}

pub record FakeClient : Type 0 where
  pub heap : ℕ → Plane
  -- The pointer that the next `&noplane.Plane{}` gives.
  pub next : ℕ
  -- nil, or what `make` gave.
  pub planes : Option (Dict String ℕ)
  pub planes_by_name : Option (Dict String ℕ)
  pub kubeconfig : Bytes
  pub create_err : Option Error
  pub get_err : Option Error
  pub update_err : Option Error
  pub delete_err : Option Error
  pub kubeconfig_err : Option Error
  pub create_call_count : ℕ
  pub get_call_count : ℕ
  pub get_by_name_call_count : ℕ
  pub update_call_count : ℕ
  pub delete_call_count : ℕ
  pub kubeconfig_call_count : ℕ

-- `noplane.Plane{}`
abbrev blank_plane : Plane
blank_plane = record {
  id = "";
  name = "";
  status = "";
  endpoint = record { host = ""; port = pos 0 };
  kubernetes_version = "";
}

unfoldable pub new_fake_client : FakeClient
new_fake_client = record {
  heap = λ ptr. blank_plane;
  next = 0;
  planes = some [];
  planes_by_name = some [];
  kubeconfig = "fake-kubeconfig";
  create_err = none;
  get_err = none;
  update_err = none;
  delete_err = none;
  kubeconfig_err = none;
  create_call_count = 0;
  get_call_count = 0;
  get_by_name_call_count = 0;
  update_call_count = 0;
  delete_call_count = 0;
  kubeconfig_call_count = 0;
}

abbrev pub fake_plane : CreateRequest → Plane
fake_plane req = record {
  id = "fake-np-id";
  name = req.name;
  status = "ready";
  endpoint = record { host = "fake.noplane.io"; port = pos 6443 };
  kubernetes_version = req.kubernetes_version;
}

-- `if f.XErr != nil { return f.XErr }`
abbrev unless_injected : {A : Type 0} → Option Error → Op FakeClient A → Op FakeClient A
unless_injected none m f = m f
unless_injected (some e) m f = (err e, f)

-- `m[k]` of a map that may be nil.
abbrev pub find : String → Option (Dict String ℕ) → Option ℕ
find k none = none
find k (some m) = lookup k m

-- `delete(m, k)`
abbrev pub delete_key : String → Option (Dict String ℕ) → Option (Dict String ℕ)
delete_key k none = none
delete_key k (some m) = some (erase k m)

-- What is written at an address.
abbrev pub poke : ℕ → Plane → (ℕ → Plane) → ℕ → Plane
poke ptr p heap q = if q == ptr then p else heap q

-- `f.PlanesByName[p.Name] = p; return p, nil`
store_by_name : Plane → ℕ → Option (Dict String ℕ) → Op FakeClient Plane
store_by_name p ptr none f = (panic, f)
store_by_name p ptr (some m) f = (ok p, record f { planes_by_name = some (insert p.name ptr m) })

-- `f.Planes[p.ID] = p`
store_by_id : Plane → ℕ → Option (Dict String ℕ) → Op FakeClient Plane
unfolding store_by_name
store_by_id p ptr none f = (panic, f)
store_by_id p ptr (some m) f =
    store_by_name p ptr f.planes_by_name (record f { planes = some (insert p.id ptr m) })

-- `p := &noplane.Plane{...}`, and the rest of `CreatePlane`.
store_plane : Plane → Op FakeClient Plane
unfolding store_by_id
store_plane p f =
    store_by_id p f.next f.planes (record f { heap = poke f.next p f.heap; next = f.next + 1 })

create_unless_found : CreateRequest → Option ℕ → Op FakeClient Plane
unfolding store_plane
create_unless_found req (some ptr) f = (err (new_conflict_error req.name), f)
create_unless_found req none f = store_plane (fake_plane req) f

unfoldable pub fake_create_plane : CreateRequest → Op FakeClient Plane
unfolding create_unless_found
fake_create_plane req f =
    unless_injected f.create_err (create_unless_found req (find req.name f.planes_by_name))
      (record f { create_call_count = f.create_call_count + 1 })

-- What a pointer of a map points at: a map without the key answers with a NotFoundError.
deref : String → FakeClient → Option ℕ → Result Plane
deref key f none = err (new_not_found_error key)
deref key f (some ptr) = ok (f.heap ptr)

unfoldable pub fake_get_plane : String → Op FakeClient Plane
unfolding deref
fake_get_plane id f =
    unless_injected f.get_err (λ g. (deref id g (find id g.planes), g))
      (record f { get_call_count = f.get_call_count + 1 })

unfoldable pub fake_get_plane_by_name : String → Op FakeClient Plane
unfolding deref
fake_get_plane_by_name name f =
    unless_injected f.get_err (λ g. (deref name g (find name g.planes_by_name), g))
      (record f { get_by_name_call_count = f.get_by_name_call_count + 1 })

abbrev pub with_version : UpdateRequest → Plane → Plane
with_version req p =
    if req.kubernetes_version == ""
    then p
    else record p { kubernetes_version = req.kubernetes_version }

-- `p.KubernetesVersion = ...` through the pointer.
update_found : String → UpdateRequest → Option ℕ → Op FakeClient (Unit {0})
update_found id req none f = (err (new_not_found_error id), f)
update_found id req (some ptr) f =
    (ok tt, record f { heap = poke ptr (with_version req (f.heap ptr)) f.heap })

unfoldable pub fake_update_plane : String → UpdateRequest → Op FakeClient (Unit {0})
unfolding update_found
fake_update_plane id req f =
    unless_injected f.update_err (λ g. update_found id req (find id g.planes) g)
      (record f { update_call_count = f.update_call_count + 1 })

forget_plane : String → Option ℕ → Op FakeClient (Unit {0})
forget_plane id none f = (err (new_not_found_error id), f)
forget_plane id (some ptr) f = (
  ok tt,
  record f {
    planes_by_name = delete_key (f.heap ptr).name f.planes_by_name;
    planes = delete_key id f.planes;
  },
)

unfoldable pub fake_delete_plane : String → Op FakeClient (Unit {0})
unfolding forget_plane
fake_delete_plane id f =
    unless_injected f.delete_err (λ g. forget_plane id (find id g.planes) g)
      (record f { delete_call_count = f.delete_call_count + 1 })

unfoldable pub fake_get_kubeconfig : String → Op FakeClient Bytes
fake_get_kubeconfig id f =
    unless_injected f.kubeconfig_err (λ g. (ok g.kubeconfig, g))
      (record f { kubeconfig_call_count = f.kubeconfig_call_count + 1 })

unfoldable pub fake_interface : ClientInterface FakeClient
fake_interface = record {
  create_plane = fake_create_plane;
  get_plane = fake_get_plane;
  get_plane_by_name = fake_get_plane_by_name;
  update_plane = fake_update_plane;
  delete_plane = fake_delete_plane;
  get_kubeconfig = fake_get_kubeconfig;
}
