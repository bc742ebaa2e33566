-- ===== src/Tests/World.antt =====
-- A small management cluster with one control plane, over the fake client of
-- internal/api/noplane/fake/client.go, whose state is the world.
use capi_noplane.Prelude.{
  String, ℕ, Bool, true, false, List, [], ◌∷◌, ◌<>◌, ◌||◌, Option, none, some, ◌==◌, string_eq,
  nat_eq, if◌then◌else◌,
}
use capi_noplane.Prelude.Int.{pos}
use capi_noplane.Errors.{Error, external, Result, ok, err}
use capi_noplane.Exec.{Sys, Op}
use capi_noplane.Types.{NamespacedName, ObjectMeta, NoPlaneControlPlane, Cluster, Secret}
use capi_noplane.Plane.{Plane}
use capi_noplane.Kube.{Kube, Toolkit, NoPlaneControlPlaneReconciler, Event}
use capi_noplane.Fake.{FakeClient, new_fake_client, fake_interface}
use capi_noplane.Reconciler.Reconcile.{noplane_finalizer}

abbrev pub named : String → List String → Option ℕ → ObjectMeta
named name finalizers deleted = record {
  name = name;
  namespace = "default";
  uid = "u1";
  resource_version = "7";
  labels = [];
  annotations = [];
  owner_references = [];
  finalizers = finalizers;
  deletion_timestamp = deleted;
}

-- A control plane with the two plane IDs, of the spec and of the status.
abbrev pub control_plane : List String → Option ℕ → String → String → NoPlaneControlPlane
control_plane finalizers deleted spec_id status_id = record {
  meta = named "cp" finalizers deleted;
  spec = record {
    version = "v1.33";
    replicas = none;
    control_plane_endpoint = record { host = ""; port = pos 0 };
    credentials_secret_ref = record { name = "creds"; namespace = "default" };
    plane_id = spec_id;
  };
  status = record {
    ready = false;
    initialized = false;
    plane_id = status_id;
    version = "";
    replicas = none;
    ready_replicas = none;
    selector = "";
    conditions = [];
  };
}

-- As it comes from the user, with the finalizer, resolved, and being deleted.
abbrev pub bare : NoPlaneControlPlane
bare = control_plane [] none "" ""

abbrev pub fresh : NoPlaneControlPlane
fresh = control_plane (noplane_finalizer ∷ []) none "" ""

abbrev pub resolved : NoPlaneControlPlane
resolved = control_plane (noplane_finalizer ∷ []) none "" "fake-np-id"

abbrev pub adopted : NoPlaneControlPlane
adopted = control_plane (noplane_finalizer ∷ []) none "p-1" ""

abbrev pub doomed : NoPlaneControlPlane
doomed = control_plane (noplane_finalizer ∷ []) (some 9) "" "fake-np-id"

abbrev pub owner : Cluster
owner = record { meta = named "c1" [] none; paused = none }

abbrev pub paused_owner : Cluster
paused_owner = record { meta = named "c1" [] none; paused = some true }

abbrev pub credentials : Secret
credentials = record {
  meta = named "creds" [] none;
  secret_type = "Opaque";
  entries = ("apiKey", "k-1") ∷ [];
}

-- A CA secret that has no key and another type.
abbrev pub stale_ca : Secret
stale_ca = record { meta = named "c1-ca" [] none; secret_type = "Opaque"; entries = [] }

abbrev pub keyed_ca : Secret
keyed_ca = record {
  meta = named "c1-ca" [] none;
  secret_type = "cluster.x-k8s.io/secret";
  entries = ("tls.key", "KEY") ∷ [];
}

abbrev pub not_found : Error
not_found = external "not found"

-- Answers that do not change the world.
abbrev pub always : {A : Type 0} → Result A → Op FakeClient A
always r w = (r, w)

abbrev pub secret_of : String → Result Secret
secret_of name =
    if name == "creds"
    then ok credentials
    else if name == "c1-ca"
    then ok stale_ca
    else err not_found

-- The API server with one object and its owner; all updates are accepted and answered alike.
abbrev pub kube_with : Result NoPlaneControlPlane → Cluster → Kube FakeClient
kube_with object cluster = record {
  get_control_plane = λ key. always object;
  update_control_plane = λ x. always (ok x);
  update_control_plane_status = λ x. always (ok x);
  get_secret = λ key. always (secret_of key.name);
  create_secret = λ x. always (ok tt);
  update_secret = λ x. always (ok tt);
  delete_secret = λ x. always (ok tt);
  get_owner_cluster = λ meta. always (ok (some cluster));
}

abbrev is_external : Error → Bool
is_external (external name) = name == "not found"
is_external _ = false

abbrev is_set : Option Bool → Bool
is_set none = false
is_set (some b) = b

abbrev has : String → List String → Bool
has x [] = false
has x (y ∷ ys) = (y == x) || has x ys

abbrev without : String → List String → List String
without x [] = []
without x (y ∷ ys) = let rest = without x ys in if y == x then rest else y ∷ rest

abbrev with_finalizers : NoPlaneControlPlane → List String → NoPlaneControlPlane
with_finalizers x l = record x { meta = record x.meta { finalizers = l } }

abbrev is_nil : Option ℕ → Bool
is_nil none = true
is_nil (some n) = n == 0

abbrev pub tools : Toolkit FakeClient
tools = record {
  is_not_found = is_external;
  ignore_not_found = λ e. if is_external e then none else some e;
  is_paused = λ cluster x. is_set cluster.paused;
  contains_finalizer = λ x f. has f x.meta.finalizers;
  add_finalizer = λ x f. with_finalizers x (f ∷ x.meta.finalizers);
  remove_finalizer = λ x f. with_finalizers x (without f x.meta.finalizers);
  is_zero = is_nil;
  new_controller_ref = λ cluster kind. record {
    api_version = "cluster.x-k8s.io/v1beta1";
    kind = kind;
    name = cluster.meta.name;
    uid = cluster.meta.uid;
    controller = some true;
    block_owner_deletion = some true;
  };
  cluster_name_label = "cluster.x-k8s.io/cluster-name";
  cluster_secret_type = "cluster.x-k8s.io/secret";
  load = λ b. ok (record { clusters = ("c1", record { certificate_authority_data = b }) ∷ [] });
  range_clusters = λ m. always (ok m);
  generate_key = λ n. always (
      ok (record { modulus = 15; public_exponent = 3; private_exponent = 3; primes = 3 ∷ 5 ∷ [] }));
  marshal_pkcs1_private_key = λ key. "DER";
  pem_encode_to_memory = λ kind bytes. kind <> bytes;
}

abbrev pub reconciler :
    Result NoPlaneControlPlane → Cluster → NoPlaneControlPlaneReconciler FakeClient
reconciler object cluster = record {
  kube = kube_with object cluster;
  toolkit = tools;
  client_factory = λ key. ok fake_interface;
}

abbrev pub key : NamespacedName
key = record { namespace = "default"; name = "cp" }

abbrev pub ready_plane : Plane
ready_plane = record {
  id = "fake-np-id";
  name = "cp";
  status = "ready";
  endpoint = record { host = "fake.noplane.io"; port = pos 6443 };
  kubernetes_version = "v1.33";
}

abbrev pub at_start : Sys FakeClient Event
at_start = record { world = new_fake_client; trace = [] }

-- With the plane of the control plane.
abbrev pub with_plane : FakeClient
with_plane = record new_fake_client {
  heap = λ ptr. ready_plane;
  next = 1;
  planes = some (("fake-np-id", 0) ∷ []);
  planes_by_name = some (("cp", 0) ∷ []);
}

abbrev pub unreadable : Sys FakeClient Event
unreadable = record { world = record with_plane { get_err = some not_found }; trace = [] }

abbrev pub populated : Sys FakeClient Event
populated = record { world = with_plane; trace = [] }
