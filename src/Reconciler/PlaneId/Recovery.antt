-- ===== src/Reconciler/PlaneId/Recovery.antt =====
-- `resolvePlaneID` after a crash or a failed status update, over an API that keeps names apart: the
-- interface that the comment of the function relies on, as laws of a client.
use capi_noplane.Prelude.{
  String, Bool, true, false, ◌+◌, ◌≡◌, ◌≢◌, sym, ◌∙◌, refl, ap, arith, count, string_eq,
}
use capi_noplane.Errors.{Result, ok, err, panic, is_conflict}
use capi_noplane.Exec.{◌>>=◌, Sys, Outcome, done}
use capi_noplane.Types.{NoPlaneControlPlane}
use capi_noplane.Plane.{Plane, CreateRequest, ClientInterface}
use capi_noplane.Kube.{NoPlaneControlPlaneReconciler, Event}
use capi_noplane.Reconciler.PlaneId.{resolve_plane_id, with_plane_id, Resolved}
use mathlib.Core.Path.{subst}

-- `Knows name p w`: in the world `w` the API has the plane `p` under this name. A creation under that
-- name then fails, and what is found by the name is `p`; either call may also fail for other reasons.
pub record KeepsNames {W : Type 0} (c : ClientInterface W) (Knows : String → Plane → W → Type 0)
    : Type 0 where
  pub created :
      (req : CreateRequest) (p : Plane) (w : W)
      → (c.create_plane req w).0 ≡ ok p
      → Knows req.name p (c.create_plane req w).1
  pub refused :
      (req : CreateRequest) (p q : Plane) (w : W)
      → Knows req.name p w
      → (c.create_plane req w).0 ≢ ok q
  pub kept :
      (req : CreateRequest) (p : Plane) (w : W)
      → Knows req.name p w
      → Knows req.name p (c.create_plane req w).1
  pub found :
      (name : String) (p q : Plane) (w : W)
      → Knows name p w
      → (c.get_plane_by_name name w).0 ≡ ok q
      → q ≡ p

-- A plane was created.
abbrev pub is_created : Event × Outcome → Bool
is_created (Event.create_plane _, done) = true
is_created _ = false

succeeds : Result Plane → Bool
succeeds (ok q) = true
succeeds _ = false

never_succeeds : (got : Result Plane) → ((q : Plane) → got ≢ ok q) → succeeds got ≡ false
unfolding succeeds
never_succeeds (ok q) h = absurd (h q refl)
never_succeeds (err e) h = refl
never_succeeds panic h = refl

id_or : String → Result Plane → String
id_or id (ok q) = q.id
id_or id _ = id

id_or_same :
    (got : Result Plane) (p : Plane) → ((q : Plane) → got ≡ ok q → q ≡ p) → id_or p.id got ≡ p.id
unfolding id_or
id_or_same (ok q) p h = ap (λ (x : Plane). x.id) (h q refl)
id_or_same (err e) p h = refl
id_or_same panic p h = refl

module _ {W : Type 0} (r : NoPlaneControlPlaneReconciler W) (c : ClientInterface W)
    {Knows : String → Plane → W → Type 0} (api : KeepsNames c Knows) (ncp : NoPlaneControlPlane)
    (new : ncp.spec.plane_id ≡ "") (lost : ncp.status.plane_id ≡ "") where
  abbrev request : CreateRequest
  request = record { name = ncp.meta.name; kubernetes_version = ncp.spec.version }

  adopted :
      (p : Plane) (s : Sys W Event)
      → Knows ncp.meta.name p s.world
      → (count is_created (resolve_plane_id r c ncp s).1.trace ≡ count is_created s.trace)
        × ((x : Resolved) → (resolve_plane_id r c ncp s).0 ≡ ok x → x.plane_id ≡ p.id)
  unfolding resolve_plane_id is_conflict ◌>>=◌ succeeds id_or
  adopted p s k =
      let w = (c.create_plane request s.world).1 in
      let refused =
        never_succeeds (c.create_plane request s.world).0 λ q. api.refused request p q s.world k in
      let found =
        id_or_same (c.get_plane_by_name ncp.meta.name w).0 p
          λ q. api.found ncp.meta.name p q w (api.kept request p s.world k) in
      ground
        (arith, string_eq.beq_iff ncp.spec.plane_id "", string_eq.beq_iff ncp.status.plane_id "")

  module _
      (kept : (x : NoPlaneControlPlane) (p : Plane) (w : W)
        → Knows ncp.meta.name p w
        → Knows ncp.meta.name p (r.kube.update_control_plane_status x w).1)
      (s : Sys W Event) {p : Plane} (created : (c.create_plane request s.world).0 ≡ ok p) where
    first_run :
        ((resolve_plane_id r c ncp s).1.world
          ≡ (r.kube.update_control_plane_status
              (with_plane_id ncp p.id)
              (c.create_plane request s.world).1).1)
        × (count is_created (resolve_plane_id r c ncp s).1.trace ≡ count is_created s.trace + 1)
    unfolding resolve_plane_id ◌>>=◌
    first_run =
        ground
          (arith, string_eq.beq_iff ncp.spec.plane_id "", string_eq.beq_iff ncp.status.plane_id "")

module _ {W : Type 0} (r : NoPlaneControlPlaneReconciler W) (c : ClientInterface W)
    {Knows : String → Plane → W → Type 0} (api : KeepsNames c Knows)
    (ncp other : NoPlaneControlPlane)
    (kept : (x : NoPlaneControlPlane) (p : Plane) (w : W)
      → Knows ncp.meta.name p w
      → Knows ncp.meta.name p (r.kube.update_control_plane_status x w).1) where
  -- Two control planes of one name get one plane, whatever their namespaces are: let a run create a
  -- plane for the first. Then a run for the second, which has no ID either, creates none, and an ID
  -- that it returns is that of the first's plane. The API keeps names apart, and an update of a
  -- status does not change the planes that the API has.
  pub resolve_plane_id_shared :
      ncp.spec.plane_id ≡ ""
      → ncp.status.plane_id ≡ ""
      → other.spec.plane_id ≡ ""
      → other.status.plane_id ≡ ""
      → other.meta.name ≡ ncp.meta.name
      → (s : Sys W Event) {p : Plane}
      → (c.create_plane
          (record { name = ncp.meta.name; kubernetes_version = ncp.spec.version })
          s.world).0
        ≡ ok p
      → let s' = (resolve_plane_id r c ncp s).1 in
        (count is_created (resolve_plane_id r c other s').1.trace ≡ count is_created s.trace + 1)
        × ((x : Resolved) → (resolve_plane_id r c other s').0 ≡ ok x → x.plane_id ≡ p.id)
  resolve_plane_id_shared new lost new' lost' same s {p} created =
      let req : CreateRequest = record {
        name = ncp.meta.name;
        kubernetes_version = ncp.spec.version;
      } in
      let s' = (resolve_plane_id r c ncp s).1 in
      let first = first_run r c api ncp new lost kept s created in
      let knows =
        kept (with_plane_id ncp p.id) p (c.create_plane req s.world).1
          (api.created req p s.world created) in
      let (again, is) = adopted r c api other new' lost' p s' (
        subst (λ n. Knows n p s'.world) (sym same)
          (subst (Knows ncp.meta.name p) (sym first.0) knows)) in
      (again ∙ first.1, is)
