-- ===== src/Reconciler/Reconcile/Guards.antt =====
-- What `Reconcile` has read of the object when it changes something at noplane.io, and the status
-- field that is never set back.
use capi_noplane.Prelude.{true, false, ◌≡◌, ◌≢◌, refl, All, string_eq, sym}
use mathlib.Core.Path.{subst}
use capi_noplane.Errors.{ok}
use capi_noplane.Exec.{Sys, Outcome}
use capi_noplane.Types.{NamespacedName, NoPlaneControlPlane}
use capi_noplane.Kube.{NoPlaneControlPlaneReconciler, Event}
use capi_noplane.Reconciler.Policy.{AllowsSecrets, AllowsObject}
use capi_noplane.Reconciler.Reconcile.Emits.{with_object-Emits}
use capi_noplane.Reconciler.Reconcile.{noplane_finalizer, reconcile}
use capi_noplane.Reconciler.Reconcile.Laws.{after_read, reconcile-trace}

abbrev pub IsInitialized : Event × Outcome → Type 0
IsInitialized (Event.update_control_plane_status x, _) = x.status.initialized ≡ true
IsInitialized _ = Unit {0}

module _ {W : Type 0} (r : NoPlaneControlPlaneReconciler W) (ncp : NoPlaneControlPlane) where
  abbrev pub IsGuarded : Event × Outcome → Type 0
  IsGuarded (Event.create_plane req, _) =
      (req.name ≡ ncp.meta.name)
      × (req.kubernetes_version ≡ ncp.spec.version)
      × (ncp.spec.plane_id ≡ "")
      × (ncp.status.plane_id ≡ "")
      × (r.toolkit.contains_finalizer ncp noplane_finalizer ≡ true)
      × (r.toolkit.is_zero ncp.meta.deletion_timestamp ≡ true)
  IsGuarded (Event.update_plane _ _, _) =
      (r.toolkit.contains_finalizer ncp noplane_finalizer ≡ true)
      × (r.toolkit.is_zero ncp.meta.deletion_timestamp ≡ true)
  IsGuarded (Event.delete_plane id, _) =
      (id ≡ ncp.status.plane_id)
      × (id ≢ "")
      × (r.toolkit.contains_finalizer ncp noplane_finalizer ≡ true)
      × (r.toolkit.is_zero ncp.meta.deletion_timestamp ≡ false)
  IsGuarded _ = Unit {0}

  guarded : AllowsObject r ncp IsGuarded
  guarded = record {
    secrets = allowed;
    owner = λ _. tt;
    add = λ _ _. tt;
    delete = λ held doomed some_id _. (refl, some_id, held, doomed);
    remove = λ _ _ _. tt;
    normal = λ held live. record {
      secrets = allowed;
      create = λ p q _. (refl, refl, p, q, held, live);
      persist = λ _ _. tt;
      upgrade = λ _ _ _. (held, live);
      endpoint = λ _ _ _. tt;
      ready = λ _ _ _ _. tt;
    };
  }
    where
      allowed : AllowsSecrets IsGuarded
      allowed = record {
        get_secret = λ _ _. tt;
        create_secret = λ _ _. tt;
        update_secret = λ _ _. tt;
        delete_secret = λ _ _. tt;
        range_clusters = λ _. tt;
        generate_key = λ _. tt;
        get_kubeconfig = λ _ _. tt;
        get_plane = λ _ _. tt;
        get_plane_by_name = λ _ _. tt;
      }

  initialized : ncp.status.initialized ≡ true → AllowsObject r ncp IsInitialized
  initialized init = record {
    secrets = allowed;
    owner = λ _. tt;
    add = λ _ _. tt;
    delete = λ _ _ _ _. tt;
    remove = λ _ _ _. tt;
    normal = λ _ _. record {
      secrets = allowed;
      create = λ _ _ _. tt;
      persist = λ _ _. init;
      upgrade = λ _ _ _. tt;
      endpoint = λ _ _ _. tt;
      ready = λ _ _ _ _. refl;
    };
  }
    where
      allowed : AllowsSecrets IsInitialized
      allowed = record {
        get_secret = λ _ _. tt;
        create_secret = λ _ _. tt;
        update_secret = λ _ _. tt;
        delete_secret = λ _ _. tt;
        range_clusters = λ _. tt;
        generate_key = λ _. tt;
        get_kubeconfig = λ _ _. tt;
        get_plane = λ _ _. tt;
        get_plane_by_name = λ _ _. tt;
      }

module _ {W : Type 0} (r : NoPlaneControlPlaneReconciler W) (req : NamespacedName) (s : Sys W Event)
    {ncp : NoPlaneControlPlane} (got : (r.kube.get_control_plane req s.world).0 ≡ ok ncp) where
  module _ (P : Event × Outcome → Type 0) (a : AllowsObject r ncp P) where
    reconcile-All :
        ((o : Outcome) → P (Event.get_control_plane req, o))
        → All P s.trace
        → All P (reconcile r req s).1.trace
    reconcile-All k h =
        subst (All P) (sym (reconcile-trace r req s got))
          ((with_object-Emits r ncp a).at (after_read r req s) (k _, h))

  -- What the object says about a call that changes something at noplane.io, if it does so about
  -- the calls before. A plane is created for an object that has the finalizer, is not being
  -- deleted and has no plane ID in its spec or its status; it is asked for under the object's
  -- name and in the version of its spec. A plane is updated for an object that has the finalizer
  -- and is not being deleted. A plane is deleted for an object that has the finalizer and is
  -- being deleted, and it is the one in its status.
  pub reconcile-IsGuarded :
      All (IsGuarded r ncp) s.trace → All (IsGuarded r ncp) (reconcile r req s).1.trace
  reconcile-IsGuarded = reconcile-All (IsGuarded r ncp) (guarded r ncp) (λ _. tt)

  -- Where the object that is read is initialized, no status is written that says otherwise; if
  -- none was before.
  pub reconcile-IsInitialized :
      ncp.status.initialized ≡ true
      → All IsInitialized s.trace
      → All IsInitialized (reconcile r req s).1.trace
  reconcile-IsInitialized init = reconcile-All IsInitialized (initialized r ncp init) (λ _. tt)
