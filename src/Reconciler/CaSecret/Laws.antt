-- ===== src/Reconciler/CaSecret/Laws.antt =====
-- `reconcileCASecret`: what is stored, when the secret is left alone, and what an error leaves.
use capi_noplane.Prelude.{
  String, Bool, true, false, ◌+◌, ◌≡◌, ◌≢◌, [], ◌∷◌, ◌<>◌, arith, string_eq, ◌==◌, ne_of_beq,
  ne_of_not_beq, eq_of_not_beq, refl, sym, ◌∙◌, All, Dict, not, count,
}
use capi_noplane.Errors.{Error, Result, ok, err}
use capi_noplane.Exec.{Caught, returned, raised, ◌>>=◌, Sys, Outcome, done}
use capi_noplane.Types.{Bytes, NoPlaneControlPlane, Cluster, Secret}
use capi_noplane.Plane.{ClientInterface}
use capi_noplane.Reconciler.Secrets.{refreshed}
use capi_noplane.Kube.{ConfigCluster, NoPlaneControlPlaneReconciler, Event}
use capi_noplane.Reconciler.CaSecret.{
  ca_secret, ca_key, entry, reconcile_ca_secret, with_dummy_key, build_ca_secret, replace_ca_secret,
  no_clusters, put_ca_secret, regenerate, after_first_read,
}
use capi_noplane.Exec.Gives.{Gives, gives_rules}
use capi_noplane.Exec.Emits.{
  Emits, emits_rules, Emits-bind-Gives, Emits-if, Emits-bind, Emits-or_wrap, Emits-call,
  Emits-attempt,
}

-- The read gave no private key.
abbrev pub lacks_key : Result Secret → Bool
lacks_key (ok x) = entry "tls.key" x.entries == ""
lacks_key _ = true

-- A secret was created or updated.
abbrev pub is_stored : Event × Outcome → Bool
is_stored (Event.create_secret _, done) = true
is_stored (Event.update_secret _, done) = true
is_stored _ = false

-- The CA secret of the cluster: under its name, with a certificate, and with a key in PEM.
pub record IsCaSecret {W : Type 0} (r : NoPlaneControlPlaneReconciler W) (cluster : Cluster)
    (x : Secret) : Type 0 where
  pub ca_data : Bytes
  pub key : Bytes
  pub present : ca_data ≢ ""
  pub named : x.meta.name ≡ cluster.meta.name <> "-ca"
  pub placed : x.meta.namespace ≡ cluster.meta.namespace
  pub labelled : x.meta.labels ≡ (r.toolkit.cluster_name_label, cluster.meta.name) ∷ []
  pub owned : x.meta.owner_references ≡ r.toolkit.new_controller_ref cluster "Cluster" ∷ []
  pub typed : x.secret_type ≡ r.toolkit.cluster_secret_type
  pub content :
      x.entries
      ≡ ("tls.crt", ca_data)
        ∷ ("tls.key", r.toolkit.pem_encode_to_memory "RSA PRIVATE KEY" key)
        ∷ []

-- An object with the type, the data and the labels of a CA secret.
pub record IsCaUpdate {W : Type 0} (r : NoPlaneControlPlaneReconciler W) (cluster : Cluster)
    (x : Secret) : Type 0 where
  pub ca : Secret
  pub is_ca : IsCaSecret r cluster ca
  pub same_entries : x.entries ≡ ca.entries
  pub same_labels : x.meta.labels ≡ ca.meta.labels
  pub same_type : x.secret_type ≡ ca.secret_type

module _ {W : Type 0} (r : NoPlaneControlPlaneReconciler W) (cluster : Cluster) where
  -- What may be written. An object is deleted only if it has another type, and no object of another
  -- kind is touched.
  abbrev pub IsCaWrite : Event × Outcome → Type 0
  IsCaWrite (Event.create_secret x, _) = IsCaSecret r cluster x
  IsCaWrite (Event.update_secret x, _) = IsCaUpdate r cluster x
  IsCaWrite (Event.delete_secret x, _) = x.secret_type ≢ r.toolkit.cluster_secret_type
  IsCaWrite (Event.update_control_plane _, _) = ⊥
  IsCaWrite (Event.update_control_plane_status _, _) = ⊥
  IsCaWrite (Event.create_plane _, _) = ⊥
  IsCaWrite (Event.update_plane _ _, _) = ⊥
  IsCaWrite (Event.delete_plane _, _) = ⊥
  IsCaWrite _ = Unit {0}

  ca_secret-IsCaSecret :
      (ca_data key : Bytes)
      → (ca_data == "") ≡ false
      → IsCaSecret r cluster
          (ca_secret r cluster ca_data (r.toolkit.pem_encode_to_memory "RSA PRIVATE KEY" key))
  unfolding ca_secret
  ca_secret-IsCaSecret ca_data key h = record {
    ca_data = ca_data;
    key = key;
    present = ne_of_beq ca_data "" h;
    named = refl;
    placed = refl;
    labelled = refl;
    owned = refl;
    typed = refl;
    content = refl;
  }

  with_dummy_key-IsCaSecret :
      (ca_data : Bytes) → Gives (IsCaSecret r cluster) (with_dummy_key r cluster ca_data)
  unfolding with_dummy_key
  with_dummy_key-IsCaSecret ca_data = search (gives_rules, ca_secret-IsCaSecret)

  refreshed-IsCaUpdate :
      (existing ca : Secret)
      → IsCaSecret r cluster ca
      → not (existing.secret_type == ca.secret_type) ≡ false
      → IsCaUpdate r cluster (refreshed existing ca)
  refreshed-IsCaUpdate existing ca h e = record {
    ca = ca;
    is_ca = h;
    same_entries = refl;
    same_labels = refl;
    same_type = eq_of_not_beq existing.secret_type ca.secret_type e;
  }

  other_type :
      (existing ca : Secret)
      → IsCaSecret r cluster ca
      → not (existing.secret_type == ca.secret_type) ≡ true
      → existing.secret_type ≢ r.toolkit.cluster_secret_type
  other_type existing ca h e p =
      ne_of_not_beq existing.secret_type ca.secret_type e (p ∙ sym h.typed)

  replace_ca_secret-IsCaWrite :
      (existing ca : Secret)
      → IsCaSecret r cluster ca
      → Emits (IsCaWrite) (replace_ca_secret r existing ca)
  unfolding replace_ca_secret
  replace_ca_secret-IsCaWrite existing ca h =
      Emits-if _ _ _
        (λ e.
          Emits-bind _ _ (Emits-or_wrap _ _ _ (Emits-call _ _ (λ _. other_type existing ca h e)))
            (λ _. Emits-call _ _ (λ _. h)))
        (λ e. Emits-call _ _ (λ _. refreshed-IsCaUpdate existing ca h e))

  put_ca_secret-IsCaWrite :
      (existing ca : Secret) (found : Caught Secret)
      → IsCaSecret r cluster ca
      → Emits (IsCaWrite) (put_ca_secret r existing ca found)
  unfolding put_ca_secret
  put_ca_secret-IsCaWrite existing ca (returned x) h = replace_ca_secret-IsCaWrite x ca h
  put_ca_secret-IsCaWrite existing ca (raised e) h =
      search (emits_rules, replace_ca_secret-IsCaWrite)

  no_clusters-IsCaWrite : (m : Dict String ConfigCluster) → Emits IsCaWrite (no_clusters r m)
  unfolding no_clusters
  no_clusters-IsCaWrite [] = search emits_rules
  no_clusters-IsCaWrite (x ∷ rest) = search emits_rules

  module _ (c : ClientInterface W) (ncp : NoPlaneControlPlane) where
    build_ca_secret-IsCaSecret : Gives (IsCaSecret r cluster) (build_ca_secret r c cluster ncp)
    unfolding build_ca_secret
    build_ca_secret-IsCaSecret = search (gives_rules, with_dummy_key-IsCaSecret)

    build_ca_secret-IsCaWrite : Emits IsCaWrite (build_ca_secret r c cluster ncp)
    unfolding build_ca_secret with_dummy_key
    build_ca_secret-IsCaWrite = search (emits_rules, no_clusters-IsCaWrite) depth 9

    regenerate-IsCaWrite :
        (existing : Secret) → Emits IsCaWrite (regenerate r c cluster ncp existing)
    unfolding regenerate
    regenerate-IsCaWrite existing =
        Emits-bind-Gives (IsCaSecret r cluster) _ _ build_ca_secret-IsCaSecret
          build_ca_secret-IsCaWrite
          (λ ca h.
            Emits-bind _ _ (Emits-attempt _ (Emits-call _ _ (λ _. tt)))
              (λ found. put_ca_secret-IsCaWrite existing ca found h))

    after_first_read-IsCaWrite :
        (got : Caught Secret) → Emits IsCaWrite (after_first_read r c cluster ncp got)
    unfolding after_first_read
    after_first_read-IsCaWrite (returned x) = search (emits_rules, regenerate-IsCaWrite)
    after_first_read-IsCaWrite (raised e) = search (emits_rules, regenerate-IsCaWrite)

    -- Every secret that is created is the CA secret of the cluster: it has the name of the cluster
    -- with "-ca", the cluster's namespace, label and owner reference and the type of cluster secrets,
    -- and its data are a certificate that is not empty under "tls.crt" and a key in PEM under
    -- "tls.key". Every update gives an object of that type such data and labels, only objects of
    -- another type are deleted, and no other object and no plane is written, whatever the world
    -- answers; if the calls before were of this kind.
    pub reconcile_ca_secret-IsCaWrite :
        (s : Sys W Event)
        → All IsCaWrite s.trace
        → All IsCaWrite (reconcile_ca_secret r c cluster ncp s).1.trace
    unfolding reconcile_ca_secret
    reconcile_ca_secret-IsCaWrite s =
        (Emits-bind _ _ (Emits-attempt _ (Emits-call _ _ (λ _. tt))) after_first_read-IsCaWrite).at
          s

module _ {W : Type 0} (r : NoPlaneControlPlaneReconciler W) (c : ClientInterface W)
    (cluster : Cluster) (ncp : NoPlaneControlPlane) (s : Sys W Event) where
  -- A CA secret that has a private key is left alone: the read of it is the only call.
  pub reconcile_ca_secret_kept :
      {x : Secret}
      → (r.kube.get_secret (ca_key cluster) s.world).0 ≡ ok x
      → entry "tls.key" x.entries ≢ ""
      → reconcile_ca_secret r c cluster ncp s ≡ (
        ok tt,
        record {
          world = (r.kube.get_secret (ca_key cluster) s.world).1;
          trace = (Event.get_secret (ca_key cluster), done) ∷ s.trace;
        },
      )
  unfolding reconcile_ca_secret ◌>>=◌
  reconcile_ca_secret_kept {x} e h =
      ground (arith, string_eq.beq_iff (entry "tls.key" x.entries) "")

  -- Where no private key is read, success means that exactly one secret was created or updated.
  pub reconcile_ca_secret_stored :
      lacks_key (r.kube.get_secret (ca_key cluster) s.world).0 ≡ true
      → (reconcile_ca_secret r c cluster ncp s).0 ≡ ok tt
      → count is_stored (reconcile_ca_secret r c cluster ncp s).1.trace
        ≡ count is_stored s.trace + 1
  unfolding reconcile_ca_secret ◌>>=◌
  reconcile_ca_secret_stored h k = ground arith

  -- If the CA secret is not reconciled but an error is returned, no secret was created or
  -- updated.
  pub reconcile_ca_secret_failed :
      {e : Error}
      → (reconcile_ca_secret r c cluster ncp s).0 ≡ err e
      → count is_stored (reconcile_ca_secret r c cluster ncp s).1.trace ≡ count is_stored s.trace
  unfolding reconcile_ca_secret ◌>>=◌
  reconcile_ca_secret_failed h = ground arith
