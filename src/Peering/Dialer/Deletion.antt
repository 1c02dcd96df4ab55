-- ===== src/Peering/Dialer/Deletion.antt =====
-- The deletion of a dialer
-- (control-plane/connect-inject/controllers/peering/peering_dialer_controller.go).
use consul_k8s.Base.{◌≡◌, ◌≢◌, String, true, none, arith, contains}
use consul_k8s.Peering.{Setting, World, Resource, found, finalizer_name}
use consul_k8s.Peering.Dialer.{reconcile_deleted, reconcile_present, reconcile}

-- A reconcile of a deleted dialer with the finalizer keeps the finalizer until Consul has deleted
-- the peering: without an error, the deletion succeeded and the dialer was sent without the
-- finalizer; and if the deletion failed, Kubernetes was left alone.
pub reconcile_deletes :
    (E : Setting) (name namespace : String) (o : Resource) (w : World E)
    → E.resources.get w.kube name namespace ≡ found o
    → o.deleting ≡ true
    → contains o.finalizers finalizer_name ≡ true
    → ((reconcile E name namespace w).1 ≡ none
        → ((E.peerings.delete w.consul name).1 ≡ none)
          × ((reconcile E name namespace w).0.kube
              ≡ (E.resources.update w.kube
                  (record o { finalizers = E.remove_finalizer o.finalizers finalizer_name })).0))
      × ((E.peerings.delete w.consul name).1 ≢ none
          → (reconcile E name namespace w).0.kube ≡ w.kube)
unfolding reconcile reconcile_present reconcile_deleted
reconcile_deletes E name namespace o w there gone kept = (
  λ done. ground (arith, there, gone, kept, done),
  λ failed. ground (arith, there, gone, kept, failed),
)
