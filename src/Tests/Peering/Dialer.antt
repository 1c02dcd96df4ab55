-- ===== src/Tests/Peering/Dialer.antt =====
-- Tests of the dialer controller (control-plane/connect-inject/controllers/peering).
use consul_k8s.Base.{◌≡◌, ◌≢◌, refl, Bool, true, false, none, []}
use consul_k8s.Base.{string_dec, arith}
use consul_k8s.Base.Dict
use consul_k8s.Peering.{found, finalizer_name, get_secret, set_synced_condition}
use consul_k8s.Peering.Version.{record_version}
use consul_k8s.Peering.Dialer.{reconcile}
use consul_k8s.Peering.Dialer.Plan.{plan, perform, reconcile_establishes}
use consul_k8s.Peering.Dialer.Again.{IsLawfulStore, reconcile_again}
use consul_k8s.Peering.Dialer.Deletion.{reconcile_deletes}
use consul_k8s.Tests.Peering.{
  memory, resource, cluster, world, find_resource, find_secret, find_resource-named,
}

memory-IsLawfulStore : IsLawfulStore (memory none)
unfolding find_resource
memory-IsLawfulStore = record {
  named = λ k name namespace o. find_resource-named k.resources name namespace o;
  get-update_status = λ k o e. ground arith;
  secret-update_status = λ k o name namespace. refl;
  read-establish = λ c name token e. ground arith;
}

here : (b : Bool) → find_resource (cluster b).resources "peer" "default" ≡ found (resource b)
unfolding find_resource string_dec
here b = refl

reconcile_establishes_example :
    (reconcile (memory none) "peer" "default" (world none false [])).0.consul
    ≡ perform
        (memory none)
        (plan (memory none) (resource false) (world none false []))
        (resource false)
        []
unfolding string_dec
reconcile_establishes_example =
    reconcile_establishes (memory none) "peer" "default" (resource false) (world none false [])
      (here false) refl refl refl refl

no_error : (reconcile (memory none) "peer" "default" (world none false [])).1 ≡ none
unfolding reconcile find_resource find_secret string_dec get_secret Dict.lookup record_version
    set_synced_condition
no_error = refl

reconcile_again_example :
    (reconcile
      (memory none)
      "peer"
      "default"
      (reconcile (memory none) "peer" "default" (world none false [])).0).0.consul
    ≡ (reconcile (memory none) "peer" "default" (world none false [])).0.consul
unfolding string_dec
reconcile_again_example =
    reconcile_again (memory none) memory-IsLawfulStore "peer" "default" (resource false)
      (world none false []) (here false) refl refl no_error

reconcile_deletes_example :
    ((reconcile (memory none) "peer" "default" (world none true [])).1 ≡ none
      → (((memory none).peerings.delete [] "peer").1 ≡ none)
        × ((reconcile (memory none) "peer" "default" (world none true [])).0.kube
            ≡ ((memory none).resources.update (cluster true) (record (resource true) {
              finalizers = (memory none).remove_finalizer (resource true).finalizers finalizer_name;
            })).0))
    × (((memory none).peerings.delete [] "peer").1 ≢ none
        → (reconcile (memory none) "peer" "default" (world none true [])).0.kube ≡ cluster true)
unfolding string_dec
reconcile_deletes_example =
    reconcile_deletes (memory none) "peer" "default" (resource true) (world none true [])
      (here true) refl refl
