-- ===== src/Tests/Peering/Acceptor.antt =====
-- Tests of the acceptor controller (control-plane/connect-inject/controllers/peering).
use consul_k8s.Base.{◌≡◌, refl, Bool, false, none, []}
use consul_k8s.Base.{string_dec, arith}
use consul_k8s.Base.Dict
use consul_k8s.Peering.{found, get_secret, set_synced_condition}
use consul_k8s.Peering.Version.{record_version}
use consul_k8s.Peering.Acceptor.{reconcile, delete_stale}
use consul_k8s.Peering.Acceptor.Plan.{plan, plan_secret, perform, generate, reconcile_generates}
use consul_k8s.Peering.Acceptor.Tokens.{IsLawfulSecrets, HasToken, reconcile_stores}
use consul_k8s.Tests.Peering.{
  memory, resource, cluster, world, find_resource, find_secret, find_secret-named, find_secret-drop,
}

memory-IsLawfulSecrets : IsLawfulSecrets (memory none)
unfolding find_secret
memory-IsLawfulSecrets = record {
  get-create = λ k s e. (s, ground arith, refl);
  get-update = λ k s e. (s, ground arith, refl);
  get-delete = λ k s name namespace other. find_secret-drop k.secrets name namespace s.name other;
  named = λ k name namespace s e. find_secret-named k.secrets name namespace s e;
  secret-update_status = λ k o name namespace. refl;
}

here : (b : Bool) → find_resource (cluster b).resources "peer" "default" ≡ found (resource b)
unfolding find_resource string_dec
here b = refl

reconcile_generates_example :
    (reconcile (memory none) "peer" "default" (world none false [])).0.consul
    ≡ perform
        (memory none)
        (plan (memory none) (resource false) (world none false []))
        (resource false)
        []
unfolding string_dec
reconcile_generates_example =
    reconcile_generates (memory none) "peer" "default" (resource false) (world none false [])
      (here false) refl refl refl refl

no_error : (reconcile (memory none) "peer" "default" (world none false [])).1 ≡ none
unfolding reconcile find_resource find_secret string_dec get_secret Dict.lookup record_version
    set_synced_condition
no_error = refl

due : plan_secret (memory none) (resource false) (world none false []) ≡ generate
unfolding find_secret string_dec get_secret delete_stale
due = refl

reconcile_stores_example :
    HasToken
      (memory none)
      memory-IsLawfulSecrets
      (resource false)
      "generated"
      (reconcile (memory none) "peer" "default" (world none false [])).0.kube
unfolding string_dec
reconcile_stores_example =
    reconcile_stores (memory none) memory-IsLawfulSecrets "peer" "default" "generated"
      (resource false) (world none false []) (here false) refl refl refl due refl no_error
