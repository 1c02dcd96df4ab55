-- ===== src/Tests/ServiceResource.antt =====
-- Tests of control-plane/catalog/to-consul/resource.go over a Kubernetes that is kept in memory.
use consul_k8s.Base.{◌≡◌, refl, String, true, false, none, some, List, [], ◌∷◌, ok}
use consul_k8s.Base.{◌==◌, if◌then◌else◌, string_dec}
use consul_k8s.Base.Int.{ℤ, pos}
use consul_k8s.Base.Strconv.{parse_int}
use consul_k8s.Base.Dict
use consul_k8s.Base.Dict.{Dict, lookup}
use consul_k8s.Base.Nested.{lookup2, has_member}
use consul_k8s.Catalog.ConsulSyncer
use consul_k8s.Catalog.ConsulSyncer.{Registration, ConsulSyncer, init}
use consul_k8s.Catalog.ConsulSyncer.Tracking.{latest, offers}
use consul_k8s.Catalog.ServiceResource.{
  Service, cluster_ip, node_port, EndpointAddress, Endpoints, internal_ip, external_first, Reader,
  Settings, ServiceResource, should_sync, should_track_endpoints,
}
use consul_k8s.Catalog.ServiceResource.Generate.{generate_registrations}
use consul_k8s.Catalog.ServiceResource.Generate.Candidates.{instances, nonempty}
use consul_k8s.Catalog.ServiceResource.Generate.Instances.{lookup-generate_registrations}
use consul_k8s.Catalog.ServiceResource.Handlers.{
  all_registrations, Event, service_upserted, endpoints_upserted, run,
}
use consul_k8s.Catalog.ServiceResource.Handlers.InStep.{empty, run-tracks}
use consul_k8s.Catalog.ServiceResource.Handlers.Allowed.{IsToSync, run-registers_allowed}

abbrev settings : Settings
settings = record {
  allow_k8s_namespaces_set = "*" ∷ [];
  deny_k8s_namespaces_set = "kube-system" ∷ [];
  consul_k8s_tag = "k8s";
  consul_service_prefix = "";
  explicit_enable = false;
  cluster_ip_sync = true;
  load_balancer_endpoints_sync = false;
  node_port_sync = external_first;
  add_k8s_namespace_suffix = true;
  enable_namespaces = false;
  consul_destination_namespace = "";
  enable_k8s_ns_mirroring = false;
  k8s_ns_mirroring_prefix = "";
  consul_node_name = "k8s-sync";
}

abbrev at : String → EndpointAddress
at ip = record { ip = ip; hostname = ""; node_name = some "node-a"; target_ref = none }

abbrev two_pods : Endpoints
two_pods =
    record {
      addresses = at "10.0.0.1" ∷ at "10.0.0.2" ∷ at "10.0.0.1" ∷ [];
      ports = record { name = "http"; port = pos 8080 } ∷ [];
    }
    ∷ []

abbrev reader : Reader
reader = record {
  endpoints = λ namespace name. ok two_pods;
  node = λ name. ok ((internal_ip, "192.168.0.7") ∷ []);
  short_hash = λ s. s;
}

abbrev web : Service
web = record {
  name = "web";
  namespace = "shop";
  annotations = ("consul.hashicorp.com/service-port", "http") ∷ [];
  kind = cluster_ip;
  external_ips = [];
  ports = record { name = "http"; port = pos 80; node_port = pos 0 } ∷ [];
  ingress = [];
}

abbrev dns : Service
dns = record web { namespace = "kube-system" }

-- A service of a denied namespace between two of one that is allowed.
abbrev events : List Event
events =
    service_upserted reader "shop/web" (some web)
    ∷ service_upserted reader "kube-system/web" (some dns)
    ∷ endpoints_upserted reader "shop/web" (some two_pods)
    ∷ []

abbrev syncer : ConsulSyncer
syncer = init false "" "k8s"

abbrev addresses : List Registration → List (String × ℤ)
addresses [] = []
addresses (r ∷ rs) = (r.address, r.port) ∷ addresses rs

-- Two pods are two instances, at the port of the endpoints.
registered :
    addresses
      (all_registrations (run ConsulSyncer.sync settings events (empty, syncer)).0.consul_map)
    ≡ ("10.0.0.1", pos 8080) ∷ ("10.0.0.2", pos 8080) ∷ []
unfolding run lookup ConsulSyncer.sync init should_track_endpoints should_sync string_dec
    generate_registrations Dict.insert Dict.erase parse_int
registered = refl

-- On a node port, an instance has the address of the node.
on_node :
    addresses (instances settings reader (record web { kind = node_port }) (some two_pods))
    ≡ ("192.168.0.7", pos 80) ∷ ("192.168.0.7", pos 80) ∷ ("192.168.0.7", pos 80) ∷ []
unfolding generate_registrations lookup string_dec parse_int
on_node = refl

abbrev known : ServiceResource
known = record empty {
  service_map = ("shop/web", web) ∷ [];
  endpoints_map = ("shop/web", two_pods) ∷ [];
}

lookup-generate_registrations_example :
    lookup "shop/web" (generate_registrations settings reader "shop/web" known).consul_map ≡ (
      if "shop/web" == "shop/web"
      then nonempty (instances settings reader web (lookup "shop/web" known.endpoints_map))
      else lookup "shop/web" known.consul_map)
unfolding lookup string_dec
lookup-generate_registrations_example =
    lookup-generate_registrations settings reader "shop/web" "shop/web" web known refl

run-tracks_example :
    let (t, s') = run ConsulSyncer.sync settings events (empty, syncer) in
    (lookup2 "" "web-shop-web-shop-10.0.0.1" s'.namespaces
      ≡ latest "" "web-shop-web-shop-10.0.0.1" none (all_registrations t.consul_map))
    × (has_member "" "web-shop" s'.service_names
        ≡ offers "" "web-shop" (all_registrations t.consul_map))
unfolding init
run-tracks_example =
    run-tracks settings events syncer "" "web-shop-web-shop-10.0.0.1" "web-shop" refl refl

run-registers_allowed_example :
    (svc : Service) × (lookup "shop/web"
        (run ConsulSyncer.sync settings events (empty, syncer)).0.service_map
      ≡ some svc)
    × IsToSync settings svc
unfolding run lookup ConsulSyncer.sync init should_track_endpoints should_sync string_dec
    generate_registrations Dict.insert Dict.erase parse_int
run-registers_allowed_example =
    run-registers_allowed ConsulSyncer.sync settings events syncer "shop/web" refl
