-- ===== src/Catalog/ServiceResource.antt =====
-- control-plane/catalog/to-consul/resource.go: `ServiceResource`, which turns the services and
-- endpoints of Kubernetes into registrations and hands all of them to a syncer. The lock makes each
-- handler one step. The children have the generation of registrations, and the handlers.
pub mod BaseService
pub mod Generate
pub mod Handlers
use consul_k8s.Base.{
  String, ◌<>◌, Bool, true, false, not, ◌&&◌, ◌||◌, Option, none, some, List, [], ◌∷◌, Result,
}
use consul_k8s.Base.{◌==◌, if◌then◌else◌, contains}
use consul_k8s.Base.Int.{ℤ}
use consul_k8s.Base.Strconv.{parse_bool}
use consul_k8s.Base.Dict
use consul_k8s.Base.Dict.{Dict}
use consul_k8s.Catalog.ConsulSyncer.{Registration}

-- `apiv1.ServiceType`
pub data ServiceType : Type 0 where
  cluster_ip node_port load_balancer external_name : ServiceType

pub record ServicePort : Type 0 where
  pub name : String
  pub port : ℤ
  pub node_port : ℤ

pub record Ingress : Type 0 where
  pub ip : String
  pub hostname : String

-- `apiv1.Service`
pub record Service : Type 0 where
  pub name : String
  pub namespace : String
  pub annotations : Dict String
  pub kind : ServiceType
  pub external_ips : List String
  pub ports : List ServicePort
  pub ingress : List Ingress

pub record EndpointAddress : Type 0 where
  pub ip : String
  pub hostname : String
  pub node_name : Option String
  pub target_ref : Option (String × String)

pub record EndpointPort : Type 0 where
  pub name : String
  pub port : ℤ

pub record Subset : Type 0 where
  pub addresses : List EndpointAddress
  pub ports : List EndpointPort

-- `apiv1.Endpoints`
abbrev pub Endpoints : Type 0
Endpoints = List Subset

pub data NodeAddressType : Type 0 where
  internal_ip external_ip hostname_address : NodeAddressType

pub data NodePortSyncType : Type 0 where
  external_only external_first internal_only : NodePortSyncType

-- What a handler reads of Kubernetes while it runs: the endpoints of a service, by its namespace and
-- name, and the addresses of a node. `short_hash` is the first twelve hexadecimal digits of SHA-1.
pub record Reader : Type 0 where
  pub endpoints : String → String → Result Endpoints
  pub node : String → Result (List (NodeAddressType × String))
  pub short_hash : String → String

-- The fields that configure it. A set of namespaces is a list.
pub record Settings : Type 0 where
  pub allow_k8s_namespaces_set : List String
  pub deny_k8s_namespaces_set : List String
  pub consul_k8s_tag : String
  pub consul_service_prefix : String
  pub explicit_enable : Bool
  pub cluster_ip_sync : Bool
  pub load_balancer_endpoints_sync : Bool
  pub node_port_sync : NodePortSyncType
  pub add_k8s_namespace_suffix : Bool
  pub enable_namespaces : Bool
  pub consul_destination_namespace : String
  pub enable_k8s_ns_mirroring : Bool
  pub k8s_ns_mirroring_prefix : String
  pub consul_node_name : String

-- The maps, under keys of the form <namespace>/<name>.
pub record ServiceResource : Type 0 where
  pub service_map : Dict Service
  pub endpoints_map : Dict Endpoints
  pub consul_map : Dict (List Registration)

abbrev pub annotation_service_sync : String
annotation_service_sync = "consul.hashicorp.com/service-sync"

-- Whether the type of service has its instances at endpoints.
abbrev pub uses_endpoints : Settings → ServiceType → Bool
uses_endpoints c node_port = true
uses_endpoints c cluster_ip = true
uses_endpoints c load_balancer = c.load_balancer_endpoints_sync
uses_endpoints c external_name = false

abbrev pub is_cluster_ip : ServiceType → Bool
is_cluster_ip cluster_ip = true
is_cluster_ip _ = false

unfoldable pub should_sync : Settings → Service → Bool
should_sync c svc =
    if contains c.deny_k8s_namespaces_set svc.namespace
    then false
    else if not (contains c.allow_k8s_namespaces_set "*")
        && not (contains c.allow_k8s_namespaces_set svc.namespace)
    then false
    else if is_cluster_ip svc.kind && not c.cluster_ip_sync
    then false
    else elim (Dict.lookup annotation_service_sync svc.annotations) [
      | none ↦ not c.explicit_enable
      | some raw ↦ elim (parse_bool raw) [ none ↦ not c.explicit_enable | some v ↦ v ]
    ]

unfoldable pub should_track_endpoints : Settings → String → ServiceResource → Bool
should_track_endpoints c key t = elim (Dict.lookup key t.service_map) [
  | none ↦ false
  | some svc ↦ uses_endpoints c svc.kind
]

unfoldable pub add_prefix_and_k8s_namespace : Settings → String → String → String
add_prefix_and_k8s_namespace c name namespace =
    let named = if c.consul_service_prefix == "" then name else c.consul_service_prefix <> name in
    if c.add_k8s_namespace_suffix then named <> "-" <> namespace else named
