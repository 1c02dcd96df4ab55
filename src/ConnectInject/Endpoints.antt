-- ===== src/ConnectInject/Endpoints.antt =====
-- The data of control-plane/connect-inject/controllers/endpoints/endpoints_controller.go: what the
-- Controller reads of Kubernetes, what it registers in Consul, and the two clients.
pub mod Services
pub mod Gateways
pub mod Reconcile
use consul_k8s.Base.{String, Bool, Option, List, Result}
use consul_k8s.Base.Int.{ℤ}
use consul_k8s.Base.Dict.{Dict}
use consul_k8s.Base.Strconv.{NumError}
use consul_k8s.Namespaces.{NamespaceApi, consul_namespace}
use consul_k8s.ConnectInject.{Pod, IntOrString}
use consul_k8s.ConnectInject.Upstreams.{Upstream}
use consul_k8s.ConnectInject.Upstreams as Upstreams
use consul_k8s.ConnectInject.Deregister.{ConsulApi, Texts}
use consul_k8s.ConnectInject.Deregister as Deregister
use consul_k8s.ConnectInject.Metrics.{Config}

-- `corev1.ObjectReference`
pub record Reference : Type 0 where
  pub kind : String
  pub name : String
  pub namespace : String

-- `corev1.EndpointAddress`
pub record EndpointAddress : Type 0 where
  pub ip : String
  pub target_ref : Option Reference

-- `corev1.EndpointSubset`
pub record Subset : Type 0 where
  pub addresses : List EndpointAddress
  pub not_ready_addresses : List EndpointAddress

-- `corev1.Endpoints`
pub record Endpoints : Type 0 where
  pub name : String
  pub namespace : String
  pub labels : Dict String
  pub subsets : List Subset

-- `corev1.ServicePort`
pub record ServicePort : Type 0 where
  pub port : ℤ
  pub target_port : IntOrString

-- `corev1.LoadBalancerIngress`
pub record Ingress : Type 0 where
  pub ip : String
  pub hostname : String

-- `corev1.Service`, of `Spec` and of `Status.LoadBalancer`.
pub record Service : Type 0 where
  pub kind : String
  pub cluster_ip : String
  pub ports : List ServicePort
  pub ingress : List Ingress

-- A value of `Config`, which is a `map[string]interface{}`.
pub data ConfigValue : Type 0 where
  word : String → ConfigValue
  flag : Bool → ConfigValue
  tables : Dict (Dict String) → ConfigValue

-- `api.ExposePath`
pub record ExposePath : Type 0 where
  pub listener_port : ℤ
  pub local_path_port : ℤ
  pub path : String

-- `api.AgentServiceConnectProxyConfig`
pub record ProxyConfig : Type 0 where
  pub destination_service_name : String
  pub destination_service_id : String
  pub config : Dict ConfigValue
  pub local_service_address : String
  pub local_service_port : ℤ
  pub upstreams : List Upstream
  pub mode : String
  pub expose_paths : List ExposePath

-- `api.ServiceAddress`
pub record ServiceAddress : Type 0 where
  pub address : String
  pub port : ℤ

-- `api.AgentService`
pub record AgentService : Type 0 where
  pub kind : String
  pub id : String
  pub service : String
  pub port : ℤ
  pub address : String
  pub meta : Dict String
  pub namespace : String
  pub tags : List String
  pub tagged_addresses : Dict ServiceAddress
  pub proxy : Option ProxyConfig

-- `api.AgentCheck`
pub record AgentCheck : Type 0 where
  pub check_id : String
  pub name : String
  pub kind : String
  pub status : String
  pub service_id : String
  pub output : String
  pub namespace : String

-- `api.CatalogRegistration`
pub record Registration : Type 0 where
  pub node : String
  pub address : String
  pub node_meta : Dict String
  pub service : AgentService
  pub check : AgentCheck
  pub skip_node_update : Bool

-- The answer of a read that tells a missing object from other errors.
pub data Lookup (A : Type 0) : Type 0 where
  found : A → Lookup A
  not_found : Lookup A
  failed : String → Lookup A

-- The client of Kubernetes. A read takes a name and a namespace; a namespace is its labels.
pub record KubeApi (S : Type 0) : Type 0 where
  pub get_endpoints : S → String → String → Lookup Endpoints
  pub get_pod : S → String → String → Result Pod
  pub get_namespace : S → String → Result (Dict String)
  pub get_service : S → String → String → Result Service

-- The clients of a Controller. `connect` is the error of the two calls that make the client of Consul.
pub record Clients (S : Type 0) : Type 0 where
  pub kube : KubeApi S
  pub connect : S → Option String
  pub register : S → Registration → S × Option String
  pub consul : ConsulApi S
  pub namespaces : NamespaceApi S

-- What the code calls of Go's library and of others: the texts of the errors of ParseBool, of PortValue
-- and of Atoi, `net.ParseIP` as a test, `IntValue`, and `json.Unmarshal` of a pod.
pub record Calls : Type 0 where
  pub parse_bool_error : String → String
  pub port_error : String → NumError → String
  pub atoi_error : String → NumError → String
  pub is_ip : String → Bool
  pub int_value : IntOrString → ℤ
  pub unmarshal_pod : String → Result Pod
  pub texts : Texts

-- `Controller`. Sets of namespaces are lists.
pub record Controller : Type 0 where
  pub allow_k8s_namespaces_set : List String
  pub deny_k8s_namespaces_set : List String
  pub enable_consul_partitions : Bool
  pub enable_consul_namespaces : Bool
  pub enable_wan_federation : Bool
  pub consul_destination_namespace : String
  pub enable_ns_mirroring : Bool
  pub ns_mirroring_prefix : String
  pub cross_ns_acl_policy : String
  pub enable_transparent_proxy : Bool
  pub tproxy_overwrite_probes : Bool
  pub auth_method : String
  pub metrics_config : Config

abbrev pub upstream_settings : Controller → Upstreams.Settings
upstream_settings c = record {
  enable_consul_namespaces = c.enable_consul_namespaces;
  enable_consul_partitions = c.enable_consul_partitions;
}

abbrev pub deregister_settings : Controller → Deregister.Settings
deregister_settings c = record {
  enable_consul_namespaces = c.enable_consul_namespaces;
  auth_method = c.auth_method;
}

-- `consulNamespace`
abbrev pub namespace_of : Controller → String → String
namespace_of c k8s_ns =
    consul_namespace k8s_ns c.enable_consul_namespaces c.consul_destination_namespace
      c.enable_ns_mirroring c.ns_mirroring_prefix
