-- ===== src/ConnectInject/Endpoints/Gateways.antt =====
-- control-plane/connect-inject/controllers/endpoints/endpoints_controller.go: `createGatewayRegistrations`
-- and `getWanData`, a mesh, terminating or ingress gateway.
pub mod Made
use Prim.Native.Nat.{◌^◌}
use consul_k8s.Base.{String, ◌<>◌, Bool, true, false, not, ◌&&◌, Option, none, some, List, [], ◌∷◌}
use consul_k8s.Base.{◌==◌, if◌then◌else◌, get_or, Result, ok, err}
use consul_k8s.Base.Int.{ℤ, pos}
use consul_k8s.Base.Strings.{chars}
use consul_k8s.Base.Strconv.{parse_int}
use consul_k8s.Base.Dict
use consul_k8s.Base.Dict.{Dict}
use consul_k8s.ConnectInject.{Pod}
use consul_k8s.ConnectInject.Outcome.{Outcome, panic, fail, done, ◌>>=◌, required}
use consul_k8s.ConnectInject.Pods.{annotation_gateway_kind}
use consul_k8s.ConnectInject.Metrics.{Config}
use consul_k8s.ConnectInject.Endpoints.{
  Endpoints, Service, Ingress, ConfigValue, word, flag, tables, ProxyConfig, ServiceAddress,
  AgentService, Registration, KubeApi, Calls, Controller,
}
use consul_k8s.ConnectInject.Endpoints.Services.{base_meta, registration_of}

abbrev pub annotation_gateway_consul_service_name : String
annotation_gateway_consul_service_name = "consul.hashicorp.com/gateway-consul-service-name"

abbrev pub annotation_mesh_gateway_container_port : String
annotation_mesh_gateway_container_port = "consul.hashicorp.com/mesh-gateway-container-port"

abbrev pub annotation_gateway_wan_source : String
annotation_gateway_wan_source = "consul.hashicorp.com/gateway-wan-address-source"

abbrev pub annotation_gateway_wan_address : String
annotation_gateway_wan_address = "consul.hashicorp.com/gateway-wan-address-static"

abbrev pub annotation_gateway_wan_port : String
annotation_gateway_wan_port = "consul.hashicorp.com/gateway-wan-port"

abbrev pub annotation_gateway_namespace : String
annotation_gateway_namespace = "consul.hashicorp.com/gateway-namespace"

abbrev pub mesh_gateway : String
mesh_gateway = "mesh-gateway"

abbrev pub terminating_gateway : String
terminating_gateway = "terminating-gateway"

abbrev pub ingress_gateway : String
ingress_gateway = "ingress-gateway"

-- The first address of a load balancer that is not empty.
unfoldable pub ingress_address : List Ingress → String
ingress_address [] = ""
ingress_address (i ∷ more) =
    let rest = ingress_address more in
    if not (i.ip == "") then i.ip else if not (i.hostname == "") then i.hostname else rest

-- The `switch` over the type of the gateway's Kubernetes service.
unfoldable pub service_address : Pod → Endpoints → Service → Outcome String
unfolding ingress_address
service_address pod ep svc =
    if svc.kind == "NodePort"
    then done pod.host_ip
    else if svc.kind == "ClusterIP"
    then done svc.cluster_ip
    else if svc.kind == "LoadBalancer"
    then elim svc.ingress [
      | [] ↦ fail (
          "failed to read ingress config for loadbalancer for service " <> ep.name
          <> " in namespace " <> ep.namespace)
      | i ∷ more ↦ done (ingress_address (i ∷ more))
    ]
    else done ""

abbrev pub no_proxy : ProxyConfig
no_proxy = record {
  destination_service_name = "";
  destination_service_id = "";
  config = [];
  local_service_address = "";
  local_service_port = pos 0;
  upstreams = [];
  mode = "";
  expose_paths = [];
}

abbrev pub ingress_proxy : ProxyConfig
ingress_proxy = record no_proxy {
  config =
      ("envoy_gateway_no_default_bind", flag true)
      ∷ (
        "envoy_gateway_bind_addresses",
        tables (("all-interfaces", ("address", "0.0.0.0") ∷ []) ∷ []),
      )
      ∷ [];
}

abbrev pub lan_and_wan : String → ℤ → String × ℤ → Dict ServiceAddress
lan_and_wan ip port (wan_addr, wan_port) =
    ("lan", record { address = ip; port = port })
    ∷ ("wan", record { address = wan_addr; port = wan_port })
    ∷ []

-- `service` before the `switch` over the kind of gateway.
abbrev pub gateway_service : Pod → Endpoints → String → AgentService
gateway_service pod ep name = record {
  kind = "";
  id = pod.name;
  service = name;
  port = pos 0;
  address = pod.pod_ip;
  meta = base_meta pod ep;
  namespace = "";
  tags = [];
  tagged_addresses = [];
  proxy = none;
}

-- The listener for metrics, of an ingress gateway beside what its proxy has.
abbrev pub metrics_proxy : Pod → Option ProxyConfig → Option ProxyConfig
metrics_proxy pod proxy =
    let address = word (pod.pod_ip <> ":20200") in
    if Dict.get annotation_gateway_kind pod.annotations == ingress_gateway
    then elim proxy [
      | none ↦ none
      | some p ↦
          some (record p { config = Dict.insert "envoy_prometheus_bind_addr" address p.config })
    ]
    else some (record no_proxy { config = ("envoy_prometheus_bind_addr", address) ∷ [] })

abbrev pub with_metrics : Config → Pod → AgentService → AgentService
with_metrics m pod svc =
    if m.default_enable_metrics && m.enable_gateway_metrics
    then record svc { proxy = metrics_proxy pod svc.proxy }
    else svc

module _ {S : Type 0} (kube : KubeApi S) (calls : Calls) (c : Controller) where
  -- `getService`, with the error that its caller makes of it.
  abbrev pub get_service : S → Endpoints → Outcome Service
  get_service w ep = elim (kube.get_service w ep.name ep.namespace) [
    | err _ ↦ fail ("failed to read service " <> ep.name <> " in namespace " <> ep.namespace)
    | ok svc ↦ done svc
  ]

  -- The `switch` over the source.
  unfoldable pub wan_address : S → Pod → Endpoints → String → Outcome String
  wan_address w pod ep source =
      if source == "NodeName"
      then done pod.node_name
      else if source == "NodeIP"
      then done pod.host_ip
      else if source == "Static"
      then done (Dict.get annotation_gateway_wan_address pod.annotations)
      else if source == "Service"
      then (do svc ← get_service w ep; service_address pod ep svc)
      else done ""

  -- `Atoi`, with the error that the caller makes of it.
  abbrev pub number : String → String → Outcome ℤ
  number e raw =
      let (failed, n) = parse_int false (2 ^ 63) (chars raw) in
      elim failed [ none ↦ done n | some _ ↦ fail e ]

  unfoldable pub get_wan_data : S → Pod → Endpoints → Outcome (String × ℤ)
  unfolding wan_address
  get_wan_data w pod ep =
      let raw = Dict.get annotation_gateway_wan_port pod.annotations in
      do
        source ←
            required ("failed to read annotation " <> annotation_gateway_wan_source)
              (Dict.lookup annotation_gateway_wan_source pod.annotations)
        address ← wan_address w pod ep source
        port ← number ("failed to parse WAN port from value " <> raw) raw
        done (address, port)

  abbrev pub container_port_error : String → String
  container_port_error raw = elim (parse_int false (2 ^ 63) (chars raw)).0 [
    | none ↦ ""
    | some e ↦ calls.atoi_error raw e
  ]

  abbrev pub as_mesh_gateway : S → Pod → Endpoints → AgentService → Outcome AgentService
  as_mesh_gateway w pod ep svc =
      let raw = Dict.get annotation_mesh_gateway_container_port pod.annotations in
      do
        port ← number (container_port_error raw) raw
        wan ← get_wan_data w pod ep
        done (record svc {
          kind = mesh_gateway;
          namespace = if c.enable_consul_namespaces then "default" else "";
          port = port;
          meta =
              if c.enable_wan_federation
              then Dict.insert "consul-wan-federation" "1" svc.meta
              else svc.meta;
          tagged_addresses = lan_and_wan pod.pod_ip port wan;
        })

  -- The namespace of the annotation, if namespaces are enabled.
  abbrev pub annotated_namespace : Pod → String
  annotated_namespace pod =
      if c.enable_consul_namespaces
      then Dict.get annotation_gateway_namespace pod.annotations
      else ""

  abbrev pub as_ingress_gateway : S → Pod → Endpoints → AgentService → Outcome AgentService
  as_ingress_gateway w pod ep svc = do
    wan ← get_wan_data w pod ep
    done (record svc {
      kind = ingress_gateway;
      namespace = annotated_namespace pod;
      port = pos 21000;
      tagged_addresses = lan_and_wan pod.pod_ip (pos 21000) wan;
      proxy = some ingress_proxy;
    })

  -- The `switch` over the kind.
  unfoldable pub as_gateway : S → Pod → Endpoints → String → AgentService → Outcome AgentService
  unfolding get_wan_data
  as_gateway w pod ep kind svc =
      if kind == mesh_gateway
      then as_mesh_gateway w pod ep svc
      else if kind == terminating_gateway
      then done (record svc {
        kind = terminating_gateway;
        port = pos 8443;
        namespace = annotated_namespace pod;
      })
      else if kind == ingress_gateway
      then as_ingress_gateway w pod ep svc
      else fail (
          annotation_gateway_kind <> " must be one of " <> mesh_gateway <> ", "
          <> terminating_gateway <> ", or " <> ingress_gateway)

  -- The namespace of the check is set with that of the service.
  unfoldable pub create_gateway_registrations : S → Pod → Endpoints → String → Outcome Registration
  unfolding as_gateway
  create_gateway_registrations w pod ep status = do
    name ←
        required
          ("failed to read annontation " <> annotation_gateway_consul_service_name <> " from pod "
            <> pod.namespace <> "/" <> pod.name)
          (Dict.lookup annotation_gateway_consul_service_name pod.annotations)
    gateway ←
        as_gateway w pod ep (Dict.get annotation_gateway_kind pod.annotations)
          (gateway_service pod ep name)
    done (registration_of pod status (with_metrics c.metrics_config pod gateway) gateway.namespace)
