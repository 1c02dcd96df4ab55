-- ===== src/ConnectInject/Endpoints/Services.antt =====
-- control-plane/connect-inject/controllers/endpoints/endpoints_controller.go: `createServiceRegistrations`,
-- the service of a pod and its sidecar proxy.
pub mod Made
pub mod Meta
use consul_k8s.Base.{
  ℕ, ◌+◌, String, ◌<>◌, Bool, true, false, not, ◌&&◌, Option, none, some, List, [], ◌∷◌, ◌++◌,
}
use consul_k8s.Base.{◌==◌, if◌then◌else◌, get_or, Result}
use consul_k8s.Base.Int.{ℤ, pos, negsuc, is_positive, int_eq}
use consul_k8s.Base.Strings.{Chars, chars, text, split, after_prefix}
use consul_k8s.Base.Dict
use consul_k8s.Base.Dict.{Dict}
use consul_k8s.ConnectInject.{Pod, Container, Probe, IntOrString, int, string}
use consul_k8s.ConnectInject.Outcome.{Outcome, panic, fail, done, ◌>>=◌, returned, required}
use consul_k8s.ConnectInject.Common.{
  int32, port_value, key_transparent_proxy, annotation_overwrite_probes, transparent_proxy_enabled,
  should_overwrite_probes,
}
use consul_k8s.ConnectInject.Upstreams.{
  Upstream, nth, service_name, get_multi_port_idx, process_upstreams,
}
use consul_k8s.ConnectInject.Pods.{
  service_id, proxy_service_name, proxy_service_id, consul_tags, consul_health_check_id,
  get_health_check_status_reason, port_value_from_int_or_string,
}
use consul_k8s.ConnectInject.Deregister.{consul_node_name, meta_key_pod_name}
use consul_k8s.ConnectInject.Metrics.{
  annotation_port, annotation_of, enable_metrics, prometheus_scrape_port,
}
use consul_k8s.ConnectInject.Endpoints.{
  Endpoints, ServicePort, ConfigValue, word, ExposePath, ProxyConfig, ServiceAddress, AgentService,
  Registration, KubeApi, Calls, Controller, upstream_settings, namespace_of,
}

abbrev pub annotation_meta : String
annotation_meta = "consul.hashicorp.com/service-meta-"

abbrev pub annotation_original_pod : String
annotation_original_pod = "consul.hashicorp.com/original-pod"

-- `multiPort[getMultiPortIdx(pod, serviceEndpoints)]`
abbrev pub port_at : ℤ → List Chars → Outcome Chars
port_at (negsuc _) parts = panic
port_at (pos i) parts = elim (nth i parts) [ none ↦ panic | some part ↦ done part ]

-- The part of the annotation that is this service's. A text without a comma is its own part.
abbrev pub port_text : ℤ → List Chars → Outcome Chars
port_text idx [] = done []
port_text idx (raw ∷ []) = done raw
port_text idx (a ∷ b ∷ more) = port_at idx (a ∷ b ∷ more)

-- A port that is not positive is left out, with its error.
abbrev pub positive_port : Calls → Pod → Chars → Outcome ℤ
positive_port calls pod raw =
    let (e, port) = port_value pod raw in
    if is_positive port
    then elim e [ none ↦ done port | some e' ↦ fail (calls.port_error (text raw) e') ]
    else done (pos 0)

unfoldable pub consul_service_port : Calls → Pod → String → Outcome ℤ
consul_service_port calls pod endpoints = elim (annotation_of pod annotation_port) [
  | none ↦ done (pos 0)
  | some value ↦ do
    raw ← port_text (get_multi_port_idx pod endpoints) (split 44 (chars value))
    positive_port calls pod raw
]

abbrev pub base_meta : Pod → Endpoints → Dict String
base_meta pod ep =
    (meta_key_pod_name, pod.name)
    ∷ ("k8s-service-name", ep.name)
    ∷ ("k8s-namespace", ep.namespace)
    ∷ ("managed-by", "consul-k8s-endpoints-controller")
    ∷ ("synthetic-node", "true")
    ∷ []

-- The key under which an annotation is kept: what follows the prefix, if anything does.
abbrev pub key_of : Option Chars → Option String
key_of none = none
key_of (some rest) = if text rest == "" then none else some (text rest)

abbrev pub meta_key : String → Option String
meta_key k = key_of (after_prefix (chars annotation_meta) (chars k))

abbrev pub meta_value : Pod → String → String
meta_value pod v = if v == "$POD_NAME" then pod.name else v

-- The loop over the annotations.
unfoldable pub add_meta : Pod → Dict String → Dict String → Dict String
add_meta pod [] meta = meta
add_meta pod ((k, v) ∷ more) meta = elim (meta_key k) [
  | none ↦ add_meta pod more meta
  | some key ↦ add_meta pod more (Dict.insert key (meta_value pod v) meta)
]

unfoldable pub meta_of : Pod → Endpoints → Dict String
unfolding add_meta
meta_of pod ep = add_meta pod pod.annotations (base_meta pod ep)

-- A registration on the node of the mesh, with the check of the pod.
abbrev pub registration_of : Pod → String → AgentService → String → Registration
registration_of pod status svc consul_ns = record {
  node = consul_node_name;
  address = "127.0.0.1";
  node_meta = ("synthetic-node", "true") ∷ [];
  service = svc;
  check = record {
    check_id = consul_health_check_id pod.namespace svc.id;
    name = "Kubernetes Readiness Check";
    kind = "kubernetes-readiness";
    status = status;
    service_id = svc.id;
    output = get_health_check_status_reason status pod.name pod.namespace;
    namespace = consul_ns;
  };
  skip_node_update = true;
}

-- The proxy serves metrics on all addresses.
abbrev pub metrics_config : Calls → Controller → Pod → Outcome (Dict ConfigValue)
metrics_config calls c pod = do
  enabled ← returned (enable_metrics calls.parse_bool_error c.metrics_config pod)
  (if enabled
      then (do
        port ← returned (prometheus_scrape_port c.metrics_config pod)
        done (("envoy_prometheus_bind_addr", word ("0.0.0.0:" <> port)) ∷ []))
      else done [])

abbrev pub proxy_port : ℤ → ℤ
proxy_port (pos idx) = pos (20000 + idx)
proxy_port (negsuc _) = pos 20000

-- A port of the pod, with the error of PortValue.
abbrev pub target_text : IntOrString → String
target_text (int _) = ""
target_text (string s) = s

abbrev pub target_port_value : Calls → Pod → IntOrString → Outcome ℤ
target_port_value calls pod target =
    let (e, port) = port_value_from_int_or_string pod target in
    elim e [ none ↦ done port | some e' ↦ fail (calls.port_error (target_text target) e') ]

-- The port of the Kubernetes service that stands for the one in Consul, or 0.
unfoldable pub k8s_service_port : Calls → Pod → ℤ → List ServicePort → Outcome ℤ
k8s_service_port calls pod consul_port [] = done (pos 0)
k8s_service_port calls pod consul_port (sp ∷ more) =
    let rest = k8s_service_port calls pod consul_port more in
    do
      target ← target_port_value calls pod sp.target_port
      (if not (int_eq target (pos 0)) && int_eq target consul_port
          then done sp.port
          else if int_eq sp.port (int32 consul_port)
          then done sp.port
          else rest)

-- A probe of the container that runs, whose port is that of the original container's probe.
unfoldable pub expose_probe : Calls → Pod → Option Probe → Option Probe → Outcome (List ExposePath)
expose_probe calls original none before = done []
expose_probe calls original (some mutated) before = elim mutated.http_get [
  | none ↦ done []
  | some get ↦ elim before [
    | none ↦ panic
    | some probe ↦ elim probe.http_get [
      | none ↦ panic
      | some original_get ↦ do
        port ← target_port_value calls original original_get.port
        done (
            record {
              listener_port = calls.int_value get.port;
              local_path_port = port;
              path = get.path;
            }
            ∷ [])
    ]
  ]
]

unfoldable pub expose_container : Calls → Pod → Container → Container → Outcome (List ExposePath)
unfolding expose_probe
expose_container calls original mutated before = do
  liveness ← expose_probe calls original mutated.liveness_probe before.liveness_probe
  readiness ← expose_probe calls original mutated.readiness_probe before.readiness_probe
  startup ← expose_probe calls original mutated.startup_probe before.startup_probe
  done (liveness ++ readiness ++ startup)

-- The inner loop, over the containers of the original pod.
unfoldable pub expose_same : Calls → Pod → Container → List Container → Outcome (List ExposePath)
unfolding expose_container
expose_same calls original mutated [] = done []
expose_same calls original mutated (before ∷ more) = do
  paths ←
      if before.name == mutated.name
      then expose_container calls original mutated before
      else done []
  others ← expose_same calls original mutated more
  done (paths ++ others)

unfoldable pub expose_paths_of : Calls → Pod → List Container → Outcome (List ExposePath)
unfolding expose_same
expose_paths_of calls original [] = done []
expose_paths_of calls original (mutated ∷ more) = do
  paths ← expose_same calls original mutated original.containers
  others ← expose_paths_of calls original more
  done (paths ++ others)

-- What a transparent proxy adds to the registrations.
pub record Transparent : Type 0 where
  pub tagged_addresses : Dict ServiceAddress
  pub mode : String
  pub expose_paths : List ExposePath

-- The text that ParseBool reads for a transparent proxy.
abbrev pub transparent_text : Dict String → Pod → String
transparent_text labels pod =
    get_or (Dict.lookup key_transparent_proxy pod.annotations)
      (Dict.get key_transparent_proxy labels)

module _ {S : Type 0} (kube : KubeApi S) (calls : Calls) (c : Controller) where
  abbrev pub virtual_addresses : Pod → ℤ → String → List ServicePort → Outcome (Dict ServiceAddress)
  virtual_addresses pod port cluster_ip ports = do
    k8s_port ← k8s_service_port calls pod port ports
    done (("virtual", record { address = cluster_ip; port = k8s_port }) ∷ [])

  abbrev pub exposed : Pod → Outcome (List ExposePath)
  exposed pod = do
    overwrite ←
        required (calls.parse_bool_error (Dict.get annotation_overwrite_probes pod.annotations))
          (should_overwrite_probes pod c.tproxy_overwrite_probes)
    (if overwrite
        then (do
          original ←
              returned (calls.unmarshal_pod (Dict.get annotation_original_pod pod.annotations))
          expose_paths_of calls original pod.containers)
        else done [])

  unfoldable pub transparent_proxy : S → Pod → Endpoints → ℤ → Outcome Transparent
  transparent_proxy w pod ep port = do
    labels ← returned (kube.get_namespace w pod.namespace)
    enabled ←
        required (calls.parse_bool_error (transparent_text labels pod))
          (transparent_proxy_enabled labels pod c.enable_transparent_proxy)
    (if enabled
        then (do
          svc ← returned (kube.get_service w ep.name ep.namespace)
          tagged ←
              if calls.is_ip svc.cluster_ip
              then virtual_addresses pod port svc.cluster_ip svc.ports
              else done []
          paths ← exposed pod
          done (record {
            tagged_addresses = tagged;
            mode = if calls.is_ip svc.cluster_ip then "transparent" else "";
            expose_paths = paths;
          }))
        else done (record { tagged_addresses = []; mode = ""; expose_paths = [] }))

  abbrev pub service_of : Pod → Endpoints → ℤ → Transparent → AgentService
  service_of pod ep port t = record {
    kind = "";
    id = service_id pod ep.name;
    service = service_name pod ep.name;
    port = port;
    address = pod.pod_ip;
    meta = meta_of pod ep;
    namespace = namespace_of c pod.namespace;
    tags = consul_tags pod;
    tagged_addresses = t.tagged_addresses;
    proxy = none;
  }

  abbrev pub proxy_of :
      Pod → Endpoints → ℤ → Dict ConfigValue → List Upstream → Transparent → AgentService
  proxy_of pod ep port config upstreams t = record {
    kind = "connect-proxy";
    id = proxy_service_id pod ep.name;
    service = proxy_service_name pod ep.name;
    port = proxy_port (get_multi_port_idx pod ep.name);
    address = pod.pod_ip;
    meta = meta_of pod ep;
    namespace = namespace_of c pod.namespace;
    tags = consul_tags pod;
    tagged_addresses = t.tagged_addresses;
    proxy = some (record {
      destination_service_name = service_name pod ep.name;
      destination_service_id = service_id pod ep.name;
      config = config;
      local_service_address = if is_positive port then "127.0.0.1" else "";
      local_service_port = if is_positive port then port else pos 0;
      upstreams = upstreams;
      mode = t.mode;
      expose_paths = t.expose_paths;
    });
  }

  unfoldable pub create_service_registrations :
      S → Pod → Endpoints → String → Outcome (Registration × Registration)
  unfolding consul_service_port transparent_proxy
  create_service_registrations w pod ep status = do
    port ← consul_service_port calls pod ep.name
    config ← metrics_config calls c pod
    upstreams ← process_upstreams (upstream_settings c) pod ep.name
    t ← transparent_proxy w pod ep port
    done (
      registration_of pod status (service_of pod ep port t) (namespace_of c pod.namespace),
      registration_of pod status (proxy_of pod ep port config upstreams t)
          (namespace_of c pod.namespace),
    )
