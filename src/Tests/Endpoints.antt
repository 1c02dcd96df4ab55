-- ===== src/Tests/Endpoints.antt =====
-- Tests of control-plane/connect-inject/controllers/endpoints, over a Consul that is kept in memory and
-- a cluster that does not change.
use mathlib.Core.Path.{subst}
use mathlib.Core.List.{Memᴰ}
use mathlib.Core.List.Memᴰ.{head, tail}
use consul_k8s.Base.{
  ◌≡◌, refl, sym, ap, ◌∙◌, String, Bool, true, false, ◌&&◌, Option, none, some, List, [], ◌∷◌, ◌++◌,
  arith, inl, inr, Bool-cases,
}
use consul_k8s.Base.{◌==◌, if◌then◌else◌, Result, ok, err, string_dec, All}
use consul_k8s.Base.Int.{pos}
use consul_k8s.Base.Dict.{Dict, lookup}
use consul_k8s.ConnectInject.{Pod}
use consul_k8s.Base.Strings.{split, after_prefix}
use consul_k8s.Base.Strconv.{parse_int}
use consul_k8s.Namespaces.{consul_namespace}
use consul_k8s.ConnectInject.Common.{port_value, transparent_proxy_enabled}
use consul_k8s.ConnectInject.Upstreams.{service_name, process_upstreams}
use consul_k8s.ConnectInject.Metrics.{enable_metrics}
use consul_k8s.ConnectInject.Pods.{
  should_ignore, has_been_injected, is_gateway, is_labeled_ignore, service_id, proxy_service_id,
  proxy_service_name, consul_tags,
}
use consul_k8s.ConnectInject.Endpoints.Services.{create_service_registrations, meta_of}
use consul_k8s.ConnectInject.Deregister.{ServiceInstance, deregister_service}
use consul_k8s.ConnectInject.Deregister.Query.{Filter, text_of}
use consul_k8s.ConnectInject.Endpoints.{
  Endpoints, deregister_settings, found, not_found, KubeApi, Clients, Calls, Controller,
}
use consul_k8s.ConnectInject.Endpoints.Reconcile.{Visit, finished, visits, reconcile}
use consul_k8s.ConnectInject.Endpoints.Reconcile.Convergence.{
  reconcile-registers, reconcile-current,
}
use consul_k8s.ConnectInject.Endpoints.Reconcile.Removal.{reconcile-removes_all, reconcile-unread}
use consul_k8s.ConnectInject.Endpoints.Reconcile.Visits.{has_address, wants}
use consul_k8s.ConnectInject.Endpoints.Reconcile.Laws.{instance_of, is_for, holds, IsConsul}

-- The instances of the node. Of two with one namespace and identifier the first counts.
abbrev pub Node : Type 0
Node = List ServiceInstance

abbrev is_key : String → String → ServiceInstance → Bool
is_key i j s = i == s.namespace && j == s.id

abbrev view : Node → String → String → Option ServiceInstance
view [] i j = none
view (s ∷ more) i j = if is_key i j s then some s else view more i j

abbrev without : String → String → Node → Node
without i j [] = []
without i j (s ∷ more) = if is_key i j s then without i j more else s ∷ without i j more

abbrev listed : Node → Node
listed [] = []
listed (s ∷ more) = s ∷ without s.namespace s.id (listed more)

view-without :
    (w : Node) (i j ns id : String)
    → view (without ns id w) i j ≡ (if i == ns && j == id then none else view w i j)
view-without [] i j ns id = ground arith
view-without (s ∷ more) i j ns id = ground (arith, view-without more i j ns id)

-- What passes the removal of a key is seen beyond an instance of that key.
without-seen :
    (s : ServiceInstance) (w xs : Node)
    → All (λ x. view w (ServiceInstance.namespace x) (ServiceInstance.id x) ≡ some x) xs
    → All
        (λ x. view (s ∷ w) (ServiceInstance.namespace x) (ServiceInstance.id x) ≡ some x)
        (without s.namespace s.id xs)
without-seen s w [] seen = tt
without-seen s w (x ∷ xs) (here, seen) = elim (Bool-cases (is_key s.namespace s.id x)) [
  | inl same ↦ rw same (without-seen s w xs seen)
  | inr other ↦ rw other (ground (arith, other, here), without-seen s w xs seen)
]

view-listed :
    (w : Node)
    → All (λ x. view w (ServiceInstance.namespace x) (ServiceInstance.id x) ≡ some x) (listed w)
view-listed [] = tt
view-listed (s ∷ more) = (ground arith, without-seen s more (listed more) (view-listed more))

Memᴰ-without :
    (x : ServiceInstance) (i j : String) (xs : Node)
    → is_key i j x ≡ false
    → Memᴰ x xs
    → Memᴰ x (without i j xs)
Memᴰ-without x i j [] other m = elim m [ ]
Memᴰ-without x i j (y ∷ ys) other (head e) =
    let kept : is_key i j y ≡ false = sym (ap (is_key i j) e) ∙ other in rw kept (head e)
Memᴰ-without x i j (y ∷ ys) other (tail m) = elim (Bool-cases (is_key i j y)) [
  | inl gone ↦ rw gone (Memᴰ-without x i j ys other m)
  | inr kept ↦ rw kept (tail (Memᴰ-without x i j ys other m))
]

listed-view :
    (w : Node) (i j : String) (x : ServiceInstance)
    → view w i j ≡ some x
    → Memᴰ x (listed w) × (x.namespace ≡ i) × (x.id ≡ j)
listed-view [] i j x h = cc
listed-view (s ∷ more) i j x h = elim (Bool-cases (is_key i j s)) [
  | inl here ↦ (head (ground (arith, h, here)), ground (arith, h, here), ground (arith, h, here))
  | inr other ↦
      (let (m, same_ns, same_id) = listed-view more i j x (ground (arith, h, other)) in
        (
          tail (
              Memᴰ-without x s.namespace s.id (listed more)
                (ground (arith, other, same_ns, same_id)) m),
          same_ns,
          same_id,
        ))
]

abbrev marks : String → Dict String
marks name =
    ("k8s-service-name", name)
    ∷ ("k8s-namespace", "shop")
    ∷ ("managed-by", "consul-k8s-endpoints-controller")
    ∷ []

-- What is left of a pod that is gone.
abbrev stale : ServiceInstance
stale = record {
  id = "web-0-web";
  service = "web";
  namespace = "";
  address = "10.0.0.9";
  meta = marks "web";
}

-- What is left of a service that is gone.
abbrev orphan : ServiceInstance
orphan = record {
  id = "api-0-api";
  service = "api";
  namespace = "";
  address = "10.0.0.8";
  meta = marks "api";
}

abbrev pub pod_with : Dict String → Pod
pod_with annotations = record {
  name = "web-1";
  namespace = "shop";
  annotations = ("consul.hashicorp.com/connect-inject-status", "injected") ∷ annotations;
  labels =
      ("consul.hashicorp.com/connect-inject-managed-by", "consul-k8s-endpoints-controller") ∷ [];
  containers = [];
  node_name = "node-1";
  pod_ip = "10.0.0.1";
  host_ip = "192.168.0.1";
}

abbrev pod : Pod
pod = pod_with (("consul.hashicorp.com/connect-service-port", "8080") ∷ [])

abbrev pub endpoints : String → Endpoints
endpoints name = record {
  name = name;
  namespace = "shop";
  labels = [];
  subsets =
      record {
        addresses =
            record {
              ip = "10.0.0.1";
              target_ref = some (record { kind = "Pod"; name = "web-1"; namespace = "shop" });
            }
            ∷ [];
        not_ready_addresses = [];
      }
      ∷ [];
}

-- The Endpoints of the service web, and pods that can be read or not.
abbrev pub kube : Result Pod → KubeApi Node
kube read = record {
  get_endpoints = λ w name ns. if name == "web" then found (endpoints "web") else not_found;
  get_pod = λ w name ns. read;
  get_namespace = λ w name. ok [];
  get_service = λ w name ns. err "no service";
}

abbrev clients : Result Pod → Clients Node
clients read = record {
  kube = kube read;
  connect = λ w. none;
  register =
      λ w r. if r.node == "k8s-service-mesh" then (instance_of r.service ∷ w, none) else (w, none);
  consul = record {
    node_service_list =
        λ w node filter ns. ok (if node == "k8s-service-mesh" && ns == "" then listed w else []);
    deregister = λ w d.
        if d.node == "k8s-service-mesh"
        then (without d.namespace d.service_id w, none)
        else (w, none);
    token_list = λ w ns. ok [];
    token_delete = λ w accessor ns. (w, none);
  };
  namespaces = record { read = λ w ns. ok none; create = λ w ns. (w, none) };
}

abbrev no_text : String → String
no_text _ = ""

abbrev pub calls : Calls
calls = record {
  parse_bool_error = no_text;
  port_error = λ raw e. "";
  atoi_error = λ raw e. "";
  is_ip = λ ip. true;
  int_value = λ port. pos 0;
  unmarshal_pod = λ raw. err "";
  texts = record { quote = λ s. s; submatch = λ s. none; unmarshal = λ s. err "" };
}

abbrev pub controller : Controller
controller = record {
  allow_k8s_namespaces_set = "*" ∷ [];
  deny_k8s_namespaces_set = [];
  enable_consul_partitions = false;
  enable_consul_namespaces = false;
  enable_wan_federation = false;
  consul_destination_namespace = "";
  enable_ns_mirroring = false;
  ns_mirroring_prefix = "";
  cross_ns_acl_policy = "";
  enable_transparent_proxy = false;
  tproxy_overwrite_probes = false;
  auth_method = "";
  metrics_config = record {
    default_enable_metrics = false;
    enable_gateway_metrics = false;
    default_enable_metrics_merging = false;
    default_merged_metrics_port = "";
    default_prometheus_scrape_port = "";
    default_prometheus_scrape_path = "";
  };
}

abbrev in_order : List Visit → List Visit
in_order vs = vs

listed-svcs :
    (read : Result Pod) (w : Node) (f : Filter) {svcs : Node}
    → (clients read).consul.node_service_list w "k8s-service-mesh" (text_of calls.texts f) ""
      ≡ ok svcs
    → listed w ≡ svcs
unfolding string_dec
listed-svcs read w f e = ground (arith, e)

clients-IsConsul : (read : Result Pod) → IsConsul (clients read) calls controller view
clients-IsConsul read = record {
  view-register = λ w r i j e. ground arith;
  view-deregister = λ w d i j e. ground (arith, view-without w i j d.namespace d.service_id);
  view-token_delete = λ w i j accessor ns. refl;
  view-create = λ w n i j. refl;
  get_pod-register = λ w r name ns. refl;
  get_pod-create = λ w n name ns. refl;
  view-listed = λ w f svcs e.
      subst (All (λ x. view w (ServiceInstance.namespace x) (ServiceInstance.id x) ≡ some x))
        (listed-svcs read w f e) (view-listed w);
  listed-view = λ w f i j svcs svc e h marked.
      let (m, same_ns, same_id) = listed-view w i j svc h in
      (subst (Memᴰ svc) (listed-svcs read w f e) m, same_ns, same_id);
}

allowed : should_ignore "shop" [] ("*" ∷ []) ≡ false
unfolding should_ignore string_dec
allowed = refl

unlabelled : is_labeled_ignore [] ≡ false
unfolding is_labeled_ignore lookup
unlabelled = refl

there : (kube (ok pod)).get_endpoints (stale ∷ []) "web" "shop" ≡ found (endpoints "web")
unfolding string_dec
there = refl

web_answer :
    (reconcile (clients (ok pod)) calls controller in_order "web" "shop" (stale ∷ [])).1
    ≡ finished []
unfolding reconcile should_ignore string_dec is_labeled_ignore lookup has_been_injected
    create_service_registrations split port_value parse_int enable_metrics process_upstreams
    transparent_proxy_enabled is_gateway deregister_service consul_namespace proxy_service_id
    service_id proxy_service_name service_name consul_tags after_prefix
web_answer = refl

web_wanted :
    wants
      (clients (ok pod))
      controller
      (endpoints "web")
      (stale ∷ [])
      (visits in_order (endpoints "web").subsets)
      ""
      "web-1-web-sidecar-proxy"
    ≡ true
unfolding should_ignore string_dec is_labeled_ignore lookup has_been_injected
    create_service_registrations split port_value parse_int enable_metrics process_upstreams
    transparent_proxy_enabled is_gateway deregister_service consul_namespace proxy_service_id
    service_id proxy_service_name service_name consul_tags after_prefix
web_wanted = refl

-- What the reconcile leaves of the service.
abbrev registered : ServiceInstance
registered = record {
  id = "web-1-web";
  service = "web";
  namespace = "";
  address = "10.0.0.1";
  meta = ("pod-name", "web-1") ∷ marks "web" ++ ("synthetic-node", "true") ∷ [];
}

web_view :
    view
      (reconcile (clients (ok pod)) calls controller in_order "web" "shop" (stale ∷ [])).0
      ""
      "web-1-web"
    ≡ some registered
unfolding reconcile should_ignore string_dec is_labeled_ignore lookup has_been_injected
    create_service_registrations split port_value parse_int enable_metrics process_upstreams
    transparent_proxy_enabled is_gateway deregister_service consul_namespace proxy_service_id
    service_id proxy_service_name service_name consul_tags after_prefix meta_of
web_view = refl

marked : is_for "web" "shop" registered ≡ true
unfolding lookup string_dec
marked = refl

reconcile-registers_example :
    holds
      (λ svc.
        has_address
          (clients (ok pod))
          controller
          (endpoints "web")
          (stale ∷ [])
          (visits in_order (endpoints "web").subsets)
          svc.address)
      (view
        (reconcile (clients (ok pod)) calls controller in_order "web" "shop" (stale ∷ [])).0
        ""
        "web-1-web-sidecar-proxy")
    ≡ true
reconcile-registers_example =
    reconcile-registers (clients (ok pod)) calls controller view in_order
      (clients-IsConsul (ok pod)) "web" "shop" (endpoints "web") (stale ∷ []) allowed there
      unlabelled web_answer "" "web-1-web-sidecar-proxy" web_wanted

reconcile-current_example :
    has_address
      (clients (ok pod))
      controller
      (endpoints "web")
      (stale ∷ [])
      (visits in_order (endpoints "web").subsets)
      "10.0.0.1"
    ≡ true
reconcile-current_example =
    reconcile-current (clients (ok pod)) calls controller view in_order (clients-IsConsul (ok pod))
      "web" "shop" (endpoints "web") (stale ∷ []) allowed there unlabelled web_answer "" "web-1-web"
      registered web_view marked

-- The instance is there before, with the marks.
orphan_there : holds (is_for "api" "shop") (view (orphan ∷ stale ∷ []) "" "api-0-api") ≡ true
unfolding lookup string_dec
orphan_there = refl

reconcile-removes_all_example :
    holds (is_for "api" "shop") (
      view
        (reconcile
          (clients (ok pod))
          calls
          controller
          in_order
          "api"
          "shop"
          (orphan ∷ stale ∷ [])).0
        ""
        "api-0-api")
    ≡ false
unfolding reconcile should_ignore string_dec deregister_service
reconcile-removes_all_example =
    reconcile-removes_all (clients (ok pod)) calls controller view in_order
      (clients-IsConsul (ok pod)) "api" "shop" (orphan ∷ stale ∷ []) refl tt refl "" "api-0-api"

reconcile-unread_example :
    (reconcile (clients (err "timeout")) calls controller in_order "web" "shop" (stale ∷ [])).0
    ≡ (deregister_service
        (clients (err "timeout")).consul
        calls.texts
        (deregister_settings controller)
        "web"
        "shop"
        none
        (stale ∷ [])).0
unfolding reconcile should_ignore string_dec is_labeled_ignore lookup
reconcile-unread_example =
    reconcile-unread (clients (err "timeout")) calls controller in_order "web" "shop"
      (endpoints "web") (stale ∷ []) "timeout" refl refl refl refl (λ name ns. refl)
