-- ===== src/ConnectInject/Pods.antt =====
-- What control-plane/connect-inject/controllers/endpoints/endpoints_controller.go reads of a pod and of
-- the namespace and labels of its endpoints.
use consul_k8s.Base.{
  String, ◌<>◌, Bool, true, false, not, ◌&&◌, ◌||◌, Option, none, some, List, [], ◌∷◌,
}
use consul_k8s.Base.{◌==◌, if◌then◌else◌, contains}
use consul_k8s.Base.Int.{ℤ, pos}
use consul_k8s.Base.Strings.{chars}
use consul_k8s.Base.Strconv.{NumError, parse_bool}
use consul_k8s.Base.Dict
use consul_k8s.Base.Dict.{Dict}
use consul_k8s.ParseTags.{parse_tags}
use consul_k8s.ConnectInject.{Pod, IntOrString, int, string}
use consul_k8s.ConnectInject.Common.{port_value}
use consul_k8s.ConnectInject.Upstreams.{service_name}

abbrev pub key_inject_status : String
key_inject_status = "consul.hashicorp.com/connect-inject-status"

abbrev pub annotation_gateway_kind : String
annotation_gateway_kind = "consul.hashicorp.com/gateway-kind"

abbrev pub label_service_ignore : String
label_service_ignore = "consul.hashicorp.com/service-ignore"

abbrev pub annotation_tags : String
annotation_tags = "consul.hashicorp.com/service-tags"

unfoldable pub service_id : Pod → String → String
service_id pod endpoints = pod.name <> "-" <> service_name pod endpoints

unfoldable pub proxy_service_name : Pod → String → String
proxy_service_name pod endpoints = service_name pod endpoints <> "-sidecar-proxy"

unfoldable pub proxy_service_id : Pod → String → String
unfolding proxy_service_name
proxy_service_id pod endpoints = pod.name <> "-" <> proxy_service_name pod endpoints

-- Sets of namespaces are lists.
unfoldable pub should_ignore : String → List String → List String → Bool
should_ignore namespace deny_set allow_set =
    if namespace == "kube-system" || namespace == "kube-public" || namespace == "local-path-storage"
    then true
    else if contains deny_set namespace
    then true
    else not (contains allow_set "*") && not (contains allow_set namespace)

unfoldable pub has_been_injected : Pod → Bool
has_been_injected pod = elim (Dict.lookup key_inject_status pod.annotations) [
  | none ↦ false
  | some status ↦ status == "injected"
]

unfoldable pub is_gateway : Pod → Bool
is_gateway pod = elim (Dict.lookup annotation_gateway_kind pod.annotations) [
  | none ↦ false
  | some kind ↦ not (kind == "")
]

unfoldable pub is_labeled_ignore : Dict String → Bool
is_labeled_ignore labels = elim (Dict.lookup label_service_ignore labels) [
  | none ↦ false
  | some value ↦ elim (parse_bool value) [ none ↦ false | some v ↦ v ]
]

-- The loop of `consulTags`.
unfoldable pub interpolate : Pod → List String → List String
interpolate pod [] = []
interpolate pod (t ∷ ts) = (if t == "$POD_NAME" then pod.name else t) ∷ interpolate pod ts

unfoldable pub consul_tags : Pod → List String
unfolding interpolate
consul_tags pod = elim (Dict.lookup annotation_tags pod.annotations) [
  | none ↦ []
  | some raw ↦ if raw == "" then [] else interpolate pod (parse_tags raw)
]

unfoldable pub consul_health_check_id : String → String → String
consul_health_check_id k8s_ns service_id = k8s_ns <> "/" <> service_id

unfoldable pub get_health_check_status_reason : String → String → String → String
get_health_check_status_reason status pod_name pod_namespace =
    if status == "passing"
    then "Kubernetes health checks passing"
    else "Pod \"" <> pod_namespace <> "/" <> pod_name <> "\" is not ready"

-- The error is that of PortValue.
unfoldable pub port_value_from_int_or_string : Pod → IntOrString → Option NumError × ℤ
port_value_from_int_or_string pod (int v) = (none, v)
port_value_from_int_or_string pod (string s) =
    let (e, port) = port_value pod (chars s) in
    elim e [ some e' ↦ (some e', pos 0) | none ↦ (none, port) ]
