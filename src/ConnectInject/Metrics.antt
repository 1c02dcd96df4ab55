-- ===== src/ConnectInject/Metrics.antt =====
-- control-plane/connect-inject/metrics/metrics_configuration.go: which metrics are served, and where.
pub mod Running
use Prim.Native.Nat.{◌^◌}
use consul_k8s.Base.{
  ℕ, ◌-◌, String, ◌<>◌, Bool, true, false, not, ◌&&◌, ◌||◌, Option, none, some, List, [], ◌∷◌,
}
use consul_k8s.Base.{◌==◌, if◌then◌else◌, ltb, Result, ok, err}
use consul_k8s.Base.Int.{ℤ, pos, negsuc, is_positive}
use consul_k8s.Base.Strings.{chars}
use consul_k8s.Base.Strconv.{parse_int, parse_bool, format_int}
use consul_k8s.Base.Dict
use consul_k8s.ConnectInject.{Pod}
use consul_k8s.ConnectInject.Common.{port_value}

-- `Config`
pub record Config : Type 0 where
  pub default_enable_metrics : Bool
  pub enable_gateway_metrics : Bool
  pub default_enable_metrics_merging : Bool
  pub default_merged_metrics_port : String
  pub default_prometheus_scrape_port : String
  pub default_prometheus_scrape_path : String

pub record MetricsPorts : Type 0 where
  pub merged_port : String
  pub service_port : String
  pub service_path : String

abbrev pub annotation_port : String
annotation_port = "consul.hashicorp.com/connect-service-port"

abbrev pub annotation_enable_metrics : String
annotation_enable_metrics = "consul.hashicorp.com/enable-metrics"

abbrev pub annotation_enable_metrics_merging : String
annotation_enable_metrics_merging = "consul.hashicorp.com/enable-metrics-merging"

abbrev pub annotation_merged_metrics_port : String
annotation_merged_metrics_port = "consul.hashicorp.com/merged-metrics-port"

abbrev pub annotation_prometheus_scrape_port : String
annotation_prometheus_scrape_port = "consul.hashicorp.com/prometheus-scrape-port"

abbrev pub annotation_prometheus_scrape_path : String
annotation_prometheus_scrape_path = "consul.hashicorp.com/prometheus-scrape-path"

abbrev pub annotation_service_metrics_port : String
annotation_service_metrics_port = "consul.hashicorp.com/service-metrics-port"

abbrev pub annotation_service_metrics_path : String
annotation_service_metrics_path = "consul.hashicorp.com/service-metrics-path"

-- The annotation, if the pod has it and it is not empty.
abbrev pub annotation_of : Pod → String → Option String
annotation_of pod annotation = elim (Dict.lookup annotation pod.annotations) [
  | none ↦ none
  | some raw ↦ if raw == "" then none else some raw
]

-- `port < low || port > 65535`
abbrev pub out_of_ports : ℕ → ℤ → Bool
out_of_ports low (pos n) = ltb n low || ltb 65535 n
out_of_ports low (negsuc n) = true

abbrev pub range_name : Bool → String
range_name privileged =
    if privileged then "valid port range 1-65535" else "unprivileged port range 1024-65535"

unfoldable pub determine_and_validate_port : Pod → String → String → Bool → Result String
determine_and_validate_port pod annotation default_port privileged =
    elim (annotation_of pod annotation) [
      | some raw ↦
          (let (e, port) = port_value pod (chars raw) in
            elim e [
              | some _ ↦
                  err (annotation <> " annotation value of " <> raw <> " is not a valid integer")
              | none ↦
                  if out_of_ports (if privileged then 1 else 1024) port
                  then err (
                      annotation
                      <> " annotation value of "
                      <> format_int port
                      <> " is not in the "
                      <> range_name privileged)
                  else ok (format_int port)
            ])
      | none ↦
          if default_port == ""
          then ok ""
          else (let (e, port) = port_value pod (chars default_port) in
              elim e [
                | some _ ↦ err (default_port <> " is not a valid port on the pod " <> pod.name)
                | none ↦ ok (format_int port)
              ])
    ]

-- An annotation that overrides a default. The text of the error of ParseBool is its last part.
abbrev pub overridden : (String → String) → Pod → String → Bool → Result Bool
overridden parse_error pod annotation enabled = elim (annotation_of pod annotation) [
  | none ↦ ok enabled
  | some raw ↦ elim (parse_bool raw) [
    | none ↦
        err (annotation <> " annotation value of " <> raw <> " was invalid: " <> parse_error raw)
    | some v ↦ ok v
  ]
]

unfoldable pub prometheus_scrape_path : Config → Pod → String
prometheus_scrape_path c pod = elim (annotation_of pod annotation_prometheus_scrape_path) [
  | none ↦ c.default_prometheus_scrape_path
  | some raw ↦ raw
]

unfoldable pub service_metrics_path : Pod → String
service_metrics_path pod = elim (annotation_of pod annotation_service_metrics_path) [
  | none ↦ "/metrics"
  | some raw ↦ raw
]

unfoldable pub merged_metrics_port : Config → Pod → Result String
unfolding determine_and_validate_port
merged_metrics_port c pod =
    determine_and_validate_port pod annotation_merged_metrics_port c.default_merged_metrics_port
      false

unfoldable pub prometheus_scrape_port : Config → Pod → Result String
unfolding determine_and_validate_port
prometheus_scrape_port c pod =
    determine_and_validate_port pod annotation_prometheus_scrape_port
      c.default_prometheus_scrape_port false

unfoldable pub service_metrics_port : Pod → Result String
unfolding determine_and_validate_port
service_metrics_port pod = elim (annotation_of pod annotation_port) [
  | some raw ↦ determine_and_validate_port pod annotation_service_metrics_port raw true
  | none ↦ determine_and_validate_port pod annotation_service_metrics_port "0" true
]

-- `Atoi`, whose number is read without its error.
abbrev pub atoi : String → ℤ
atoi s = (parse_int false (2 ^ 63) (chars s)).1

-- The first error of the three, or whether the server runs.
abbrev pub run_of : Result Bool → Result Bool → Result String → Result Bool
run_of (err e) merging port = err e
run_of (ok enabled) (err e) port = err e
run_of (ok enabled) (ok merging) (err e) = err e
run_of (ok enabled) (ok merging) (ok port) = ok (enabled && merging && is_positive (atoi port))

-- `parse_error` is the text of an error of ParseBool.
module _ (parse_error : String → String) (c : Config) (pod : Pod) where
  unfoldable pub enable_metrics : Result Bool
  enable_metrics = overridden parse_error pod annotation_enable_metrics c.default_enable_metrics

  unfoldable pub enable_metrics_merging : Result Bool
  enable_metrics_merging =
      overridden parse_error pod annotation_enable_metrics_merging c.default_enable_metrics_merging

  unfoldable pub should_run_merged_metrics_server : Result Bool
  unfolding enable_metrics enable_metrics_merging service_metrics_port
  should_run_merged_metrics_server =
      run_of enable_metrics enable_metrics_merging (service_metrics_port pod)

  unfoldable pub merged_metrics_server_configuration : Result MetricsPorts
  unfolding should_run_merged_metrics_server merged_metrics_port service_metrics_port
      service_metrics_path
  merged_metrics_server_configuration = elim should_run_merged_metrics_server [
    | err e ↦ err e
    | ok run ↦
        if run
        then elim (merged_metrics_port c pod) [
          | err e ↦ err e
          | ok merged ↦ ok (record {
            merged_port = merged;
            service_port = elim (service_metrics_port pod) [ err _ ↦ "" | ok port ↦ port ];
            service_path = service_metrics_path pod;
          })
        ]
        else err
            "metrics merging should be enabled in order to return the metrics server configuration"
  ]
