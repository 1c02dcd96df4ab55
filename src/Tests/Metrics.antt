-- ===== src/Tests/Metrics.antt =====
-- Tests of control-plane/connect-inject/metrics.
use Prim.Native.Nat.{◌^◌}
use consul_k8s.Base.{
  ◌≡◌, ◌↔◌, refl, ℕ, suc, ◌<◌, String, none, true, false, [], ◌∷◌, ok, string_dec, arith,
}
use consul_k8s.Base.Int.{pos}
use consul_k8s.Base.Strings.{split}
use consul_k8s.Base.Strconv.{parse_int, format_int, parse_bool}
use consul_k8s.Base.Dict.{Dict, lookup}
use consul_k8s.ConnectInject.{Pod}
use consul_k8s.ConnectInject.Common.{port_value}
use consul_k8s.ConnectInject.Metrics.{
  Config, service_metrics_port, enable_metrics, enable_metrics_merging,
  should_run_merged_metrics_server, merged_metrics_server_configuration,
}
use consul_k8s.ConnectInject.Metrics.Running.{should_run_merged_metrics_server-port}

abbrev config : Config
config = record {
  default_enable_metrics = true;
  enable_gateway_metrics = false;
  default_enable_metrics_merging = false;
  default_merged_metrics_port = "20100";
  default_prometheus_scrape_port = "20200";
  default_prometheus_scrape_path = "/metrics";
}

abbrev pod_with : Dict String → Pod
pod_with annotations = record {
  name = "web-1";
  namespace = "shop";
  annotations = annotations;
  labels = [];
  containers =
      record {
        name = "main";
        ports = record { name = "http"; container_port = pos 8080 } ∷ [];
        liveness_probe = none;
        readiness_probe = none;
        startup_probe = none;
      }
      ∷ [];
  node_name = "node-1";
  pod_ip = "10.0.0.1";
  host_ip = "192.168.0.1";
}

-- Merging is enabled, and the port is that of the service, by its name.
abbrev merging : Pod
merging = pod_with (
    ("consul.hashicorp.com/enable-metrics-merging", "true")
    ∷ ("consul.hashicorp.com/connect-service-port", "http")
    ∷ [])

abbrev no_text : String → String
no_text s = ""

served :
    merged_metrics_server_configuration no_text config merging
    ≡ ok (record { merged_port = "20100"; service_port = "8080"; service_path = "/metrics" })
unfolding merged_metrics_server_configuration lookup string_dec parse_bool port_value split
    parse_int format_int
served = refl

-- Without a port nothing is merged.
no_port : should_run_merged_metrics_server no_text config (pod_with []) ≡ ok false
unfolding merged_metrics_server_configuration lookup string_dec parse_bool port_value split
    parse_int format_int
no_port = refl

should_run_merged_metrics_server-port_example :
    (should_run_merged_metrics_server no_text config merging ≡ ok true) ↔ (
      (n : ℕ) × (enable_metrics no_text config merging ≡ ok true)
      × (enable_metrics_merging no_text config merging ≡ ok true)
      × (service_metrics_port merging ≡ ok (format_int (pos (suc n))))
      × (suc n < 2 ^ 31))
should_run_merged_metrics_server-port_example =
    should_run_merged_metrics_server-port no_text config merging ((omega arith, tt), tt)
