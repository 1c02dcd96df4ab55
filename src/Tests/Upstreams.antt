-- ===== src/Tests/Upstreams.antt =====
-- Tests of the upstreams of control-plane/connect-inject/controllers/endpoints.
use Prim.Native.Nat.{◌^◌, ◌-◌}
use consul_k8s.Base.{
  ◌≡◌, refl, String, true, none, some, List, [], ◌∷◌, map, All, string_dec, arith,
}
use consul_k8s.Base.Int.{pos}
use consul_k8s.Base.Strings.{chars, trim_space, split, split_n, contains_char}
use consul_k8s.Base.Strconv.{out_of_range, parse_int}
use consul_k8s.Base.Dict.{lookup}
use consul_k8s.ConnectInject.{Pod}
use consul_k8s.ConnectInject.Common.{port_value}
use consul_k8s.ConnectInject.Outcome.{panic, done}
use consul_k8s.ConnectInject.Upstreams.{Settings, Upstream, get_multi_port_idx, process_upstreams}
use consul_k8s.ConnectInject.Upstreams.Bounds.{IsBound, process_upstreams-AreBound}
use consul_k8s.ConnectInject.Upstreams.Labeled.{
  Destination, here, in_peer, IsDestination, upstream_of,
}
use consul_k8s.ConnectInject.Upstreams.RoundTrip.{process_upstreams-print_destinations}

abbrev enterprise : Settings
enterprise = record { enable_consul_namespaces = true; enable_consul_partitions = true }

abbrev pod_with : String → Pod
pod_with upstreams = record {
  name = "web-1";
  namespace = "shop";
  annotations = ("consul.hashicorp.com/connect-service-upstreams", upstreams) ∷ [];
  labels = [];
  containers =
      record {
        name = "main";
        ports = record { name = "db"; container_port = pos 5432 } ∷ [];
        liveness_probe = none;
        readiness_probe = none;
        startup_probe = none;
      }
      ∷ [];
  node_name = "node-1";
  pod_ip = "10.0.0.1";
  host_ip = "192.168.0.1";
}

-- A port that is named, and one that is a number.
abbrev destinations : List Destination
destinations =
    record {
      service = chars "db";
      namespace = chars "data";
      scope = in_peer (chars "east");
      port = chars "db";
    }
    ∷ record { service = chars "api"; namespace = chars "shop"; scope = here; port = chars "8080" }
    ∷ []

abbrev pod : Pod
pod = pod_with "db.svc.data.ns.east.peer:db,api.svc.shop.ns:8080"

ports : map Upstream.local_bind_port (map (upstream_of pod) destinations) ≡ pos 5432 ∷ pos 8080 ∷ []
unfolding port_value split parse_int string_dec
ports = refl

-- An upstream without a port panics.
no_port : process_upstreams enterprise (pod_with "api") "web" ≡ panic
unfolding process_upstreams split split_n lookup string_dec trim_space
no_port = refl

-- A port that is out of range is not refused.
beyond : port_value pod (chars "99999999999") ≡ (some out_of_range, pos (2 ^ 31 - 1))
unfolding port_value split parse_int string_dec
beyond = refl

destinations-IsDestination : All IsDestination destinations
unfolding contains_char trim_space
destinations-IsDestination = (
  record {
    service_part = record { no_comma = refl; no_dot = refl; no_colon = refl; trimmed = refl };
    namespace_part = record { no_comma = refl; no_dot = refl; no_colon = refl; trimmed = refl };
    scope_part = record { no_comma = refl; no_dot = refl; no_colon = refl; trimmed = refl };
    port_part = record { no_comma = refl; no_dot = refl; no_colon = refl; trimmed = refl };
  },
  (
    record {
      service_part = record { no_comma = refl; no_dot = refl; no_colon = refl; trimmed = refl };
      namespace_part = record { no_comma = refl; no_dot = refl; no_colon = refl; trimmed = refl };
      scope_part = tt;
      port_part = record { no_comma = refl; no_dot = refl; no_colon = refl; trimmed = refl };
    },
    tt,
  ),
)

process_upstreams-print_destinations_example :
    process_upstreams enterprise pod "web" ≡ done (map (upstream_of pod) destinations)
unfolding get_multi_port_idx lookup split string_dec
process_upstreams-print_destinations_example =
    process_upstreams-print_destinations enterprise pod "web"
      (record {
        service = chars "db";
        namespace = chars "data";
        scope = in_peer (chars "east");
        port = chars "db";
      })
      (record { service = chars "api"; namespace = chars "shop"; scope = here; port = chars "8080" }
        ∷ [])
      refl refl refl destinations-IsDestination

process_upstreams-AreBound_example : All IsBound (map (upstream_of pod) destinations)
process_upstreams-AreBound_example =
    process_upstreams-AreBound enterprise pod "web" (map (upstream_of pod) destinations)
      ((omega arith, tt), tt) process_upstreams-print_destinations_example
