-- ===== src/ConnectInject/Upstreams.antt =====
-- The upstreams of control-plane/connect-inject/controllers/endpoints/endpoints_controller.go:
-- `processUpstreams`, which reads them from an annotation of the pod. An index out of range panics.
pub mod Bounds
pub mod Labeled
pub mod RoundTrip
use consul_k8s.Base.{
  ℕ, zero, suc, String, ◌<>◌, Bool, true, false, not, ◌&&◌, ◌||◌, Option, none, some, List, [], ◌∷◌,
}
use consul_k8s.Base.{◌==◌, if◌then◌else◌, Result, ok, err}
use consul_k8s.Base.Int.{ℤ, pos, negsuc, is_positive}
use consul_k8s.Base.Strings.{Chars, chars, text, trim_space, split, split_n, contains_char}
use consul_k8s.Base.Dict
use consul_k8s.ConnectInject.{Pod}
use consul_k8s.ConnectInject.Outcome.{Outcome, panic, fail, done}
use consul_k8s.ConnectInject.Common.{first, port_value}

abbrev pub annotation_service : String
annotation_service = "consul.hashicorp.com/connect-service"

abbrev pub annotation_upstreams : String
annotation_upstreams = "consul.hashicorp.com/connect-service-upstreams"

-- The fields of the Controller that the upstreams depend on.
pub record Settings : Type 0 where
  pub enable_consul_namespaces : Bool
  pub enable_consul_partitions : Bool

-- `api.Upstream`
pub record Upstream : Type 0 where
  pub destination_type : String
  pub destination_partition : String
  pub destination_peer : String
  pub destination_namespace : String
  pub destination_name : String
  pub datacenter : String
  pub local_bind_port : ℤ

-- `api.Upstream{}`
abbrev pub no_upstream : Upstream
no_upstream = record {
  destination_type = "";
  destination_partition = "";
  destination_peer = "";
  destination_namespace = "";
  destination_name = "";
  datacenter = "";
  local_bind_port = pos 0;
}

-- `serviceName`, with the name of the endpoints.
unfoldable pub service_name : Pod → String → String
service_name pod endpoints = elim (Dict.lookup annotation_service pod.annotations) [
  | none ↦ endpoints
  | some name ↦ if not (name == "") && not (contains_char 44 (chars name)) then name else endpoints
]

-- The number of the first of these names that is the given one, or -1.
unfoldable pub index_of : String → List Chars → ℕ → ℤ
index_of name [] i = negsuc 0
index_of name (n ∷ ns) i =
    let rest = index_of name ns (suc i) in if text n == name then pos i else rest

unfoldable pub get_multi_port_idx : Pod → String → ℤ
unfolding service_name index_of
get_multi_port_idx pod endpoints =
    let names : String = elim (Dict.lookup annotation_service pod.annotations) [
      | none ↦ ""
      | some s ↦ s
    ] in
    index_of (service_name pod endpoints) (split 44 (chars names)) 0

abbrev pub nth : ℕ → List Chars → Option Chars
nth i [] = none
nth zero (p ∷ ps) = some p
nth (suc i) (p ∷ ps) = nth i ps

abbrev pub trim : Chars → String
trim s = text (trim_space s)

-- An upstream whose port is not positive is the empty one.
abbrev pub at_port : ℤ → Upstream → Upstream
at_port port u = if is_positive port then record u { local_bind_port = port } else no_upstream

-- Of the form prepared_query:[query name]:[port].
unfoldable pub process_prepared_query_upstream : Pod → Chars → Outcome Upstream
process_prepared_query_upstream pod raw =
    let parts = split_n 2 58 raw in
    elim (nth 2 parts) [
      | none ↦ panic
      | some p ↦ elim (nth 1 parts) [
        | none ↦ panic
        | some query ↦ done (
            at_port (port_value pod (trim_space p)).1 (record no_upstream {
              destination_type = "prepared_query";
              destination_name = trim query;
            }))
      ]
    ]

-- The parts of the name of a service, before the port.
pub record Place : Type 0 where
  pub service : String
  pub namespace : String
  pub partition : String
  pub peer : String
  pub datacenter : String

abbrev pub at_place : Place → Upstream
at_place p = record no_upstream {
  destination_type = "service";
  destination_partition = p.partition;
  destination_peer = p.peer;
  destination_namespace = p.namespace;
  destination_name = p.service;
  datacenter = p.datacenter;
}

abbrev pub named : Chars → Place
named s = record { service = trim s; namespace = ""; partition = ""; peer = ""; datacenter = "" }

-- The `switch` over the pieces of an unlabeled name.
abbrev pub unlabeled_place : List Chars → Place
unlabeled_place (s ∷ n ∷ p ∷ _) = record (named s) { namespace = trim n; partition = trim p }
unlabeled_place (s ∷ n ∷ []) = record (named s) { namespace = trim n }
unlabeled_place (s ∷ []) = named s
unlabeled_place [] = named []

-- Of the form [service-name].[service-namespace].[service-partition]:[port]:[optional datacenter].
unfoldable pub process_unlabeled_upstream : Settings → Pod → Chars → Outcome Upstream
process_unlabeled_upstream c pod raw =
    let parts = split_n 2 58 raw in
    let service = first parts in
    let place =
      if c.enable_consul_namespaces || c.enable_consul_partitions
      then unlabeled_place (split_n 2 46 service)
      else named service in
    elim (nth 1 parts) [
      | none ↦ panic
      | some p ↦ done (
          at_port (port_value pod (trim_space p)).1 (
            at_place
              (record place { datacenter = elim (nth 2 parts) [ none ↦ "" | some d ↦ trim d ] })))
    ]

incorrectly : {A : Type 0} → Chars → Result A
incorrectly raw = err ("upstream structured incorrectly: " <> text raw)

-- The last two pieces of a labeled name, with `partitions` if ap is a label.
abbrev pub scoped : Bool → Chars → Chars → Chars → Place → Result Place
unfolding incorrectly
scoped partitions raw value label p =
    if trim label == "peer"
    then ok (record p { peer = trim value })
    else if partitions && trim label == "ap"
    then ok (record p { partition = trim value })
    else if trim label == "dc"
    then ok (record p { datacenter = trim value })
    else incorrectly raw

-- The first two pieces, with namespaces or partitions enabled.
abbrev pub service_place : Chars → Chars → Place
service_place s svc = if trim svc == "svc" then named s else named []

abbrev pub namespaced : Chars → Chars → Chars → Chars → Chars → Result Place
unfolding incorrectly
namespaced raw s svc n label =
    if trim label == "ns"
    then ok (record (service_place s svc) { namespace = trim n })
    else incorrectly raw

-- The label at the end is read before `ns`.
abbrev pub in_scope : Result Place → Result Place → Result Place
in_scope (err e) r = err e
in_scope (ok scope) (err e) = err e
in_scope (ok scope) (ok p) =
    ok (record p { partition = scope.partition; peer = scope.peer; datacenter = scope.datacenter })

-- The `switch` with namespaces or partitions enabled.
unfoldable pub labeled_place : Chars → List Chars → Result Place
unfolding incorrectly
labeled_place raw (s ∷ svc ∷ n ∷ ns ∷ x ∷ label ∷ []) =
    in_scope (scoped true raw x label (named [])) (namespaced raw s svc n ns)
labeled_place raw (s ∷ svc ∷ n ∷ ns ∷ []) = namespaced raw s svc n ns
labeled_place raw (s ∷ svc ∷ []) = ok (service_place s svc)
labeled_place raw _ = incorrectly raw

-- The `switch` without them.
unfoldable pub community_place : Chars → List Chars → Result Place
unfolding incorrectly
community_place raw (s ∷ svc ∷ x ∷ label ∷ []) = scoped false raw x label (named s)
community_place raw (s ∷ svc ∷ []) = ok (named s)
community_place raw _ = incorrectly raw

-- Of the form [service-name].svc.[service-namespace].ns.[value].[peer, ap or dc]:[port].
unfoldable pub process_labeled_upstream : Settings → Pod → Chars → Outcome Upstream
unfolding labeled_place community_place
process_labeled_upstream c pod raw =
    let parts = split_n 2 58 raw in
    let pieces = split 46 (first parts) in
    let place =
      if c.enable_consul_namespaces || c.enable_consul_partitions
      then labeled_place raw pieces
      else community_place raw pieces in
    elim (nth 1 parts) [
      | none ↦ panic
      | some p ↦ elim place [
        | err e ↦ fail e
        | ok at ↦ done (at_port (port_value pod (trim_space p)).1 (at_place at))
      ]
    ]

-- `labeledFormat`
abbrev pub is_labeled : Chars → Bool
is_labeled service = elim (nth 1 (split 46 service)) [
  | none ↦ false
  | some label ↦ text label == "svc"
]

-- One round of the loop.
unfoldable pub process_upstream : Settings → Pod → Chars → Outcome Upstream
unfolding process_prepared_query_upstream process_labeled_upstream process_unlabeled_upstream
process_upstream c pod raw =
    let service = first (split_n 2 58 raw) in
    if trim service == "prepared_query"
    then process_prepared_query_upstream pod raw
    else if is_labeled service
    then process_labeled_upstream c pod raw
    else process_unlabeled_upstream c pod raw

-- The loop ends at the first error or panic.
abbrev pub append_upstream : Outcome Upstream → Outcome (List Upstream) → Outcome (List Upstream)
append_upstream panic rest = panic
append_upstream (fail e) rest = fail e
append_upstream (done u) panic = panic
append_upstream (done u) (fail e) = fail e
append_upstream (done u) (done us) = done (u ∷ us)

unfoldable pub process_each : Settings → Pod → List Chars → Outcome (List Upstream)
unfolding process_upstream
process_each c pod [] = done []
process_each c pod (raw ∷ more) =
    append_upstream (process_upstream c pod raw) (process_each c pod more)

unfoldable pub process_upstreams : Settings → Pod → String → Outcome (List Upstream)
unfolding get_multi_port_idx process_each
process_upstreams c pod endpoints =
    if is_positive (get_multi_port_idx pod endpoints)
    then done []
    else elim (Dict.lookup annotation_upstreams pod.annotations) [
      | none ↦ done []
      | some raw ↦ if raw == "" then done [] else process_each c pod (split 44 (chars raw))
    ]
