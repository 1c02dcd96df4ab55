-- ===== src/Namespaces.antt =====
-- control-plane/namespaces/namespaces.go: the Consul namespace of a Kubernetes namespace, and its
-- creation on demand. The Consul API is a parameter: a state and two calls.
use consul_k8s.Base.{String, ◌<>◌, Bool, true, false, ◌||◌, Option, none, some, List, [], ◌∷◌}
use consul_k8s.Base.{◌==◌, if◌then◌else◌, Result, ok, err}
use consul_k8s.Base.Dict.{Dict}

abbrev pub wildcard_namespace : String
wildcard_namespace = "*"

abbrev pub default_namespace : String
default_namespace = "default"

-- `capi.Namespace`, with the names under `ACLs.PolicyDefaults`.
pub record Namespace : Type 0 where
  pub name : String
  pub description : String
  pub policy_defaults : List String
  pub meta : Dict String

-- `client.Namespaces()`. A read finds nothing for a namespace that does not exist.
pub record NamespaceApi (S : Type 0) : Type 0 where
  pub read : S → String → Result (Option Namespace)
  pub create : S → Namespace → S × Option String

abbrev pub generated : String → String → Namespace
generated ns policy = record {
  name = ns;
  description = "Auto-generated by consul-k8s";
  policy_defaults = if policy == "" then [] else policy ∷ [];
  meta = ("external-source", "kubernetes") ∷ [];
}

module _ {S : Type 0} (api : NamespaceApi S) where
  -- The state after the call, whether a namespace was created, and the error.
  unfoldable pub ensure_exists : String → String → S → S × Bool × Option String
  ensure_exists ns policy s =
      if ns == wildcard_namespace || ns == default_namespace
      then (s, false, none)
      else elim (api.read s ns) [
        | err e ↦ (s, false, some e)
        | ok (some info) ↦ (s, false, none)
        | ok none ↦ let (s', e) = api.create s (generated ns policy) in (s', true, e)
      ]

unfoldable pub consul_namespace : String → Bool → String → Bool → String → String
consul_namespace kube_ns enabled dest_ns mirroring prefix =
    if enabled then if mirroring then prefix <> kube_ns else dest_ns else ""
