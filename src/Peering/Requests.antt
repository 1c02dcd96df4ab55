-- ===== src/Peering/Requests.antt =====
-- Which resource a change of a secret brings to a reconcile: `requestsForPeeringTokens` and the
-- filters of control-plane/connect-inject/controllers/peering.
use consul_k8s.Base.{String, Bool, false, ◌&&◌, none, some, List, [], ◌∷◌}
use consul_k8s.Base.{◌==◌, if◌then◌else◌, Result, ok, err}
use consul_k8s.Base.Dict
use consul_k8s.Base.Dict.{Dict}
use consul_k8s.Peering.{Resource, KubeSecret}

abbrev pub label_peering_token : String
label_peering_token = "consul.hashicorp.com/peering-token"

-- `filterPeeringDialers` and `filterPeeringAcceptors`.
unfoldable pub filter_peering : KubeSecret → Bool
filter_peering s = elim (Dict.lookup label_peering_token s.labels) [
  | none ↦ false
  | some is_peering_token ↦ is_peering_token == "true"
]

-- The test of the dialers' loop: the secret is the one of the spec.
unfoldable pub dials_with : KubeSecret → Resource → Bool
dials_with s o =
    if o.secret.backend == "kubernetes"
    then o.secret.name == s.name && o.namespace == s.namespace
    else false

-- The test of the acceptors' loop: the secret is the one of the status.
unfoldable pub accepts_with : KubeSecret → Resource → Bool
accepts_with s o = elim o.secret_ref [
  | none ↦ false
  | some r ↦
      if r.secret.backend == "kubernetes"
      then r.secret.name == s.name && o.namespace == s.namespace
      else false
]

-- The loops, which return at the first resource that passes the test.
unfoldable pub first_request : (Resource → Bool) → List Resource → List (String × String)
first_request p [] = []
first_request p (o ∷ os) = if p o then (o.namespace, o.name) ∷ [] else first_request p os

-- The list of resources, or the error of listing them.
unfoldable pub requests_for_peering_tokens :
    (KubeSecret → Resource → Bool) → Result (List Resource) → KubeSecret → List (String × String)
unfolding first_request
requests_for_peering_tokens p listed s = elim listed [ err e ↦ [] | ok os ↦ first_request (p s) os ]
