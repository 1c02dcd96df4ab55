-- ===== src/Catalog/Source.antt =====
-- control-plane/catalog/to-k8s/source.go: `Source`, which hands the services of Consul to the sink.
-- A round of its loop `Run` begins with what Consul answers, each service with its tags.
pub mod Selection
use consul_k8s.Base.{String, ◌<>◌, Bool, true, false, ◌||◌, List, [], ◌∷◌, ◌==◌, if◌then◌else◌}
use consul_k8s.Base.Dict
use consul_k8s.Base.Dict.{Dict}
use consul_k8s.Catalog.K8sSink.{K8sSink, set_services}

pub record Source : Type 0 where
  pub domain : String
  pub prefix : String
  pub consul_k8s_tag : String

-- The inner loop, which ends at the first tag that is the tag.
unfoldable pub is_k8s : Source → List String → Bool
is_k8s s [] = false
is_k8s s (t ∷ ts) = if t == s.consul_k8s_tag then true else is_k8s s ts

abbrev pub dns_name : Source → String → String
dns_name s name = name <> ".service." <> s.domain

-- The loop over the services.
unfoldable pub select : Source → Dict (List String) → Dict String → Dict String
unfolding is_k8s
select s [] services = services
select s ((name, tags) ∷ rest) services =
    select s rest (
      if is_k8s s tags then services else Dict.insert (s.prefix <> name) (dns_name s name) services)

-- A round without an error.
unfoldable pub run_round : Source → Dict (List String) → K8sSink → K8sSink
unfolding select
run_round s service_map sink = set_services (select s service_map []) sink
