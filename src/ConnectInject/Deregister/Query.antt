-- ===== src/ConnectInject/Deregister/Query.antt =====
-- The filter language of Consul's node catalog, as far as the query of `deregisterService` uses it
-- (control-plane/connect-inject/controllers/endpoints/endpoints_controller.go).
use consul_k8s.Base.{◌≡◌, refl, String, ◌<>◌, Bool, true, ◌&&◌, List, [], ◌∷◌}
use consul_k8s.Base.{◌==◌, if◌then◌else◌, Result, string_dec}
use consul_k8s.Base.Dict
use consul_k8s.ConnectInject.Deregister.{
  ServiceInstance, ConsulApi, Texts, Settings, consul_node_name, service_instances,
}

-- A filter is a conjunction of equations on the metadata.
abbrev pub Filter : Type 0
Filter = List (String × String)

abbrev pub meets : Filter → ServiceInstance → Bool
meets [] svc = true
meets ((k, v) ∷ more) svc = Dict.get k svc.meta == v && meets more svc

-- How it is written, after an opening text.
abbrev written : (String → String) → String → Filter → String
written quote opening [] = ""
written quote opening ((k, v) ∷ []) = opening <> quote k <> "] == " <> quote v
written quote opening ((k, v) ∷ next ∷ more) =
    opening <> quote k <> "] == " <> quote v <> written quote " and Meta[" (next ∷ more)

abbrev pub text_of : Texts → Filter → String
text_of t f = written t.quote "Meta[" f

-- The marks of a Kubernetes service and of the controller.
abbrev pub marks_of : String → String → Filter
marks_of name namespace =
    ("k8s-service-name", name)
    ∷ ("k8s-namespace", namespace)
    ∷ ("managed-by", "consul-k8s-endpoints-controller")
    ∷ []

-- The answer of Consul for the instances of the node k8s-service-mesh with these marks, in all
-- namespaces.
abbrev pub listing :
    {S : Type 0} → ConsulApi S → Texts → Bool → S → String → String → Result (List ServiceInstance)
listing api t namespaces w name namespace =
    api.node_service_list w "k8s-service-mesh" (text_of t (marks_of name namespace))
      (if namespaces then "*" else "")

pub service_instances-listing :
    {S : Type 0} (api : ConsulApi S) (t : Texts) (c : Settings) (w : S) (name namespace : String)
    → service_instances api t c w name namespace
      ≡ listing api t c.enable_consul_namespaces w name namespace
unfolding service_instances
service_instances-listing api t c w name namespace = refl

pub on_node : (consul_node_name == "k8s-service-mesh") ≡ true
unfolding string_dec
on_node = refl
