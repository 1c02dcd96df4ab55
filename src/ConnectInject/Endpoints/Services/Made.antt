-- ===== src/ConnectInject/Endpoints/Services/Made.antt =====
-- What `createServiceRegistrations` of
-- control-plane/connect-inject/controllers/endpoints/endpoints_controller.go makes when it succeeds.
use consul_k8s.Base.{◌≡◌, ap, ◌∙◌, String, true, List, ◌==◌}
use consul_k8s.ConnectInject.Deregister.Query.{on_node}
use consul_k8s.Base.Int.{ℤ}
use consul_k8s.Base.Dict.{Dict}
use consul_k8s.ConnectInject.{Pod}
use consul_k8s.ConnectInject.Outcome.{done, >>=-eq-done}
use consul_k8s.ConnectInject.Upstreams.{Upstream, process_upstreams}
use consul_k8s.ConnectInject.Endpoints.{
  Endpoints, ConfigValue, Registration, KubeApi, Calls, Controller, upstream_settings, namespace_of,
}
use consul_k8s.ConnectInject.Endpoints.Services.{
  registration_of, consul_service_port, metrics_config, Transparent, transparent_proxy, service_of,
  proxy_of, create_service_registrations,
}

module _ {S : Type 0} (kube : KubeApi S) (calls : Calls) (c : Controller) where
  -- The parts of a success.
  pub record Made (w : S) (pod : Pod) (ep : Endpoints) (status : String)
      (r : Registration × Registration) : Type 0 where
    pub port : ℤ
    pub config : Dict ConfigValue
    pub upstreams : List Upstream
    pub t : Transparent
    pub has_port : consul_service_port calls pod ep.name ≡ done port
    pub has_upstreams : process_upstreams (upstream_settings c) pod ep.name ≡ done upstreams
    pub is_transparent : transparent_proxy kube calls c w pod ep port ≡ done t
    pub is_service :
        r.0
        ≡ registration_of pod status
            (service_of kube calls c pod ep port t)
            (namespace_of c pod.namespace)
    pub is_proxy :
        r.1
        ≡ registration_of pod status
            (proxy_of kube calls c pod ep port config upstreams t)
            (namespace_of c pod.namespace)

  -- Both go to the node of the mesh.
  pub Made-on_node :
      (w : S) (pod : Pod) (ep : Endpoints) (status : String) {r : Registration × Registration}
      → Made w pod ep status r
      → ((r.0.node == "k8s-service-mesh") ≡ true) × ((r.1.node == "k8s-service-mesh") ≡ true)
  Made-on_node w pod ep status m = (
    ap (λ s. Registration.node s == "k8s-service-mesh") m.is_service ∙ on_node,
    ap (λ s. Registration.node s == "k8s-service-mesh") m.is_proxy ∙ on_node,
  )

  pub create_service_registrations-Made :
      (w : S) (pod : Pod) (ep : Endpoints) (status : String) {r : Registration × Registration}
      → create_service_registrations kube calls c w pod ep status ≡ done r
      → Made w pod ep status r
  unfolding create_service_registrations
  create_service_registrations-Made w pod ep status h =
      let (port, has_port, h₁) = >>=-eq-done (consul_service_port calls pod ep.name) _ h in
      let (config, _, h₂) = >>=-eq-done (metrics_config calls c pod) _ h₁ in
      let (upstreams, has_upstreams, h₃) =
        >>=-eq-done (process_upstreams (upstream_settings c) pod ep.name) _ h₂ in
      let (t, is_transparent, h₄) =
        >>=-eq-done (transparent_proxy kube calls c w pod ep port) _ h₃ in
      record {
        port = port;
        config = config;
        upstreams = upstreams;
        t = t;
        has_port = has_port;
        has_upstreams = has_upstreams;
        is_transparent = is_transparent;
        is_service = cc;
        is_proxy = cc;
      }
