-- ===== src/ConnectInject/Endpoints/Gateways/Made.antt =====
-- What `createGatewayRegistrations` of
-- control-plane/connect-inject/controllers/endpoints/endpoints_controller.go makes when it succeeds.
use consul_k8s.Base.{◌≡◌, String, true, arith}
use consul_k8s.ConnectInject.Deregister.Query.{on_node}
use consul_k8s.Base.{◌==◌, if◌then◌else◌}
use consul_k8s.Base.Dict
use consul_k8s.Base.Dict.{Dict}
use consul_k8s.ConnectInject.{Pod}
use consul_k8s.ConnectInject.Outcome.{done}
use consul_k8s.ConnectInject.Pods.{annotation_gateway_kind}
use consul_k8s.ConnectInject.Endpoints.{
  Endpoints, AgentService, Registration, KubeApi, Calls, Controller,
}
use consul_k8s.ConnectInject.Endpoints.Gateways.{
  annotation_gateway_namespace, as_gateway, create_gateway_registrations,
}

-- The Consul namespace of a gateway: mesh gateways are in the default one.
abbrev pub gateway_namespace : Controller → Pod → String
gateway_namespace c pod =
    if c.enable_consul_namespaces
    then if Dict.get annotation_gateway_kind pod.annotations == "mesh-gateway"
      then "default"
      else Dict.get annotation_gateway_namespace pod.annotations
    else ""

module _ {S : Type 0} (kube : KubeApi S) (calls : Calls) (c : Controller) where
  as_gateway-names :
      (w : S) (pod : Pod) (ep : Endpoints) (svc : AgentService) {made : AgentService}
      → as_gateway kube calls c w pod ep (Dict.get annotation_gateway_kind pod.annotations) svc
        ≡ done made
      → (made.id ≡ svc.id)
        × (made.address ≡ svc.address)
        × (made.namespace ≡ gateway_namespace c pod)
  unfolding as_gateway
  as_gateway-names w pod ep svc h = ground arith

  pub create_gateway_registrations-names :
      (w : S) (pod : Pod) (ep : Endpoints) (status : String) {r : Registration}
      → create_gateway_registrations kube calls c w pod ep status ≡ done r
      → (r.service.id ≡ pod.name)
        × (r.service.address ≡ pod.pod_ip)
        × (r.service.namespace ≡ gateway_namespace c pod)
        × ((r.node == "k8s-service-mesh") ≡ true)
  unfolding create_gateway_registrations
  create_gateway_registrations-names w pod ep status h =
      ground (arith, on_node, as_gateway-names w pod ep)
