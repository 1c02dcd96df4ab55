-- ===== src/ConnectInject/Endpoints/Reconcile/Frame.antt =====
-- The registrations of control-plane/connect-inject/controllers/endpoints change no pod of Kubernetes.
use consul_k8s.Base.{◌≡◌, refl, String, Option, none, some, List}
use consul_k8s.Base.{arith, inl, inr, if◌then◌else◌}
use consul_k8s.ConnectInject.{Pod}
use consul_k8s.ConnectInject.Outcome.{Outcome, panic, fail, done, Outcome-cases}
use consul_k8s.ConnectInject.Pods.{has_been_injected, is_gateway}
use consul_k8s.ConnectInject.Deregister.{ServiceInstance}
use consul_k8s.ConnectInject.Endpoints.{Endpoints, Clients, Calls, Controller}
use consul_k8s.ConnectInject.Endpoints.Services.{create_service_registrations}
use consul_k8s.ConnectInject.Endpoints.Gateways.{create_gateway_registrations}
use consul_k8s.ConnectInject.Endpoints.Reconcile.{
  Visit, Progress, followed, noted, add_address, register_services,
  register_services_and_health_check, register_gateway_service, register_gateway, register_pod,
}
use consul_k8s.ConnectInject.Endpoints.Reconcile.Laws.{
  IsConsul, get_pod-register_both, get_pod-register_in_namespace,
}

noted-state : {S : Type 0} (p : Progress) (m : S × Outcome (Unit {0})) → (noted p m).0 ≡ m.0
noted-state p (w, panic) = refl
noted-state p (w, fail e) = refl
noted-state p (w, done x) = refl

-- A step after which the same holds as before it, then another such step.
followed-keeps :
    {S : Type 0} (Q : S → Type 0) (m : S × Option Progress)
    (next : Progress → S → S × Option Progress)
    → Q m.0
    → ((p : Progress) (w : S) → Q w → Q (next p w).0)
    → Q (followed m next).0
followed-keeps Q (w, none) next q step = q
followed-keeps Q (w, some p) next q step = step p w q

module _ {S : Type 0} (api : Clients S) (calls : Calls) (c : Controller)
    (view : S → String → String → Option ServiceInstance) (l : IsConsul api calls c view)
    (order : List Visit → List Visit) (name ns : String) where
  get_pod-services :
      (pod : Pod) (ep : Endpoints) (status : String) (w : S)
      → api.kube.get_pod (register_services api calls c order pod ep status w).0 name ns
        ≡ api.kube.get_pod w name ns
  unfolding register_services
  get_pod-services pod ep status w =
      elim (Outcome-cases (create_service_registrations api.kube calls c w pod ep status)) [
        | inl (r, e) ↦
            ground (arith, e, get_pod-register_both api calls c view l order name ns r.0 r.1 w)
        | inr (inl (_, e)) ↦ ground (arith, e)
        | inr (inr e) ↦ ground (arith, e)
      ]

  get_pod-gateway :
      (pod : Pod) (ep : Endpoints) (status : String) (w : S)
      → api.kube.get_pod (register_gateway_service api calls c order pod ep status w).0 name ns
        ≡ api.kube.get_pod w name ns
  unfolding register_gateway_service
  get_pod-gateway pod ep status w =
      elim (Outcome-cases (create_gateway_registrations api.kube calls c w pod ep status)) [
        | inl (r, e) ↦
            ground (arith, e, get_pod-register_in_namespace api calls c view l order name ns r w)
        | inr (inl (_, e)) ↦ ground (arith, e)
        | inr (inr e) ↦ ground (arith, e)
      ]

  pub get_pod-register_pod :
      (pod : Pod) (ep : Endpoints) (status : String) (p : Progress) (w : S)
      → api.kube.get_pod (register_pod api calls c order pod ep status p w).0 name ns
        ≡ api.kube.get_pod w name ns
  unfolding register_pod register_services_and_health_check register_gateway
  get_pod-register_pod pod ep status p w =
      let Q : S → Type 0 = λ w'. api.kube.get_pod w' name ns ≡ api.kube.get_pod w name ns in
      let services = register_services api calls c order pod ep status w in
      followed-keeps Q
        (if has_been_injected pod
          then register_services_and_health_check api calls c order pod ep status p w
          else (w, some p))
        (λ p' w'.
          if is_gateway pod
          then register_gateway api calls c order pod ep status p' w'
          else (w', some p'))
        (ground (
          arith,
          noted-state (add_address pod.pod_ip p) services,
          get_pod-services pod ep status w,
        ))
        (λ p' w' q. ground (
          arith,
          q,
          noted-state (add_address pod.pod_ip p')
              (register_gateway_service api calls c order pod ep status w'),
          get_pod-gateway pod ep status w',
        ))
