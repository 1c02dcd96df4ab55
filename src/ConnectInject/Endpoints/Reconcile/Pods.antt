-- ===== src/ConnectInject/Endpoints/Reconcile/Pods.antt =====
-- What the registration of one pod leaves in Consul
-- (control-plane/connect-inject/controllers/endpoints/endpoints_controller.go).
use consul_k8s.Base.{
  ◌≡◌, refl, ap, ◌∙◌, String, Bool, true, ◌&&◌, ◌||◌, Option, none, some, List, [], ◌∷◌, ◌++◌,
}
use consul_k8s.Base.{arith, ◌==◌, inl, inr, if◌then◌else◌, contains}
use consul_k8s.ConnectInject.{Pod}
use consul_k8s.ConnectInject.Outcome.{Outcome, panic, fail, done, Outcome-cases}
use consul_k8s.ConnectInject.Pods.{has_been_injected, is_gateway, service_id, proxy_service_id}
use consul_k8s.ConnectInject.Deregister.{ServiceInstance}
use consul_k8s.ConnectInject.Endpoints.{Endpoints, Clients, Calls, Controller, namespace_of}
use consul_k8s.ConnectInject.Endpoints.Services.{create_service_registrations}
use consul_k8s.ConnectInject.Endpoints.Services.Made.{
  Made-on_node, create_service_registrations-Made,
}
use consul_k8s.ConnectInject.Endpoints.Gateways.{create_gateway_registrations}
use consul_k8s.ConnectInject.Endpoints.Gateways.Made.{
  gateway_namespace, create_gateway_registrations-names,
}
use consul_k8s.ConnectInject.Endpoints.Reconcile.{
  Visit, is_managed, Progress, followed, noted, add_address, register_services,
  register_services_and_health_check, register_gateway_service, register_gateway, register_pod,
}
use consul_k8s.ConnectInject.Endpoints.Reconcile.Laws.{
  IsConsul, is_at, register_both-is_at, register_in_namespace-is_at,
}

-- The pod is to have an instance of this namespace and identifier: a pod of the mesh its service and
-- its sidecar proxy, a gateway one under its own name. Other pods are not the controller's.
abbrev pub is_service_of : Controller → Endpoints → Pod → String → String → Bool
is_service_of c ep pod i j =
    i == namespace_of c pod.namespace
    && (j == service_id pod ep.name || j == proxy_service_id pod ep.name)

abbrev pub is_gateway_of : Controller → Pod → String → String → Bool
is_gateway_of c pod i j = i == gateway_namespace c pod && j == pod.name

abbrev pub is_expected : Controller → Endpoints → Pod → String → String → Bool
is_expected c ep pod i j =
    (has_been_injected pod && is_managed pod && is_service_of c ep pod i j)
    || (is_gateway pod && is_managed pod && is_gateway_of c pod i j)

pub append-ne-nil : (es : List String) (e : String) → es ++ e ∷ [] ≡ [] → ⊥
append-ne-nil [] e h = cc
append-ne-nil (_ ∷ es) e h = cc

-- No error in the end means that the registration had none.
noted-done :
    {S : Type 0} (p p' : Progress) (m : S × Outcome (Unit {0}))
    → (noted p m).1 ≡ some p'
    → p'.errors ≡ []
    → (m.1 ≡ done tt) × ((noted p m).0 ≡ m.0) × (p' ≡ p)
noted-done p p' (w, panic) h clean = cc
noted-done p p' (w, fail e) h clean = absurd (append-ne-nil p.errors e (ground (arith, h, clean)))
noted-done p p' (w, done x) h clean = (refl, refl, cc)

pub or_swap : (g s b x : Bool) → x ≡ (s || b) → (g || x) ≡ ((s || g) || b)
or_swap g s b x h = ground (arith, h)

noted-addresses :
    {S : Type 0} (p : Progress) (m : S × Outcome (Unit {0})) {p' : Progress}
    → (noted p m).1 ≡ some p'
    → p'.addresses ≡ p.addresses
noted-addresses p (w, panic) h = cc
noted-addresses p (w, fail e) h = ground (arith, h)
noted-addresses p (w, done x) h = ground (arith, h)

-- A step that follows another.
pub followed-some :
    {S : Type 0} (m : S × Option Progress) (next : Progress → S → S × Option Progress)
    (p' : Progress)
    → (followed m next).1 ≡ some p'
    → (p : Progress) × (m.1 ≡ some p)
      × ((next p m.0).1 ≡ some p')
      × ((followed m next).0 ≡ (next p m.0).0)
followed-some (w, none) next p' h = cc
followed-some (w, some p) next p' h = (p, refl, h, refl)

module _ {S : Type 0} (api : Clients S) (calls : Calls) (c : Controller)
    (view : S → String → String → Option ServiceInstance) (l : IsConsul api calls c view)
    (order : List Visit → List Visit) where
  module _ (addresses : List String) (pod : Pod) (has : contains addresses pod.pod_ip ≡ true)
      (ep : Endpoints) (status : String) (i j : String) where
    register_services-is_at :
        (w : S)
        → (register_services api calls c order pod ep status w).1 ≡ done tt
        → is_at view addresses (register_services api calls c order pod ep status w).0 i j
          ≡ ((is_managed pod && is_service_of c ep pod i j) || is_at view addresses w i j)
    unfolding register_services
    register_services-is_at w h =
        elim (Outcome-cases (create_service_registrations api.kube calls c w pod ep status)) [
          | inl (r, e) ↦
              (let m = create_service_registrations-Made api.kube calls c w pod ep status e in
                ground (
                  arith,
                  e,
                  h,
                  has,
                  m.is_service,
                  m.is_proxy,
                  Made-on_node api.kube calls c w pod ep status m,
                  register_both-is_at api calls c view l order addresses r.0 r.1 w i j,
                ))
          | inr (inl (_, e)) ↦ ground (arith, e, h)
          | inr (inr e) ↦ ground (arith, e, h)
        ]

    register_gateway_service-is_at :
        (w : S)
        → (register_gateway_service api calls c order pod ep status w).1 ≡ done tt
        → is_at view addresses (register_gateway_service api calls c order pod ep status w).0 i j
          ≡ ((is_managed pod && is_gateway_of c pod i j) || is_at view addresses w i j)
    unfolding register_gateway_service
    register_gateway_service-is_at w h =
        elim (Outcome-cases (create_gateway_registrations api.kube calls c w pod ep status)) [
          | inl (r, e) ↦ ground (
            arith,
            e,
            h,
            has,
            create_gateway_registrations-names api.kube calls c w pod ep status e,
            register_in_namespace-is_at api calls c view l order addresses r w i j,
          )
          | inr (inl (_, e)) ↦ ground (arith, e, h)
          | inr (inr e) ↦ ground (arith, e, h)
        ]

    -- Each of the two steps of a pod, without an error.
    service_step-is_at :
        (p p' : Progress) (w : S) (m : S × Option Progress)
        → m ≡ (
            if has_been_injected pod
            then register_services_and_health_check api calls c order pod ep status p w
            else (w, some p))
        → m.1 ≡ some p'
        → p'.errors ≡ []
        → (p.errors ≡ [])
          × (is_at view addresses m.0 i j ≡ (
              (has_been_injected pod && is_managed pod && is_service_of c ep pod i j)
              || is_at view addresses w i j))
    unfolding register_services_and_health_check
    service_step-is_at p p' w m made h clean =
        let after = register_services api calls c order pod ep status w in
        ground (
          arith,
          made,
          h,
          clean,
          noted-done (add_address pod.pod_ip p) p' after,
          register_services-is_at w,
        )

    gateway_step-is_at :
        (p p' : Progress) (w : S) (m : S × Option Progress)
        → m ≡ (
            if is_gateway pod
            then register_gateway api calls c order pod ep status p w
            else (w, some p))
        → m.1 ≡ some p'
        → p'.errors ≡ []
        → (p.errors ≡ [])
          × (is_at view addresses m.0 i j ≡ (
              (is_gateway pod && is_managed pod && is_gateway_of c pod i j)
              || is_at view addresses w i j))
    unfolding register_gateway
    gateway_step-is_at p p' w m made h clean =
        let after = register_gateway_service api calls c order pod ep status w in
        ground (
          arith,
          made,
          h,
          clean,
          noted-done (add_address pod.pod_ip p) p' after,
          register_gateway_service-is_at w,
        )

    -- What holds after a pod without any error, over addresses that have the pod's.
    pub register_pod-is_at :
        (p p' : Progress) (w : S)
        → (register_pod api calls c order pod ep status p w).1 ≡ some p'
        → p'.errors ≡ []
        → (p.errors ≡ [])
          × (is_at view addresses (register_pod api calls c order pod ep status p w).0 i j
              ≡ (is_expected c ep pod i j || is_at view addresses w i j))
    unfolding register_pod
    register_pod-is_at p p' w h clean =
        let m =
          if has_been_injected pod
          then register_services_and_health_check api calls c order pod ep status p w
          else (w, some p) in
        let (p₁, first, second, same) = followed-some m _ p' h in
        let (clean₁, gateway) = gateway_step-is_at p₁ p' m.0 _ refl second clean in
        let (clean₀, services) = service_step-is_at p p₁ w m refl first clean₁ in
        (clean₀, ap (λ w'. is_at view addresses w' i j) same ∙ gateway ∙ or_swap _ _ _ _ services)

  -- The addresses grow by the pod's.
  pub register_pod-addresses :
      (pod : Pod) (ep : Endpoints) (status : String) (a : String) (p p' : Progress) (w : S)
      → (register_pod api calls c order pod ep status p w).1 ≡ some p'
      → contains p'.addresses a
        ≡ (((has_been_injected pod || is_gateway pod) && a == pod.pod_ip) || contains p.addresses a)
  unfolding register_pod register_services_and_health_check register_gateway
  register_pod-addresses pod ep status a p p' w h =
      let m =
        if has_been_injected pod
        then register_services_and_health_check api calls c order pod ep status p w
        else (w, some p) in
      let (p₁, first, second, _) = followed-some m _ p' h in
      let after = register_services api calls c order pod ep status w in
      let gateway = register_gateway_service api calls c order pod ep status m.0 in
      ground (
        arith,
        first,
        second,
        noted-addresses (add_address pod.pod_ip p) after,
        noted-addresses (add_address pod.pod_ip p₁) gateway,
      )
