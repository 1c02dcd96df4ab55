-- ===== src/ConnectInject/Endpoints/Reconcile.antt =====
-- control-plane/connect-inject/controllers/endpoints/endpoints_controller.go: `Reconcile` and what
-- registers the pods of an Endpoints object. A panic ends the process.
pub mod Laws
pub mod Pods
pub mod Frame
pub mod Visits
pub mod Parts
pub mod Convergence
pub mod Removal
use consul_k8s.Base.{String, Bool, true, false, Option, none, some, List, [], ◌∷◌, ◌++◌, map}
use consul_k8s.Base.{◌==◌, if◌then◌else◌, Result, ok, err}
use consul_k8s.Base.Dict
use consul_k8s.Base.Dict.{Dict}
use consul_k8s.Namespaces.{ensure_exists}
use consul_k8s.ConnectInject.{Pod}
use consul_k8s.ConnectInject.Outcome.{Outcome, panic, fail, done}
use consul_k8s.ConnectInject.Pods.{should_ignore, has_been_injected, is_gateway, is_labeled_ignore}
use consul_k8s.ConnectInject.Deregister.{deregister_service}
use consul_k8s.ConnectInject.Endpoints.{
  EndpointAddress, Subset, Endpoints, Registration, found, not_found, failed, Clients, Calls,
  Controller, deregister_settings,
}
use consul_k8s.ConnectInject.Endpoints.Services.{create_service_registrations}
use consul_k8s.ConnectInject.Endpoints.Gateways.{create_gateway_registrations}

abbrev pub annotation_kubernetes_service : String
annotation_kubernetes_service = "consul.hashicorp.com/kubernetes-service"

abbrev pub key_managed_by : String
key_managed_by = "consul.hashicorp.com/connect-inject-managed-by"

abbrev pub Visit : Type 0
Visit = EndpointAddress × String

abbrev with_status : String → List EndpointAddress → List Visit
with_status status [] = []
with_status status (a ∷ more) = (a, status) ∷ with_status status more

-- The key of the map holds the pointer to the object that an address refers to, so each address with
-- such an object is a key of its own; the others are not registered.
abbrev pub map_addresses : Subset → List Visit
map_addresses s = with_status "passing" s.addresses ++ with_status "critical" s.not_ready_addresses

-- `managedByEndpointsController`
abbrev pub is_managed : Pod → Bool
is_managed pod = elim (Dict.lookup key_managed_by pod.labels) [
  | none ↦ false
  | some raw ↦ raw == "consul-k8s-endpoints-controller"
]

-- The pod names no other Kubernetes service.
abbrev pub is_of : Endpoints → Pod → Bool
is_of ep pod = elim (Dict.lookup annotation_kubernetes_service pod.annotations) [
  | none ↦ true
  | some name ↦ ep.name == name
]

-- `endpointAddressMap` and `errs`.
pub record Progress : Type 0 where
  pub addresses : List String
  pub errors : List String

-- What the process does: it panics, or Reconcile returns these errors.
pub data Answer : Type 0 where
  crashed : Answer
  finished : List String → Answer

abbrev pub add_error : String → Progress → Progress
add_error e p = record p { errors = p.errors ++ e ∷ [] }

abbrev pub add_address : String → Progress → Progress
add_address ip p = record p { addresses = ip ∷ p.addresses }

-- The addresses of every subset, as they are visited.
abbrev pub visits : (List Visit → List Visit) → List Subset → List Visit
visits order [] = []
visits order (s ∷ more) = order (map_addresses s) ++ visits order more

module _ {S : Type 0} where
  -- The progress after a registration; a panic leaves none.
  abbrev pub noted : Progress → S × Outcome (Unit {0}) → S × Option Progress
  noted p (w, panic) = (w, none)
  noted p (w, fail e) = (w, some (add_error e p))
  noted p (w, done _) = (w, some p)

  abbrev pub followed :
      S × Option Progress → (Progress → S → S × Option Progress) → S × Option Progress
  followed (w, none) next = (w, none)
  followed (w, some p) next = next p w

  abbrev pub finish : Progress → S × Option String → S × Answer
  finish p (w, none) = (w, finished p.errors)
  finish p (w, some e) = (w, finished (p.errors ++ e ∷ []))

  abbrev pub answered : S × Option String → S × Answer
  answered (w, none) = (w, finished [])
  answered (w, some e) = (w, finished (e ∷ []))

-- `order` is one order in which a `range` over the map of addresses visits them.
module _ {S : Type 0} (api : Clients S) (calls : Calls) (c : Controller)
    (order : List Visit → List Visit) where
  unfoldable pub register : Registration → S → S × Outcome (Unit {0})
  register r w =
      let (w', e) = api.register w r in elim e [ none ↦ (w', done tt) | some e' ↦ (w', fail e') ]

  unfoldable pub register_both : Registration → Registration → S → S × Outcome (Unit {0})
  unfolding register
  register_both svc proxy w =
      let (w', r) = register svc w in
      elim r [ panic ↦ (w', panic) | fail e ↦ (w', fail e) | done _ ↦ register proxy w' ]

  unfoldable pub register_services : Pod → Endpoints → String → S → S × Outcome (Unit {0})
  unfolding register_both
  register_services pod ep status w =
      if is_managed pod
      then elim (create_service_registrations api.kube calls c w pod ep status) [
        | panic ↦ (w, panic)
        | fail e ↦ (w, fail e)
        | done r ↦ register_both r.0 r.1 w
      ]
      else (w, done tt)

  unfoldable pub register_services_and_health_check :
      Pod → Endpoints → String → Progress → S → S × Option Progress
  unfolding register_services
  register_services_and_health_check pod ep status p w =
      noted (add_address pod.pod_ip p) (register_services pod ep status w)

  -- The namespace comes before the registration.
  unfoldable pub register_in_namespace : Registration → S → S × Outcome (Unit {0})
  unfolding register
  register_in_namespace r w =
      if c.enable_consul_namespaces
      then (let (w', _, e) =
            ensure_exists api.namespaces r.service.namespace c.cross_ns_acl_policy w in
          elim e [ some e' ↦ (w', fail e') | none ↦ register r w' ])
      else register r w

  unfoldable pub register_gateway_service : Pod → Endpoints → String → S → S × Outcome (Unit {0})
  unfolding register_in_namespace
  register_gateway_service pod ep status w =
      if is_managed pod
      then elim (create_gateway_registrations api.kube calls c w pod ep status) [
        | panic ↦ (w, panic)
        | fail e ↦ (w, fail e)
        | done r ↦ register_in_namespace r w
      ]
      else (w, done tt)

  unfoldable pub register_gateway : Pod → Endpoints → String → Progress → S → S × Option Progress
  unfolding register_gateway_service
  register_gateway pod ep status p w =
      noted (add_address pod.pod_ip p) (register_gateway_service pod ep status w)

  unfoldable pub register_pod : Pod → Endpoints → String → Progress → S → S × Option Progress
  unfolding register_services_and_health_check register_gateway
  register_pod pod ep status p w =
      followed
        (if has_been_injected pod
          then register_services_and_health_check pod ep status p w
          else (w, some p))
        (λ p' w'. if is_gateway pod then register_gateway pod ep status p' w' else (w', some p'))

  -- One round of the loop.
  unfoldable pub register_address : Endpoints → Visit → Progress → S → S × Option Progress
  unfolding register_pod
  register_address ep (address, status) p w = elim address.target_ref [
    | none ↦ (w, some p)
    | some ref ↦
        if ref.kind == "Pod"
        then elim (api.kube.get_pod w ref.name ref.namespace) [
          | err e ↦ (w, some (add_error e p))
          | ok pod ↦ if is_of ep pod then register_pod pod ep status p w else (w, some p)
        ]
        else (w, some p)
  ]

  unfoldable pub register_each : Endpoints → List Visit → Progress → S → S × Option Progress
  unfolding register_address
  register_each ep [] p w = (w, some p)
  register_each ep (v ∷ more) p w = followed (register_address ep v p w) (register_each ep more)

  unfoldable pub reconcile_endpoints : Endpoints → S → S × Answer
  unfolding register_each
  reconcile_endpoints ep w =
      let (w', r) =
        register_each ep (visits order ep.subsets) (record { addresses = []; errors = [] }) w in
      elim r [
        | none ↦ (w', crashed)
        | some p ↦ finish p (
            deregister_service api.consul calls.texts (deregister_settings c) ep.name ep.namespace
              (some p.addresses) w')
      ]

  unfoldable pub reconcile : String → String → S → S × Answer
  unfolding reconcile_endpoints
  reconcile name namespace w =
      if should_ignore namespace c.deny_k8s_namespaces_set c.allow_k8s_namespaces_set
      then (w, finished [])
      else elim (api.connect w) [
        | some e ↦ (w, finished (e ∷ []))
        | none ↦ elim (api.kube.get_endpoints w name namespace) [
          | failed e ↦ (w, finished (e ∷ []))
          | not_found ↦ answered (
              deregister_service api.consul calls.texts (deregister_settings c) name namespace none
                w)
          | found ep ↦
              if is_labeled_ignore ep.labels
              then answered (
                  deregister_service api.consul calls.texts (deregister_settings c) name namespace
                    none w)
              else reconcile_endpoints ep w
        ]
      ]
