-- ===== src/ConnectInject/Endpoints/Reconcile/Removal.antt =====
-- What a reconcile removes from Consul
-- (control-plane/connect-inject/controllers/endpoints/endpoints_controller.go).
use consul_k8s.Base.{
  ◌≡◌, refl, sym, ap, ◌∙◌, inl, inr, String, true, false, Option, none, some, List, [], ◌∷◌,
}
use consul_k8s.Base.{arith, ◌==◌, Bool-cases, Option-cases, err, Result-cases}
use consul_k8s.ConnectInject.Pods.{should_ignore, is_labeled_ignore}
use consul_k8s.ConnectInject.Deregister.{
  ServiceInstance, service_instances, deregister_instance, deregister_each, deregister_service,
}
use consul_k8s.ConnectInject.Deregister.Instances.{deregister_service-removes}
use consul_k8s.ConnectInject.Deregister.Query.{marks_of}
use consul_k8s.ConnectInject.Endpoints.{
  Endpoints, Lookup, found, not_found, Clients, Calls, Controller, deregister_settings,
}
use consul_k8s.ConnectInject.Endpoints.Reconcile.{
  Visit, Progress, add_error, finished, answered, finish, visits, register_address, register_each,
  reconcile_endpoints, reconcile,
}
use consul_k8s.ConnectInject.Endpoints.Reconcile.Laws.{is_for, holds, IsConsul, holds-IsCatalog}
use consul_k8s.ConnectInject.Endpoints.Reconcile.Parts.{Memᴰ-is_dropped}

-- There are no such Endpoints, or they have the label.
abbrev pub IsGone : Lookup Endpoints → Type 0
IsGone (found ep) = is_labeled_ignore ep.labels ≡ true
IsGone not_found = Unit
IsGone _ = ⊥

answered-clean :
    {S : Type 0} (m : S × Option String)
    → (answered m).1 ≡ finished []
    → (m.1 ≡ none) × ((answered m).0 ≡ m.0)
answered-clean (w, none) h = (refl, refl)
answered-clean (w, some e) h = cc

module _ {S : Type 0} (api : Clients S) (calls : Calls) (c : Controller) where
  -- A deregistration of every instance leaves none with the marks.
  deregister_service-none_left :
      (view : S → String → String → Option ServiceInstance)
      → IsConsul api calls c view
      → (name namespace : String) (w : S)
      → (deregister_service api.consul calls.texts (deregister_settings c) name namespace none w).1
        ≡ none
      → (i j : String)
      → holds (is_for name namespace) (
          view
            (deregister_service api.consul calls.texts
              (deregister_settings c)
              name
              namespace
              none
              w).0
            i
            j)
        ≡ false
  deregister_service-none_left view l name namespace w h i j =
      let (svcs, listed, removed) =
        deregister_service-removes api.consul calls.texts (deregister_settings c)
          (λ w' i' j'. holds (is_for name namespace) (view w' i' j'))
          (holds-IsCatalog api calls c view l (is_for name namespace)) name namespace none w h in
      elim (Option-cases (view w i j)) [
        | inl before ↦ ground (arith, before, removed i j)
        | inr (svc, before) ↦ elim (Bool-cases (is_for name namespace svc)) [
          | inr other ↦ ground (arith, before, other, removed i j)
          | inl marks ↦
              (let (m, same_ns, same_id) =
                  l.listed-view w (marks_of name namespace) i j svcs svc listed before marks in
                let dropped = Memᴰ-is_dropped none svc svcs m refl in
                ground (arith, dropped, same_ns, same_id, removed i j))
        ]
      ]

  reconcile-gone :
      (order : List Visit → List Visit) (name namespace : String) (w : S)
      → should_ignore namespace c.deny_k8s_namespaces_set c.allow_k8s_namespaces_set ≡ false
      → IsGone (api.kube.get_endpoints w name namespace)
      → (reconcile api calls c order name namespace w).1 ≡ finished []
      → reconcile api calls c order name namespace w
        ≡ answered (
            deregister_service api.consul calls.texts (deregister_settings c) name namespace none w)
  unfolding reconcile
  reconcile-gone order name namespace w allowed gone h = ground (arith, allowed, gone, h)

-- After a reconcile without an error of Endpoints that do not exist or have the label service-ignore, in
-- a namespace that is not ignored, the node k8s-service-mesh has no instance with the marks of the
-- Endpoints and of the controller, over a catalog whose list of the node's services under a filter has
-- each instance that meets the filter.
pub reconcile-removes_all :
    {S : Type 0} (api : Clients S) (calls : Calls) (c : Controller)
    (view : S → String → String → Option ServiceInstance) (order : List Visit → List Visit)
    → IsConsul api calls c view
    → (name namespace : String) (w : S)
    → should_ignore namespace c.deny_k8s_namespaces_set c.allow_k8s_namespaces_set ≡ false
    → IsGone (api.kube.get_endpoints w name namespace)
    → (reconcile api calls c order name namespace w).1 ≡ finished []
    → (i j : String)
    → holds (is_for name namespace) (view (reconcile api calls c order name namespace w).0 i j)
      ≡ false
reconcile-removes_all api calls c view order l name namespace w allowed gone h i j =
    let same = reconcile-gone api calls c order name namespace w allowed gone h in
    let m =
      deregister_service api.consul calls.texts (deregister_settings c) name namespace none w in
    let (none_failed, after) = answered-clean m (ap (λ r. r.1) (sym same) ∙ h) in
    ap (λ r. holds (is_for name namespace) (view r.0 i j)) same
    ∙ ap (λ w'. holds (is_for name namespace) (view w' i j)) after
    ∙ deregister_service-none_left api calls c view l name namespace w none_failed i j

module _ {S : Type 0} (api : Clients S) (calls : Calls) (c : Controller)
    (order : List Visit → List Visit) (ep : Endpoints) (w : S) (e : String)
    (fails : (name ns : String) → api.kube.get_pod w name ns ≡ err e) where
  unread-address :
      (v : Visit) (p : Progress)
      → (p' : Progress) × (register_address api calls c order ep v p w ≡ (w, some p'))
        × (p'.addresses ≡ p.addresses)
  unfolding register_address
  unread-address (address, status) p = elim (Option-cases address.target_ref) [
    | inl no_ref ↦ (p, rw (no_ref, register_address) refl, refl)
    | inr (ref, has_ref) ↦ elim (Bool-cases (ref.kind == "Pod")) [
      | inl pod ↦ (
        add_error e p,
        rw (has_ref, register_address, pod, fails ref.name ref.namespace) refl,
        refl,
      )
      | inr other ↦ (p, rw (has_ref, register_address, other) refl, refl)
    ]
  ]

  -- Without the pods, the loop notes no address and writes nothing.
  unread-each :
      (vs : List Visit) (p : Progress)
      → (p' : Progress) × (register_each api calls c order ep vs p w ≡ (w, some p'))
        × (p'.addresses ≡ p.addresses)
  unfolding register_each
  unread-each [] p = (p, refl, refl)
  unread-each ((address, status) ∷ more) p =
      let (p₁, first, same) = unread-address (address, status) p in
      let (p', later, same') = unread-each more p₁ in (p', rw first later, same' ∙ same)

  -- No address means that every instance goes.
  deregister_each-no_addresses :
      (namespace : String) (svcs : List ServiceInstance) (w' : S)
      → deregister_each api.consul calls.texts (deregister_settings c) namespace (some []) svcs w'
        ≡ deregister_each api.consul calls.texts (deregister_settings c) namespace none svcs w'
  unfolding deregister_each deregister_instance
  deregister_each-no_addresses namespace [] w' = refl
  deregister_each-no_addresses namespace (svc ∷ more) w' =
      let m =
        deregister_instance api.consul calls.texts (deregister_settings c) namespace none svc w' in
      elim (Option-cases m.1) [
        | inl e ↦ rw (e, deregister_each-no_addresses namespace more m.0) refl
        | inr (_, e) ↦ rw e refl
      ]

  deregister_service-no_addresses :
      (name namespace : String)
      → deregister_service api.consul calls.texts (deregister_settings c) name namespace (some []) w
        ≡ deregister_service api.consul calls.texts (deregister_settings c) name namespace none w
  unfolding deregister_service
  deregister_service-no_addresses name namespace =
      elim (Result-cases
        (service_instances api.consul calls.texts (deregister_settings c) w name namespace)) [
          | inl (svcs, listed) ↦
              rw (deregister_service, listed) (deregister_each-no_addresses namespace svcs w)
          | inr (_, failed) ↦ rw (deregister_service, failed) refl
        ]

finish-state : {S : Type 0} (p : Progress) (m : S × Option String) → (finish p m).0 ≡ m.0
finish-state p (w, none) = refl
finish-state p (w, some e) = refl

-- If the pods cannot be read, Reconcile of Endpoints that are there does to Consul what the removal of
-- every instance of the service does, with its ACL tokens.
pub reconcile-unread :
    {S : Type 0} (api : Clients S) (calls : Calls) (c : Controller)
    (order : List Visit → List Visit) (name namespace : String) (ep : Endpoints) (w : S)
    (e : String)
    → should_ignore namespace c.deny_k8s_namespaces_set c.allow_k8s_namespaces_set ≡ false
    → api.connect w ≡ none
    → api.kube.get_endpoints w name namespace ≡ found ep
    → is_labeled_ignore ep.labels ≡ false
    → ((pod_name ns : String) → api.kube.get_pod w pod_name ns ≡ err e)
    → (reconcile api calls c order name namespace w).0
      ≡ (deregister_service api.consul calls.texts
          (deregister_settings c)
          ep.name
          ep.namespace
          none
          w).0
unfolding reconcile reconcile_endpoints
reconcile-unread api calls c order name namespace ep w e allowed connects there kept fails =
    let none_yet : Progress = record { addresses = []; errors = [] } in
    let (p, ran, same) =
      unread-each api calls c order ep w e fails (visits order ep.subsets) none_yet in
    let gone = λ (addresses : List String).
      deregister_service api.consul calls.texts (deregister_settings c) ep.name ep.namespace
        (some addresses) w in
    let opened : reconcile api calls c order name namespace w ≡ finish p (gone p.addresses) =
      rw (allowed, connects, there, kept, reconcile, reconcile_endpoints, ap (λ r. r.1) ran)
        (ap
          (λ w'. finish p (
            deregister_service api.consul calls.texts (deregister_settings c) ep.name ep.namespace
              (some p.addresses) w'))
          (ap (λ r. r.0) ran)) in
    ap (λ r. r.0) opened
    ∙ finish-state p (gone p.addresses)
    ∙ ap (λ l. (gone l).0) same
    ∙ ap (λ r. r.0)
        (deregister_service-no_addresses api calls c order ep w e fails ep.name ep.namespace)
