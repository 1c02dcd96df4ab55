-- ===== src/ConnectInject/Endpoints/Reconcile/Convergence.antt =====
-- What a reconcile of an Endpoints object leaves in Consul
-- (control-plane/connect-inject/controllers/endpoints/endpoints_controller.go).
use consul_k8s.Base.{
  ◌≡◌, refl, sym, ap, ◌∙◌, String, Bool, true, false, not, ◌&&◌, Option, some, List, [],
}
use consul_k8s.Base.{arith, inl, inr, Bool-cases, Option-cases}
use consul_k8s.ConnectInject.Pods.{should_ignore, is_labeled_ignore}
use consul_k8s.ConnectInject.Deregister.{ServiceInstance}
use consul_k8s.ConnectInject.Deregister.Instances.{is_dropped}
use consul_k8s.ConnectInject.Deregister.Query.{marks_of}
use consul_k8s.ConnectInject.Endpoints.{Endpoints, found, Clients, Calls, Controller}
use consul_k8s.ConnectInject.Endpoints.Reconcile.{
  Visit, finished, visits, register_each, reconcile_endpoints, reconcile,
}
use consul_k8s.ConnectInject.Endpoints.Reconcile.Laws.{is_for, holds, is_at, IsConsul}
use consul_k8s.ConnectInject.Endpoints.Reconcile.Parts.{
  nothing, Memᴰ-is_dropped, is_at-is_dropped, reconcile_endpoints-Reconciled, has_address-addresses,
}
use consul_k8s.ConnectInject.Endpoints.Reconcile.Visits.{has_address, wants, register_each-is_at}

module _ {S : Type 0} (api : Clients S) (calls : Calls) (c : Controller)
    (view : S → String → String → Option ServiceInstance) (l : IsConsul api calls c view)
    (order : List Visit → List Visit) (ep : Endpoints) where
  -- Every pod's instances are there, at an address of some pod.
  reconcile_endpoints-registers :
      (w : S)
      → (reconcile_endpoints api calls c order ep w).1 ≡ finished []
      → (i j : String) → wants api c ep w (visits order ep.subsets) i j ≡ true
      → holds
          (λ svc. has_address api c ep w (visits order ep.subsets) svc.address)
          (view (reconcile_endpoints api calls c order ep w).0 i j)
        ≡ true
  reconcile_endpoints-registers w h i j wanted =
      let vs = visits order ep.subsets in
      let test : ServiceInstance → Bool = λ svc. has_address api c ep w vs svc.address in
      let r = reconcile_endpoints-Reconciled api calls c view l order ep w test h in
      let w' = (register_each api calls c order ep vs nothing w).0 in
      let (_, there) =
        register_each-is_at api calls c view l order ep r.p.addresses vs i j nothing r.p w
          (λ a e. has_address-addresses api calls c view l order ep w r a ∙ e) r.registered
          r.clean in
      let at : is_at view r.p.addresses w' i j ≡ true = ground (arith, there, wanted) in
      let stays =
        is_at-is_dropped api calls c view l order ep r.p.addresses w' i j r.svcs
          (l.view-listed w' (marks_of ep.name ep.namespace) r.svcs r.listed) at in
      elim (Option-cases (view w' i j)) [
        | inl e ↦ absurd (ground (arith, at, e))
        | inr (svc, e) ↦ ground (
          arith,
          at,
          e,
          stays,
          r.removed i j,
          has_address-addresses api calls c view l order ep w r svc.address,
        )
      ]

  reconcile_endpoints-current :
      (w : S)
      → (reconcile_endpoints api calls c order ep w).1 ≡ finished []
      → (i j : String) (svc : ServiceInstance)
      → view (reconcile_endpoints api calls c order ep w).0 i j ≡ some svc
      → is_for ep.name ep.namespace svc ≡ true
      → has_address api c ep w (visits order ep.subsets) svc.address ≡ true
  reconcile_endpoints-current w h i j svc e marks =
      let vs = visits order ep.subsets in
      let test : ServiceInstance → Bool =
        λ svc. is_for ep.name ep.namespace svc && not (has_address api c ep w vs svc.address) in
      let r = reconcile_endpoints-Reconciled api calls c view l order ep w test h in
      let w' = (register_each api calls c order ep vs nothing w).0 in
      elim (Bool-cases (has_address api c ep w vs svc.address)) [
        | inl known ↦ known
        | inr unknown ↦ elim (Option-cases (view w' i j)) [
          | inl before ↦ absurd (ground (arith, e, marks, unknown, before, r.removed i j))
          | inr (old, before) ↦
              (let (foreign, kept) : (test old ≡ true)
                    × (is_dropped (some r.p.addresses) i j r.svcs ≡ false) =
                  ground (arith, e, marks, unknown, before, r.removed i j) in
                let (listed, same_ns, same_id) =
                  l.listed-view w' (marks_of ep.name ep.namespace) i j r.svcs old r.listed before
                    (ground (arith, foreign)) in
                let dropped = Memᴰ-is_dropped (some r.p.addresses) old r.svcs listed (
                  ground (
                    arith,
                    foreign,
                    has_address-addresses api calls c view l order ep w r old.address,
                  )) in
                absurd (ground (arith, kept, dropped, same_ns, same_id)))
        ]
      ]

-- The whole of Reconcile, of Endpoints that are there and not ignored, without an error.
reconcile-endpoints :
    {S : Type 0} (api : Clients S) (calls : Calls) (c : Controller)
    (order : List Visit → List Visit) (name namespace : String) (ep : Endpoints) (w : S)
    → should_ignore namespace c.deny_k8s_namespaces_set c.allow_k8s_namespaces_set ≡ false
    → api.kube.get_endpoints w name namespace ≡ found ep
    → is_labeled_ignore ep.labels ≡ false
    → (reconcile api calls c order name namespace w).1 ≡ finished []
    → reconcile api calls c order name namespace w ≡ reconcile_endpoints api calls c order ep w
unfolding reconcile
reconcile-endpoints api calls c order name namespace ep w allowed there kept h =
    elim (Option-cases (api.connect w)) [
      | inl e ↦ rw (allowed, e, there, kept, reconcile) refl
      | inr (failed, e) ↦ absurd (ground (arith, allowed, e, h))
    ]

-- A reconcile without an error of Endpoints that are there, not to be ignored and not labelled so has
-- read each address in some order. Then, over a catalog that keeps what is registered on each node, the
-- node k8s-service-mesh has each instance that a pod of an address is to have
-- (of a managed pod that was injected its service and its sidecar proxy, of a managed gateway the
-- gateway), at an address of such a pod.
pub reconcile-registers :
    {S : Type 0} (api : Clients S) (calls : Calls) (c : Controller)
    (view : S → String → String → Option ServiceInstance) (order : List Visit → List Visit)
    → IsConsul api calls c view
    → (name namespace : String) (ep : Endpoints) (w : S)
    → should_ignore namespace c.deny_k8s_namespaces_set c.allow_k8s_namespaces_set ≡ false
    → api.kube.get_endpoints w name namespace ≡ found ep
    → is_labeled_ignore ep.labels ≡ false
    → (reconcile api calls c order name namespace w).1 ≡ finished []
    → (i j : String) → wants api c ep w (visits order ep.subsets) i j ≡ true
    → holds
        (λ svc. has_address api c ep w (visits order ep.subsets) svc.address)
        (view (reconcile api calls c order name namespace w).0 i j)
      ≡ true
reconcile-registers api calls c view order l name namespace ep w allowed there kept h i j wanted =
    let same = reconcile-endpoints api calls c order name namespace ep w allowed there kept h in
    rw same (
      reconcile_endpoints-registers api calls c view l order ep w (ap (λ r. r.1) (sym same) ∙ h) i j
        wanted)

-- After such a reconcile, over a catalog whose list of the node's services under a filter has each
-- instance that meets the filter, each instance of the node k8s-service-mesh that carries the marks of the Endpoints and of the
-- controller has the address of a pod of the mesh or a gateway to which an address of the Endpoints
-- refers: no instance of a pod that is gone is left.
pub reconcile-current :
    {S : Type 0} (api : Clients S) (calls : Calls) (c : Controller)
    (view : S → String → String → Option ServiceInstance) (order : List Visit → List Visit)
    → IsConsul api calls c view
    → (name namespace : String) (ep : Endpoints) (w : S)
    → should_ignore namespace c.deny_k8s_namespaces_set c.allow_k8s_namespaces_set ≡ false
    → api.kube.get_endpoints w name namespace ≡ found ep
    → is_labeled_ignore ep.labels ≡ false
    → (reconcile api calls c order name namespace w).1 ≡ finished []
    → (i j : String) (svc : ServiceInstance)
    → view (reconcile api calls c order name namespace w).0 i j ≡ some svc
    → is_for ep.name ep.namespace svc ≡ true
    → has_address api c ep w (visits order ep.subsets) svc.address ≡ true
reconcile-current api calls c view order l name namespace ep w allowed there kept h i j svc e
      marks =
    let same = reconcile-endpoints api calls c order name namespace ep w allowed there kept h in
    reconcile_endpoints-current api calls c view l order ep w (ap (λ r. r.1) (sym same) ∙ h) i j svc
      (ap (λ r. view r.0 i j) (sym same) ∙ e) marks
