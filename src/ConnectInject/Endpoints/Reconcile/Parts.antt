-- ===== src/ConnectInject/Endpoints/Reconcile/Parts.antt =====
-- The two parts of a reconcile of an Endpoints object, registrations and deregistrations
-- (control-plane/connect-inject/controllers/endpoints/endpoints_controller.go).
use mathlib.Core.Path.{subst}
use mathlib.Core.List.{Memᴰ}
use mathlib.Core.List.Memᴰ.{head, tail}
use consul_k8s.Base.{
  ◌≡◌, refl, sym, ap, ◌∙◌, String, Bool, true, false, not, ◌&&◌, Option, none, some, List, [], ◌∷◌,
}
use consul_k8s.Base.{arith, inl, inr, Option-cases, ok, contains, All}
use consul_k8s.ConnectInject.Deregister.{ServiceInstance, deregister_service}
use consul_k8s.ConnectInject.Deregister.Instances.{goes, is_dropped, deregister_service-removes}
use consul_k8s.ConnectInject.Deregister.Query.{listing}
use consul_k8s.ConnectInject.Endpoints.{Endpoints, Clients, Calls, Controller, deregister_settings}
use consul_k8s.ConnectInject.Endpoints.Reconcile.{
  Visit, Progress, finished, finish, visits, register_each, reconcile_endpoints,
}
use consul_k8s.ConnectInject.Endpoints.Reconcile.Laws.{holds, is_at, IsConsul, holds-IsCatalog}
use consul_k8s.ConnectInject.Endpoints.Reconcile.Pods.{append-ne-nil}
use consul_k8s.ConnectInject.Endpoints.Reconcile.Visits.{has_address, register_each-addresses}

abbrev pub nothing : Progress
nothing = record { addresses = []; errors = [] }

-- An answer without errors.
finish-clean :
    {S : Type 0} (p : Progress) (m : S × Option String)
    → (finish p m).1 ≡ finished []
    → (m.1 ≡ none) × (p.errors ≡ []) × ((finish p m).0 ≡ m.0)
finish-clean p (w, none) h = (refl, ground (arith, h), refl)
finish-clean p (w, some e) h = absurd (append-ne-nil p.errors e (ground (arith, h)))

-- An instance that the list has and that is selected is dropped.
pub Memᴰ-is_dropped :
    (addresses : Option (List String)) (svc : ServiceInstance) (svcs : List ServiceInstance)
    → Memᴰ svc svcs
    → goes addresses svc.address ≡ true
    → is_dropped addresses svc.namespace svc.id svcs ≡ true
Memᴰ-is_dropped addresses svc [] m h = elim m [ ]
Memᴰ-is_dropped addresses svc (x ∷ more) (head e) h =
    subst (λ y. is_dropped addresses svc.namespace svc.id (y ∷ more) ≡ true) e (ground (arith, h))
Memᴰ-is_dropped addresses svc (x ∷ more) (tail m) h =
    ground (arith, Memᴰ-is_dropped addresses svc more m h)

module _ {S : Type 0} (api : Clients S) (calls : Calls) (c : Controller)
    (view : S → String → String → Option ServiceInstance) (l : IsConsul api calls c view)
    (order : List Visit → List Visit) (ep : Endpoints) where
  -- An instance at one of the addresses is not dropped.
  pub is_at-is_dropped :
      (addresses : List String) (w : S) (i j : String) (svcs : List ServiceInstance)
      → All (λ svc. view w (ServiceInstance.namespace svc) (ServiceInstance.id svc) ≡ some svc) svcs
      → is_at view addresses w i j ≡ true
      → is_dropped (some addresses) i j svcs ≡ false
  is_at-is_dropped addresses w i j [] listed h = refl
  is_at-is_dropped addresses w i j (svc ∷ more) (e, listed) h =
      ground (arith, e, h, is_at-is_dropped addresses w i j more listed h)

  -- The parts of a reconcile without an error.
  pub record Reconciled (w : S) (test : ServiceInstance → Bool) : Type 0 where
    pub p : Progress
    pub svcs : List ServiceInstance
    pub registered :
        (register_each api calls c order ep (visits order ep.subsets) nothing w).1 ≡ some p
    pub clean : p.errors ≡ []
    pub listed :
        listing api.consul calls.texts c.enable_consul_namespaces
          (register_each api calls c order ep (visits order ep.subsets) nothing w).0
          ep.name
          ep.namespace
        ≡ ok svcs
    pub removed :
        (i j : String)
        → holds test (view (reconcile_endpoints api calls c order ep w).0 i j) ≡ (
            holds test
              (view (register_each api calls c order ep (visits order ep.subsets) nothing w).0 i j)
            && not (is_dropped (some p.addresses) i j svcs))

  pub reconcile_endpoints-Reconciled :
      (w : S) (test : ServiceInstance → Bool)
      → (reconcile_endpoints api calls c order ep w).1 ≡ finished []
      → Reconciled w test
  unfolding reconcile_endpoints
  reconcile_endpoints-Reconciled w test h =
      let m = register_each api calls c order ep (visits order ep.subsets) nothing w in
      elim (Option-cases m.1) [
        | inl crash ↦ absurd (ground (arith, crash, h))
        | inr (p, registered) ↦
            (let gone =
                deregister_service api.consul calls.texts (deregister_settings c) ep.name
                  ep.namespace (some p.addresses) m.0 in
              let opened : reconcile_endpoints api calls c order ep w ≡ finish p gone =
                rw (registered, reconcile_endpoints) refl in
              let (none_failed, clean, same) =
                finish-clean p gone (ap (λ r. r.1) (sym opened) ∙ h) in
              let (svcs, listed, removed) =
                deregister_service-removes api.consul calls.texts (deregister_settings c)
                  (λ w i j. holds test (view w i j)) (holds-IsCatalog api calls c view l test)
                  ep.name ep.namespace (some p.addresses) m.0 none_failed in
              record {
                p = p;
                svcs = svcs;
                registered = registered;
                clean = clean;
                listed = listed;
                removed = λ i j.
                    ap (λ r. holds test (view r.0 i j)) opened
                    ∙ ap (λ w'. holds test (view w' i j)) same
                    ∙ removed i j;
              })
      ]

  -- The addresses are those of the pods.
  pub has_address-addresses :
      (w : S) {test : ServiceInstance → Bool} (r : Reconciled w test) (a : String)
      → contains r.p.addresses a ≡ has_address api c ep w (visits order ep.subsets) a
  has_address-addresses w r a = ground (
    arith,
    register_each-addresses api calls c view l order ep (visits order ep.subsets) a nothing r.p w
        r.registered,
  )
