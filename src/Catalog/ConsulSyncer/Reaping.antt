-- ===== src/Catalog/ConsulSyncer/Reaping.antt =====
-- Which instances the watchers schedule for removal (control-plane/catalog/to-consul/syncer.go).
use consul_k8s.Base.{Option, none, some, Option-cases, ◌≡◌, refl, ◌∙◌, String, Bool, arith}
use consul_k8s.Base.{
  ap, Bool-cases, inl, inr, Result-cases, List, [], ◌∷◌, ◌==◌, if◌then◌else◌, ok, err,
}
use consul_k8s.Base.Dict.{lookup, lookup-insert}
use consul_k8s.Base.Nested.{has_member}
use consul_k8s.Namespaces.{NamespaceApi}
use consul_k8s.Catalog.ConsulSyncer.{
  ConsulSyncer, Deregistration, CatalogService, NodeService, CatalogApi, schedule, dereg,
  check_instances, reap_instances, instances, schedule_reap_service_locked, reap_all,
  watch_reapable_services,
}

-- The last deregistration that a list of instances gives an identifier, over an earlier one.
abbrev pub last_of :
    String → String → Option Deregistration → List CatalogService → Option Deregistration
last_of id ns old [] = old
last_of id ns old (x ∷ xs) =
    last_of id ns
      (if id == x.service_id
        then some (record { node = x.node; service_id = x.service_id; namespace = ns })
        else old)
      xs

check_instances_frame :
    (ns : String) (svcs : List CatalogService) (s : ConsulSyncer)
    → check_instances ns svcs s ≡ record s { deregs = (check_instances ns svcs s).deregs }
unfolding check_instances
check_instances_frame ns [] s = refl
check_instances_frame ns (svc ∷ svcs) s =
    ground
      (arith, check_instances_frame ns svcs s, check_instances_frame ns svcs (schedule ns svc s))

reap_instances-lookup :
    (id ns : String) (svcs : List CatalogService) (s : ConsulSyncer)
    → lookup id (reap_instances ns svcs s).deregs
      ≡ last_of id (if s.enable_namespaces then ns else "") (lookup id s.deregs) svcs
unfolding reap_instances
reap_instances-lookup id ns [] s = refl
reap_instances-lookup id ns (svc ∷ svcs) s =
    reap_instances-lookup id ns svcs (schedule ns svc s)
    ∙ ap (λ old. last_of id (if s.enable_namespaces then ns else "") old svcs)
        (lookup-insert id svc.service_id (dereg s ns svc) s.deregs)

reap_instances_frame :
    (ns : String) (svcs : List CatalogService) (s : ConsulSyncer)
    → reap_instances ns svcs s ≡ record s { deregs = (reap_instances ns svcs s).deregs }
unfolding reap_instances
reap_instances_frame ns [] s = refl
reap_instances_frame ns (svc ∷ svcs) s =
    ground (arith, reap_instances_frame ns svcs (schedule ns svc s))

if_twice :
    (b : Bool) (ns : String) → (if b then if b then ns else "" else "") ≡ (if b then ns else "")
if_twice b ns = ground arith

module _ {S : Type 0} (api : CatalogApi S) (nsapi : NamespaceApi S) where
  -- What Consul answers for a service of the node, in its namespace if there are namespaces: no
  -- instance if the call fails.
  abbrev pub listed : S → ConsulSyncer → NodeService → List CatalogService
  listed w s svc = elim (api.connect w) [
    | some e ↦ []
    | none ↦
        elim (api.service w svc.service s.consul_k8s_tag
          (if s.enable_namespaces then svc.namespace else "")) [ err e ↦ [] | ok svcs ↦ svcs ]
  ]

  -- What is to be scheduled under an identifier, over what was: the last instance of the services of
  -- the node that the syncer does not track.
  abbrev pub due :
      String → S → ConsulSyncer → Option Deregistration → List NodeService → Option Deregistration
  due id w s old [] = old
  due id w s old (svc ∷ svcs) =
      let ns = if s.enable_namespaces then svc.namespace else "" in
      due id w s
        (if has_member ns svc.service s.service_names
          then old
          else last_of id ns old (listed w s svc))
        svcs

  schedule_reap-lookup :
      (id : String) (svc : NodeService) (w : S) (s : ConsulSyncer)
      → lookup id
          (schedule_reap_service_locked api nsapi svc.service
            (if s.enable_namespaces then svc.namespace else "")
            w
            s).deregs
        ≡ last_of id
            (if s.enable_namespaces then svc.namespace else "")
            (lookup id s.deregs)
            (listed w s svc)
  unfolding schedule_reap_service_locked
  schedule_reap-lookup id svc w s =
      let ns = if s.enable_namespaces then svc.namespace else "" in
      let once = if_twice s.enable_namespaces svc.namespace in
      elim (Option-cases (api.connect w)) [
        | inr (_, down) ↦
            let read : listed w s svc ≡ [] = ground (arith, down) in
            rw (down, schedule_reap_service_locked, read) refl
        | inl up ↦ elim (Result-cases (api.service w svc.service s.consul_k8s_tag ns)) [
          | inl (svcs, ans) ↦
              let read : listed w s svc ≡ svcs = ground (arith, up, ans) in
              rw (up, schedule_reap_service_locked, once, ans, read)
                (rw once at (reap_instances-lookup id ns svcs s))
          | inr (_, ans) ↦
              let read : listed w s svc ≡ [] = ground (arith, up, ans) in
              rw (up, schedule_reap_service_locked, once, ans, read) refl
        ]
      ]

  schedule_reap_frame :
      (name ns : String) (w : S) (s : ConsulSyncer)
      → schedule_reap_service_locked api nsapi name ns w s
        ≡ record s { deregs = (schedule_reap_service_locked api nsapi name ns w s).deregs }
  unfolding schedule_reap_service_locked
  schedule_reap_frame name ns w s = elim (Result-cases (instances api nsapi s w name ns)) [
    | inl (svcs, e) ↦ rw (e, schedule_reap_service_locked) (reap_instances_frame ns svcs s)
    | inr (t, e) ↦ rw (e, schedule_reap_service_locked)
  ]

  reap_all-lookup :
      (id : String) (svcs : List NodeService) (w : S) (s : ConsulSyncer)
      → lookup id (reap_all api nsapi svcs w s).deregs ≡ due id w s (lookup id s.deregs) svcs
  unfolding reap_all
  reap_all-lookup id [] w s = refl
  reap_all-lookup id (svc ∷ svcs) w s =
      let ns = if s.enable_namespaces then svc.namespace else "" in
      let t = schedule_reap_service_locked api nsapi svc.service ns w s in
      elim (Bool-cases (has_member ns svc.service s.service_names)) [
        | inl tracked ↦ rw (tracked, reap_all) (reap_all-lookup id svcs w s)
        | inr stray ↦
            rw (stray, reap_all)
              (ap (λ k. lookup id (reap_all api nsapi svcs w k).deregs)
                  (schedule_reap_frame svc.service ns w s)
                ∙ (reap_all-lookup id svcs w (record s { deregs = t.deregs })
                    ∙ ap (λ old. due id w s old svcs) (schedule_reap-lookup id svc w s)))
      ]

  -- After a round of the reaper over services of the node, the deregistration that is scheduled under
  -- an identifier names the node, the identifier and the namespace of the last instance with it that
  -- Consul lists for one of those services that the syncer does not track. If there is none, or before
  -- the first `Sync`, it is what it was.
  pub watch_reapable_services-lookup :
      (id : String) (svcs : List NodeService) (w : S) (s : ConsulSyncer)
      → lookup id (watch_reapable_services api nsapi svcs w s).deregs
        ≡ (if s.initial_sync then due id w s (lookup id s.deregs) svcs else lookup id s.deregs)
  unfolding watch_reapable_services
  watch_reapable_services-lookup id svcs w s = ground (arith, reap_all-lookup id svcs w s)
