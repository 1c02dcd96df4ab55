-- ===== src/Catalog/ServiceResource/Handlers/Allowed.antt =====
-- Only services that are to be synced are known, tracked and registered
-- (control-plane/catalog/to-consul/resource.go).
use consul_k8s.Base.{
  ◌≢◌, contains, ◌||◌, false, ◌≡◌, String, true, none, some, List, [], ◌∷◌, arith,
}
use consul_k8s.Base.{Bool-cases, Option-cases, inl, inr, Result-cases}
use consul_k8s.Base.Dict
use consul_k8s.Base.Dict.{lookup, insert, erase, lookup-insert, lookup-erase, lookup-nil}
use consul_k8s.Catalog.ConsulSyncer.{Registration}
use consul_k8s.Base.Strconv.{parse_bool}
use consul_k8s.Catalog.ServiceResource.{
  cluster_ip, Service, Reader, Settings, ServiceResource, should_sync, should_track_endpoints,
}
use consul_k8s.Catalog.ServiceResource.Handlers.{
  sync, do_delete, delete, delete_endpoints, load_endpoints, upsert, upsert_endpoints, Event,
  service_upserted, service_deleted, endpoints_upserted, endpoints_deleted, handle, run,
}
use consul_k8s.Catalog.ServiceResource.Handlers.InStep.{empty}
use consul_k8s.Catalog.ServiceResource.Handlers.Changes.{
  IsAllowed, generate-IsAllowed, erase-IsAllowed, erase_tracked-IsAllowed, insert-IsAllowed,
  insert_endpoints-IsAllowed, erase_endpoints-IsAllowed, erase_registrations-IsAllowed,
}

load_endpoints-IsAllowed :
    (c : Settings) (rd : Reader) (key : String) (svc : Service) (t : ServiceResource)
    → IsAllowed c t
    → IsAllowed c (load_endpoints c rd key svc t)
unfolding load_endpoints
load_endpoints-IsAllowed c rd key svc t v = elim (Bool-cases (should_track_endpoints c key t)) [
  | inr e ↦ rw e v
  | inl e ↦ elim (Result-cases (rd.endpoints svc.namespace svc.name)) [
    | inr (_, failed) ↦ rw (e, failed) v
    | inl (endpoints, read) ↦ rw (e, read) (insert_endpoints-IsAllowed c key endpoints t e v)
  ]
]

module _ {S : Type 0} (sync_to : List Registration → S → S) (c : Settings) where
  do_delete-IsAllowed :
      (key : String) (t : ServiceResource) (s : S)
      → IsAllowed c t
      → IsAllowed c (do_delete sync_to key (t, s)).0
  unfolding do_delete sync
  do_delete-IsAllowed key t s v = elim (Bool-cases (Dict.has key t.consul_map)) [
    | inl e ↦ rw e (erase-IsAllowed c key t v)
    | inr e ↦ rw e (erase_tracked-IsAllowed c key t e v)
  ]

  delete_endpoints-IsAllowed :
      (key : String) (t : ServiceResource) (s : S)
      → IsAllowed c t
      → IsAllowed c (delete_endpoints sync_to key (t, s)).0
  unfolding delete_endpoints sync
  delete_endpoints-IsAllowed key t s v = elim (Bool-cases (Dict.has key t.endpoints_map)) [
    | inr e ↦ rw e v
    | inl e ↦
        let dropped = erase_endpoints-IsAllowed c key t v in
        elim (Bool-cases (Dict.has key t.consul_map)) [
          | inl e' ↦ rw (e, e') (erase_registrations-IsAllowed c key _ dropped)
          | inr e' ↦ rw (e, e') dropped
        ]
  ]

  handle-IsAllowed :
      (e : Event) (t : ServiceResource) (s : S)
      → IsAllowed c t
      → IsAllowed c (handle sync_to c e (t, s)).0
  unfolding handle upsert upsert_endpoints delete sync
  handle-IsAllowed (service_upserted rd key none) t s v = v
  handle-IsAllowed (service_upserted rd key (some svc)) t s v =
      elim (Bool-cases (should_sync c svc)) [
        | inl e ↦ rw e (
            generate-IsAllowed c rd key _
              (load_endpoints-IsAllowed c rd key svc _ (insert-IsAllowed c key svc t e v)))
        | inr e ↦ elim (Bool-cases (Dict.has key t.service_map)) [
          | inl e' ↦ rw (e, e') (do_delete-IsAllowed key t s v)
          | inr e' ↦ rw (e, e') v
        ]
      ]
  handle-IsAllowed (service_deleted key) t s v = do_delete-IsAllowed key t s v
  handle-IsAllowed (endpoints_upserted rd key none) t s v = v
  handle-IsAllowed (endpoints_upserted rd key (some endpoints)) t s v =
      elim (Bool-cases (should_track_endpoints c key t)) [
        | inl e ↦
            rw e (generate-IsAllowed c rd key _ (insert_endpoints-IsAllowed c key endpoints t e v))
        | inr e ↦ rw e v
      ]
  handle-IsAllowed (endpoints_deleted key) t s v = delete_endpoints-IsAllowed key t s v

  run-IsAllowed :
      (es : List Event) (t : ServiceResource) (s : S)
      → IsAllowed c t
      → IsAllowed c (run sync_to c es (t, s)).0
  unfolding run
  run-IsAllowed [] t s v = v
  run-IsAllowed (e ∷ es) t s v = run-IsAllowed es _ _ (handle-IsAllowed e t s v)

empty-IsAllowed : (c : Settings) → IsAllowed c empty
unfolding lookup
empty-IsAllowed c = record {
  registered = λ k h. ground (arith, h);
  tracked = λ k h. ground (arith, h);
  selected = λ k svc h. ground (arith, h);
}

-- What makes a service one that is to be synced: its namespace is not denied and is allowed, a ClusterIP
-- service is synced if these are, its annotation does not say no, and it says yes where that is asked
-- for.
pub record IsToSync (c : Settings) (svc : Service) : Type 0 where
  pub not_denied : contains c.deny_k8s_namespaces_set svc.namespace ≡ false
  pub allowed :
      (contains c.allow_k8s_namespaces_set "*" || contains c.allow_k8s_namespaces_set svc.namespace)
      ≡ true
  pub of_kind : svc.kind ≡ cluster_ip → c.cluster_ip_sync ≡ true
  pub not_excluded :
      (raw : String)
      → lookup "consul.hashicorp.com/service-sync" svc.annotations ≡ some raw
      → parse_bool raw ≢ some false
  pub asked :
      c.explicit_enable ≡ true
      → (raw : String) × (lookup "consul.hashicorp.com/service-sync" svc.annotations ≡ some raw)
        × (parse_bool raw ≡ some true)

should_sync-IsToSync : (c : Settings) (svc : Service) → should_sync c svc ≡ true → IsToSync c svc
unfolding should_sync
should_sync-IsToSync c svc h = record {
  not_denied = ground (arith, h);
  allowed = ground (arith, h);
  of_kind = λ e. ground (arith, h, e);
  not_excluded = λ raw e no. ground (arith, h, e, no);
  asked = λ explicit.
      elim (Option-cases (lookup "consul.hashicorp.com/service-sync" svc.annotations)) [
        | inl e ↦ absurd (ground (arith, h, e, explicit))
        | inr (raw, e) ↦ (raw, e, ground (arith, h, e, explicit))
      ];
}

-- After any events, of services and of endpoints and in any order, from a ServiceResource without
-- content, each key under which something is registered belongs to a service that the ServiceResource
-- knows. The namespace of that service is not in the deny list, and it or * is in the allow list; it is a
-- ClusterIP service only if these are synced; its annotation service-sync is not false, and is true if
-- services are synced on request only.
pub run-registers_allowed :
    {S : Type 0} (sync_to : List Registration → S → S) (c : Settings) (es : List Event) (s : S)
    (key : String)
    → Dict.has key (run sync_to c es (empty, s)).0.consul_map ≡ true
    → (svc : Service) × (lookup key (run sync_to c es (empty, s)).0.service_map ≡ some svc)
      × IsToSync c svc
run-registers_allowed sync_to c es s key h =
    let v = run-IsAllowed sync_to c es empty s (empty-IsAllowed c) in
    let known = v.registered key h in
    elim (Option-cases (lookup key (run sync_to c es (empty, s)).0.service_map)) [
      | inl unknown ↦ ground (arith, unknown, known)
      | inr (svc, e) ↦ (svc, e, should_sync-IsToSync c svc (v.selected key svc e))
    ]
