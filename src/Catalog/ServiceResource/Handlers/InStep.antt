-- ===== src/Catalog/ServiceResource/Handlers/InStep.antt =====
-- The syncer of control-plane/catalog/to-consul tracks what `ServiceResource` has registered.
use consul_k8s.Base.{◌≡◌, refl, String, none, some, List, [], ◌∷◌}
use consul_k8s.Base.{Bool-cases, inl, inr}
use consul_k8s.Base.Dict
use consul_k8s.Base.Dict.{lookup}
use consul_k8s.Base.Nested.{lookup2, has_member}
use consul_k8s.Catalog.ConsulSyncer
use consul_k8s.Catalog.ConsulSyncer.{Registration, ConsulSyncer}
use consul_k8s.Catalog.ConsulSyncer.Tracking.{latest, offers, sync-tracks}
use consul_k8s.Catalog.ServiceResource.{
  Settings, ServiceResource, should_sync, should_track_endpoints,
}
use consul_k8s.Catalog.ServiceResource.Generate.{generate_registrations}
use consul_k8s.Catalog.ServiceResource.Handlers.{
  all_registrations, sync, do_delete, delete, delete_endpoints, load_endpoints, upsert,
  upsert_endpoints, Event, service_upserted, service_deleted, endpoints_upserted, endpoints_deleted,
  handle, run,
}

-- What a syncer shows, and what a call of `Sync` makes of it, whatever it showed before.
module _ {S V : Type 0} (sync_to : List Registration → S → S) (view : S → V)
    (spec : List Registration → V)
    (view-sync : (rs : List Registration) (s : S) → view (sync_to rs s) ≡ spec rs) where
  abbrev IsInStep : ServiceResource × S → Type 0
  IsInStep (t, s) = view s ≡ spec (all_registrations t.consul_map)

  do_delete-IsInStep :
      (key : String) (w : ServiceResource × S) → IsInStep w → IsInStep (do_delete sync_to key w)
  unfolding do_delete sync
  do_delete-IsInStep key (t, s) h = elim (Bool-cases (Dict.has key t.consul_map)) [
    | inl e ↦ rw e (view-sync (all_registrations (Dict.erase key t.consul_map)) s)
    | inr e ↦ rw e h
  ]

  delete_endpoints-IsInStep :
      (key : String) (w : ServiceResource × S)
      → IsInStep w
      → IsInStep (delete_endpoints sync_to key w)
  unfolding delete_endpoints sync
  delete_endpoints-IsInStep key (t, s) h = elim (Bool-cases (Dict.has key t.endpoints_map)) [
    | inr e ↦ rw e h
    | inl e ↦ elim (Bool-cases (Dict.has key t.consul_map)) [
      | inl e' ↦ rw (e, e') (view-sync (all_registrations (Dict.erase key t.consul_map)) s)
      | inr e' ↦ rw (e, e') h
    ]
  ]

  handle-IsInStep :
      (c : Settings) (e : Event) (w : ServiceResource × S)
      → IsInStep w
      → IsInStep (handle sync_to c e w)
  unfolding handle upsert upsert_endpoints delete sync
  handle-IsInStep c (service_upserted rd key none) w h = h
  handle-IsInStep c (service_upserted rd key (some svc)) (t, s) h =
      let known = record t { service_map = Dict.insert key svc t.service_map } in
      let t' = generate_registrations c rd key (load_endpoints c rd key svc known) in
      elim (Bool-cases (should_sync c svc)) [
        | inl e ↦ rw e (view-sync (all_registrations t'.consul_map) s)
        | inr e ↦ elim (Bool-cases (Dict.has key t.service_map)) [
          | inl e' ↦ rw (e, e') (do_delete-IsInStep key (t, s) h)
          | inr e' ↦ rw (e, e') h
        ]
      ]
  handle-IsInStep c (service_deleted key) w h = do_delete-IsInStep key w h
  handle-IsInStep c (endpoints_upserted rd key none) w h = h
  handle-IsInStep c (endpoints_upserted rd key (some endpoints)) (t, s) h =
      let t' =
        generate_registrations c rd key
          (record t { endpoints_map = Dict.insert key endpoints t.endpoints_map }) in
      elim (Bool-cases (should_track_endpoints c key t)) [
        | inl e ↦ rw e (view-sync (all_registrations t'.consul_map) s)
        | inr e ↦ rw e h
      ]
  handle-IsInStep c (endpoints_deleted key) w h = delete_endpoints-IsInStep key w h

  run-IsInStep :
      (c : Settings) (es : List Event) (w : ServiceResource × S)
      → IsInStep w
      → IsInStep (run sync_to c es w)
  unfolding run
  run-IsInStep c [] w h = h
  run-IsInStep c (e ∷ es) w h = run-IsInStep c es (handle sync_to c e w) (handle-IsInStep c e w h)

abbrev pub empty : ServiceResource
empty = record { service_map = []; endpoints_map = []; consul_map = [] }

-- After any events, of services and of endpoints and in any order, the ConsulSyncer that the
-- ServiceResource feeds tracks exactly what its map of registrations holds: of each identifier in a
-- namespace the last registration, and the names of the services.
pub run-tracks :
    (c : Settings) (es : List Event) (s : ConsulSyncer) (ns id name : String)
    → s.namespaces ≡ []
    → s.service_names ≡ []
    → let (t, s') = run ConsulSyncer.sync c es (empty, s) in
      (lookup2 ns id s'.namespaces ≡ latest ns id none (all_registrations t.consul_map))
      × (has_member ns name s'.service_names ≡ offers ns name (all_registrations t.consul_map))
unfolding lookup
run-tracks c es s ns id name fresh clean = (
  run-IsInStep ConsulSyncer.sync (λ s'. lookup2 ns id s'.namespaces) (latest ns id none)
      (λ rs s'. (sync-tracks ns id name rs s').0) c es (empty, s) (rw fresh refl),
  run-IsInStep ConsulSyncer.sync (λ s'. has_member ns name s'.service_names) (offers ns name)
      (λ rs s'. (sync-tracks ns id name rs s').1) c es (empty, s) (rw clean refl),
)
