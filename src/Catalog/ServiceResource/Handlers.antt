-- ===== src/Catalog/ServiceResource/Handlers.antt =====
-- The handlers of control-plane/catalog/to-consul/resource.go: `Upsert` and `Delete` of
-- `ServiceResource`, and those of `serviceEndpointsResource`. The syncer is a parameter: what `Sync`
-- makes of its state. An object of another type is `none`.
pub mod InStep
pub mod Changes
pub mod Allowed
use consul_k8s.Base.{
  String, Bool, true, false, Option, none, some, List, [], ◌∷◌, ◌++◌, Result, ok, err,
}
use consul_k8s.Base.{if◌then◌else◌, is_some}
use consul_k8s.Base.Dict
use consul_k8s.Base.Dict.{Dict}
use consul_k8s.Catalog.ConsulSyncer.{Registration}
use consul_k8s.Catalog.ServiceResource.{
  Service, Endpoints, Reader, Settings, ServiceResource, should_sync, should_track_endpoints,
}
use consul_k8s.Catalog.ServiceResource.Generate.{Registrations, generate_registrations}

-- All registrations, in the order of the `range` loop.
abbrev pub all_registrations : Registrations → List Registration
all_registrations [] = []
all_registrations ((_, rs) ∷ rest) = rs ++ all_registrations rest

module _ {S : Type 0} (sync_to : List Registration → S → S) where
  abbrev World : Type 0
  World = ServiceResource × S

  unfoldable pub sync : World → World
  sync (t, s) = (t, sync_to (all_registrations t.consul_map) s)

  unfoldable pub do_delete : String → World → World
  unfolding sync
  do_delete key (t, s) =
      let dropped = record t {
        service_map = Dict.erase key t.service_map;
        endpoints_map = Dict.erase key t.endpoints_map;
      } in
      if Dict.has key t.consul_map
      then sync (record dropped { consul_map = Dict.erase key t.consul_map }, s)
      else (dropped, s)

  unfoldable pub delete : String → World → World
  unfolding do_delete
  delete key w = do_delete key w

  unfoldable pub delete_endpoints : String → World → World
  unfolding sync
  delete_endpoints key (t, s) =
      let dropped = record t { endpoints_map = Dict.erase key t.endpoints_map } in
      if Dict.has key t.endpoints_map
      then if Dict.has key t.consul_map
        then sync (record dropped { consul_map = Dict.erase key t.consul_map }, s)
        else (dropped, s)
      else (t, s)

-- The load of the endpoints of a service that is tracked. An error is logged.
unfoldable pub load_endpoints :
    Settings → Reader → String → Service → ServiceResource → ServiceResource
load_endpoints c rd key svc t =
    if should_track_endpoints c key t
    then elim (rd.endpoints svc.namespace svc.name) [
      | err e ↦ t
      | ok endpoints ↦ record t { endpoints_map = Dict.insert key endpoints t.endpoints_map }
    ]
    else t

module _ {S : Type 0} (sync_to : List Registration → S → S) (c : Settings) (rd : Reader) where
  unfoldable pub upsert : String → Option Service → ServiceResource × S → ServiceResource × S
  unfolding do_delete load_endpoints sync
  upsert key none w = w
  upsert key (some svc) (t, s) =
      if should_sync c svc
      then (let known = record t { service_map = Dict.insert key svc t.service_map } in
          sync sync_to (generate_registrations c rd key (load_endpoints c rd key svc known), s))
      else if Dict.has key t.service_map
      then do_delete sync_to key (t, s)
      else (t, s)

  unfoldable pub upsert_endpoints :
      String → Option Endpoints → ServiceResource × S → ServiceResource × S
  unfolding sync
  upsert_endpoints key none w = w
  upsert_endpoints key (some endpoints) (t, s) =
      if should_track_endpoints c key t
      then sync sync_to (
        generate_registrations c rd key
            (record t { endpoints_map = Dict.insert key endpoints t.endpoints_map }),
        s,
      )
      else (t, s)

-- What reaches the resource: an event of the informer of services or of that of endpoints, with
-- what the handler reads while it runs.
pub data Event : Type 0 where
  service_upserted : Reader → String → Option Service → Event
  service_deleted : String → Event
  endpoints_upserted : Reader → String → Option Endpoints → Event
  endpoints_deleted : String → Event

module _ {S : Type 0} (sync_to : List Registration → S → S) (c : Settings) where
  unfoldable pub handle : Event → ServiceResource × S → ServiceResource × S
  unfolding upsert delete upsert_endpoints delete_endpoints
  handle (service_upserted rd key svc) w = upsert sync_to c rd key svc w
  handle (service_deleted key) w = delete sync_to key w
  handle (endpoints_upserted rd key endpoints) w = upsert_endpoints sync_to c rd key endpoints w
  handle (endpoints_deleted key) w = delete_endpoints sync_to key w

  unfoldable pub run : List Event → ServiceResource × S → ServiceResource × S
  unfolding handle
  run [] w = w
  run (e ∷ es) w = run es (handle e w)
