-- ===== src/Catalog/ConsulSyncer.antt =====
-- control-plane/catalog/to-consul/syncer.go: `ConsulSyncer`, which keeps the Consul catalog in
-- step with a set of registrations. The mutex makes each method, and each round of a watcher, one
-- step. The Consul catalog is a parameter.
pub mod Tracking
pub mod Reaping
pub mod Watchers
pub mod Full
use consul_k8s.Base.{String, Bool, true, false, not, ◌&&◌, Option, none, some, List, [], ◌∷◌}
use consul_k8s.Base.{◌==◌, if◌then◌else◌, is_some, get_or, contains, Result, ok, err}
use consul_k8s.Base.Int.{ℤ}
use consul_k8s.Base.Dict
use consul_k8s.Base.Dict.{Dict}
use consul_k8s.Base.Nested.{lookup2, insert2, has_member, add_member}
use consul_k8s.Namespaces.{NamespaceApi, ensure_exists}

-- `api.CatalogRegistration`: what the syncer reads, and the rest of it.
pub record Registration : Type 0 where
  pub node : String
  pub service : String
  pub id : String
  pub namespace : String
  pub address : String
  pub port : ℤ
  pub tags : List String
  pub meta : Dict String

-- `api.CatalogDeregistration`
pub record Deregistration : Type 0 where
  pub node : String
  pub service_id : String
  pub namespace : String

-- `api.CatalogService`, an instance of a service.
pub record CatalogService : Type 0 where
  pub node : String
  pub service_name : String
  pub service_id : String

-- `api.AgentService`, an entry of the list of a node.
pub record NodeService : Type 0 where
  pub service : String
  pub namespace : String

-- The maps of the syncer. A watcher is its service's name under its namespace.
pub record ConsulSyncer : Type 0 where
  pub enable_namespaces : Bool
  pub cross_namespace_acl_policy : String
  pub consul_k8s_tag : String
  pub initial_sync : Bool
  pub service_names : Dict (List String)
  pub namespaces : Dict (Dict Registration)
  pub deregs : Dict Deregistration
  pub watchers : Dict (List String)

-- `consulClient.Catalog()` over an unknown state. `connect` is the error of making a client.
pub record CatalogApi (S : Type 0) : Type 0 where
  pub connect : S → Option String
  pub service : S → String → String → String → Result (List CatalogService)
  pub register : S → Registration → S × Option String
  pub deregister : S → Deregistration → S × Option String

-- The loop of `Sync`.
unfoldable pub track : List Registration → ConsulSyncer → ConsulSyncer
track [] s = s
track (r ∷ rs) s = track rs (record s {
  service_names = add_member r.namespace r.service s.service_names;
  namespaces = insert2 r.namespace r.id r s.namespaces;
})

unfoldable pub sync : List Registration → ConsulSyncer → ConsulSyncer
unfolding track
sync rs s = record (track rs (record s { service_names = []; namespaces = [] })) {
  initial_sync = true;
}

abbrev pub dereg : ConsulSyncer → String → CatalogService → Deregistration
dereg s namespace svc = record {
  node = svc.node;
  service_id = svc.service_id;
  namespace = if s.enable_namespaces then namespace else "";
}

schedule : String → CatalogService → ConsulSyncer → ConsulSyncer
schedule namespace svc s = record s {
  deregs = Dict.insert svc.service_id (dereg s namespace svc) s.deregs;
}

abbrev pub is_valid : ConsulSyncer → String → CatalogService → Bool
is_valid s namespace svc =
    has_member namespace svc.service_name s.service_names
    && is_some (lookup2 namespace svc.service_id s.namespaces)

-- The loop of `watchService` over the instances of its service.
unfoldable pub check_instances : String → List CatalogService → ConsulSyncer → ConsulSyncer
unfolding schedule
check_instances namespace [] s = s
check_instances namespace (svc ∷ svcs) s =
    check_instances namespace svcs
      (if is_valid s namespace svc then s else schedule namespace svc s)

-- The loop of `scheduleReapServiceLocked` over the instances of a service.
unfoldable pub reap_instances : String → List CatalogService → ConsulSyncer → ConsulSyncer
unfolding schedule
reap_instances namespace [] s = s
reap_instances namespace (svc ∷ svcs) s = reap_instances namespace svcs (schedule namespace svc s)

-- The watcher of a service: is it in the set, and is the set there?
abbrev pub keep_members : (String → Bool) → List String → List String
keep_members p [] = []
keep_members p (x ∷ xs) = let rest = keep_members p xs in if p x then x ∷ rest else rest

-- The first loop of `syncFull`: watchers of services that are no longer valid are cancelled.
unfoldable pub cancel_watchers : Dict (List String) → Dict (List String) → Dict (List String)
cancel_watchers names [] = []
cancel_watchers names ((ns, svcs) ∷ rest) =
    (ns, keep_members (λ svc. has_member ns svc names) svcs) ∷ cancel_watchers names rest

-- The second loop, for the services of one namespace: watchers that are missing are started.
unfoldable pub start_in : String → List String → Dict (List String) → Dict (List String)
start_in ns [] watchers = watchers
start_in ns (svc ∷ svcs) watchers =
    start_in ns svcs (if has_member ns svc watchers then watchers else add_member ns svc watchers)

unfoldable pub start_watchers : Dict (List String) → Dict (List String) → Dict (List String)
start_watchers [] watchers = watchers
start_watchers ((ns, svcs) ∷ rest) watchers = start_watchers rest (start_in ns svcs watchers)

unfoldable pub init : Bool → String → String → ConsulSyncer
init enable_namespaces policy tag = record {
  enable_namespaces = enable_namespaces;
  cross_namespace_acl_policy = policy;
  consul_k8s_tag = tag;
  initial_sync = false;
  service_names = [];
  namespaces = [];
  deregs = [];
  watchers = [];
}

module _ {S : Type 0} (api : CatalogApi S) (nsapi : NamespaceApi S) where
  abbrev instances : ConsulSyncer → S → String → String → Result (List CatalogService)
  instances s w name namespace = elim (api.connect w) [
    | some e ↦ err e
    | none ↦ api.service w name s.consul_k8s_tag (if s.enable_namespaces then namespace else "")
  ]

  -- A round of `watchService`. After an error the watcher tries again later.
  unfoldable pub watch_service : String → String → S → ConsulSyncer → ConsulSyncer
  unfolding check_instances
  watch_service name namespace w s = elim (instances s w name namespace) [
    | err e ↦ s
    | ok svcs ↦ check_instances namespace svcs s
  ]

  -- An error is logged by the caller.
  unfoldable pub schedule_reap_service_locked : String → String → S → ConsulSyncer → ConsulSyncer
  unfolding reap_instances
  schedule_reap_service_locked name namespace w s = elim (instances s w name namespace) [
    | err e ↦ s
    | ok svcs ↦ reap_instances namespace svcs s
  ]

  reap_all : List NodeService → S → ConsulSyncer → ConsulSyncer
  unfolding schedule_reap_service_locked
  reap_all [] w s = s
  reap_all (svc ∷ svcs) w s =
      let ns = if s.enable_namespaces then svc.namespace else "" in
      reap_all svcs w (
        if has_member ns svc.service s.service_names
        then s
        else schedule_reap_service_locked svc.service ns w s)

  -- A round of `watchReapableServices` over the services of the node. It waits for the first sync.
  unfoldable pub watch_reapable_services : List NodeService → S → ConsulSyncer → ConsulSyncer
  unfolding reap_all
  watch_reapable_services svcs w s = if s.initial_sync then reap_all svcs w s else s

  -- Errors of these loops are logged, and the loops go on.
  unfoldable pub deregister_all : Dict Deregistration → S → S
  deregister_all [] w = w
  deregister_all ((id, d) ∷ ds) w = deregister_all ds (api.deregister w d).0

  register_one : ConsulSyncer → Registration → S → S
  register_one s r w =
      if s.enable_namespaces
      then (let (w', created, answer) =
            ensure_exists nsapi r.namespace s.cross_namespace_acl_policy w in
          elim answer [ some e ↦ w' | none ↦ (api.register w' r).0 ])
      else (api.register w r).0

  register_in : ConsulSyncer → Dict Registration → S → S
  register_in s [] w = w
  register_in s ((id, r) ∷ rs) w = register_in s rs (register_one s r w)

  unfoldable pub register_all : ConsulSyncer → Dict (Dict Registration) → S → S
  unfolding register_in register_one
  register_all s [] w = w
  register_all s ((ns, rs) ∷ rest) w = register_all s rest (register_in s rs w)

  unfoldable pub sync_full : ConsulSyncer → S → ConsulSyncer × S
  sync_full s w = elim (api.connect w) [
    | some e ↦ (s, w)
    | none ↦ (
      record s {
        watchers = start_watchers s.service_names (cancel_watchers s.service_names s.watchers);
        deregs = [];
      },
      register_all s s.namespaces (deregister_all s.deregs w),
    )
  ]
