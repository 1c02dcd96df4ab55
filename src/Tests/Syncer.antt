-- ===== src/Tests/Syncer.antt =====
-- Tests of control-plane/catalog/to-consul over a Consul catalog that is kept in memory.
use consul_k8s.Base.{◌≡◌, refl, String, true, Option, none, some, List, [], ◌∷◌, ok}
use consul_k8s.Base.{string_dec, ◌==◌, ◌&&◌, ◌||◌, if◌then◌else◌, arith}
use consul_k8s.Base.Int.{pos}
use consul_k8s.Base.Dict
use consul_k8s.Base.Dict.{Dict, NodupKeys, lookup}
use consul_k8s.Base.Nested.{lookup2, has_member}
use consul_k8s.Namespaces.{NamespaceApi, ensure_exists}
use consul_k8s.Catalog.ConsulSyncer.{
  Registration, CatalogService, NodeService, ConsulSyncer, CatalogApi, init, sync,
  watch_reapable_services, sync_full,
}
use consul_k8s.Catalog.ConsulSyncer.Tracking.{
  latest, offers, sync-tracks, sync-AreTracked, sync-NodupKeys,
}
use consul_k8s.Catalog.ConsulSyncer.Reaping.{watch_reapable_services-lookup}
use consul_k8s.Catalog.ConsulSyncer.Watchers.{sync_full-watchers}
use consul_k8s.Catalog.ConsulSyncer.Full.{IsCatalog, view-sync_full}

-- The catalog is a list of writes, the last first.
abbrev Catalog : Type 0
Catalog = List (String × String × String × Option Registration)

abbrev view : Catalog → String → String → String → Option Registration
view [] n i j = none
view ((node, ns, id, r) ∷ rest) n i j =
    if n == node && i == ns && j == id then r else view rest n i j

abbrev here : CatalogService
here = record { node = "k8s-sync"; service_name = "web"; service_id = "web-1" }

abbrev stale : CatalogService
stale = record { node = "k8s-sync"; service_name = "web"; service_id = "web-2" }

abbrev api : CatalogApi Catalog
api = record {
  connect = λ w. none;
  service = λ w name tag ns. ok (here ∷ stale ∷ []);
  register = λ w r. ((r.node, r.namespace, r.id, some r) ∷ w, none);
  deregister = λ w d. ((d.node, d.namespace, d.service_id, none) ∷ w, none);
}

abbrev nsapi : NamespaceApi Catalog
nsapi = record { read = λ w ns. ok none; create = λ w n. (w, none) }

ensure_exists_up : (w : Catalog) (ns policy : String) → (ensure_exists nsapi ns policy w).2 ≡ none
unfolding ensure_exists
ensure_exists_up w ns policy = ground arith

api-IsCatalog : IsCatalog api nsapi view
api-IsCatalog = record {
  view-register = λ w r n i j. refl;
  view-deregister = λ w d n i j. refl;
  view-create = λ w ns n i j. refl;
  ensure_exists_up = ensure_exists_up;
}

abbrev web : Registration
web = record {
  node = "k8s-sync";
  service = "web";
  id = "web-1";
  namespace = "team";
  address = "10.0.0.1";
  port = pos 80;
  tags = "k8s" ∷ [];
  meta = [];
}

abbrev syncer : ConsulSyncer
syncer = sync (web ∷ []) (init true "cross" "k8s")

sync-tracks_example :
    (lookup2 "team" "web-1" syncer.namespaces ≡ latest "team" "web-1" none (web ∷ []))
    × (has_member "team" "web" syncer.service_names ≡ offers "team" "web" (web ∷ []))
sync-tracks_example = sync-tracks "team" "web-1" "web" (web ∷ []) (init true "cross" "k8s")

abbrev old : List NodeService
old = record { service = "old"; namespace = "team" } ∷ []

watch_reapable_services-lookup_example :
    lookup "web-1" (watch_reapable_services api nsapi old [] syncer).deregs
    ≡ some (record { node = "k8s-sync"; service_id = "web-1"; namespace = "team" })
unfolding sync lookup string_dec consul_k8s.Base.Nested.add_member Dict.insert init
watch_reapable_services-lookup_example =
    watch_reapable_services-lookup api nsapi "web-1" old [] syncer

sync_full-watchers_example :
    (has_member "team" "web" (sync_full api nsapi syncer []).0.watchers
      ≡ has_member "team" "web" syncer.service_names)
    × ((sync_full api nsapi syncer []).0.deregs ≡ [])
sync_full-watchers_example =
    sync_full-watchers api nsapi syncer [] "team" "web" refl
      (sync-NodupKeys (web ∷ []) (init true "cross" "k8s"))

-- An instance of the catalog that is to go.
abbrev leaving : Registration
leaving = record web { id = "web-2" }

abbrev reaping : ConsulSyncer
reaping = record syncer {
  deregs = ("web-2", record { node = "k8s-sync"; service_id = "web-2"; namespace = "team" }) ∷ [];
}

abbrev full : Catalog
full = ("k8s-sync", "team", "web-2", some leaving) ∷ []

leaving_there : view full "k8s-sync" "team" "web-2" ≡ some leaving
unfolding string_dec
leaving_there = refl

-- It is gone after a full sync.
view-sync_full_example : view (sync_full api nsapi reaping full).1 "k8s-sync" "team" "web-2" ≡ none
unfolding sync lookup string_dec consul_k8s.Base.Nested.insert2 Dict.insert
view-sync_full_example =
    view-sync_full api nsapi view api-IsCatalog reaping full "k8s-sync" "team" "web-2" refl
      (sync-AreTracked (web ∷ []) (init true "cross" "k8s"))
