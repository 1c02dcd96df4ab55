-- ===== src/Catalog/ConsulSyncer/Watchers.antt =====
-- The watchers that `syncFull` keeps (control-plane/catalog/to-consul/syncer.go).
use consul_k8s.Base.{◌≡◌, refl, String, Bool, ◌&&◌, ◌||◌, none, arith}
use consul_k8s.Base.{List, [], ◌∷◌, ◌==◌, contains, string_dec, Bool-cases, inl, inr}
use consul_k8s.Base.Dict.{Dict, NodupKeys, lookup}
use consul_k8s.Base.Nested.{has_member, add_member, has_member-add_member}
use consul_k8s.Namespaces.{NamespaceApi}
use consul_k8s.Catalog.ConsulSyncer.{
  ConsulSyncer, CatalogApi, keep_members, cancel_watchers, start_in, start_watchers, sync_full,
}

contains-keep_members :
    (p : String → Bool) (x : String) (xs : List String)
    → contains (keep_members p xs) x ≡ (p x && contains xs x)
contains-keep_members p x [] = ground arith
contains-keep_members p x (y ∷ xs) = elim (string_dec x y) [
  | yes same ↦ rw same (ground (arith, contains-keep_members p y xs))
  | no other ↦ ground (arith, contains-keep_members p x xs)
]

has_member-cancel_watchers :
    (ns svc : String) (names ws : Dict (List String))
    → has_member ns svc (cancel_watchers names ws)
      ≡ (has_member ns svc names && has_member ns svc ws)
unfolding cancel_watchers lookup
has_member-cancel_watchers ns svc names [] = ground arith
has_member-cancel_watchers ns svc names ((ns', svcs) ∷ rest) = ground (
  arith,
  has_member-cancel_watchers ns svc names rest,
  contains-keep_members (λ x. has_member ns' x names) svc svcs,
)

has_member-start_in :
    (ns svc ns' : String) (svcs : List String) (ws : Dict (List String))
    → has_member ns svc (start_in ns' svcs ws)
      ≡ ((ns == ns' && contains svcs svc) || has_member ns svc ws)
unfolding start_in
has_member-start_in ns svc ns' [] ws = ground arith
has_member-start_in ns svc ns' (x ∷ xs) ws = elim (Bool-cases (has_member ns' x ws)) [
  | inl there ↦ rw there (ground (arith, has_member-start_in ns svc ns' xs ws))
  | inr missing ↦ rw missing (
      ground (
        arith,
        has_member-start_in ns svc ns' xs (add_member ns' x ws),
        has_member-add_member ns svc ns' x ws,
      ))
]

has_member-start_watchers :
    (ns svc : String) (names ws : Dict (List String))
    → NodupKeys names
    → has_member ns svc (start_watchers names ws)
      ≡ (has_member ns svc names || has_member ns svc ws)
unfolding start_watchers lookup
has_member-start_watchers ns svc [] ws u = ground arith
has_member-start_watchers ns svc ((ns', svcs) ∷ rest) ws (fresh, u) = ground (
  arith,
  has_member-start_watchers ns svc rest (start_in ns' svcs ws) u,
  has_member-start_in ns svc ns' svcs ws,
)

-- After `syncFull` with a client there is a watcher for exactly the services that are tracked, in
-- each namespace, whatever watchers there were before, and no deregistration is left.
pub sync_full-watchers :
    {S : Type 0} (api : CatalogApi S) (nsapi : NamespaceApi S) (s : ConsulSyncer) (w : S)
    (ns svc : String)
    → api.connect w ≡ none
    → NodupKeys s.service_names
    → (has_member ns svc (sync_full api nsapi s w).0.watchers ≡ has_member ns svc s.service_names)
      × ((sync_full api nsapi s w).0.deregs ≡ [])
unfolding sync_full
sync_full-watchers api nsapi s w ns svc up u =
    rw (up, sync_full)
      (
        ground (
          arith,
          has_member-start_watchers ns svc s.service_names
              (cancel_watchers s.service_names s.watchers) u,
          has_member-cancel_watchers ns svc s.service_names s.watchers,
        ),
        refl,
      )
