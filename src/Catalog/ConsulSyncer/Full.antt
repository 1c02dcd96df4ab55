-- ===== src/Catalog/ConsulSyncer/Full.antt =====
-- The Consul catalog after `syncFull` (control-plane/catalog/to-consul/syncer.go).
use consul_k8s.Base.{◌≡◌, refl, ◌∙◌, String, Bool, false, ◌&&◌, ◌||◌, Option, none, some, arith}
use consul_k8s.Base.{[], ◌∷◌, ◌==◌, if◌then◌else◌, ap}
use consul_k8s.Base.Dict.{Dict, lookup}
use consul_k8s.Base.Nested.{lookup2}
use consul_k8s.Namespaces.{Namespace, NamespaceApi, ensure_exists, generated}
use consul_k8s.Catalog.ConsulSyncer.{
  Registration, Deregistration, ConsulSyncer, CatalogApi, deregister_all, register_one, register_in,
  register_all, sync_full,
}
use consul_k8s.Catalog.ConsulSyncer.Tracking.{AreKeyed, AreTracked}

-- A catalog that is up: no call fails, and each does what it says to one instance of one node. Creating
-- a namespace leaves the instances alone. `view` takes a node, a namespace and an identifier.
pub record IsCatalog {S : Type 0} (api : CatalogApi S) (nsapi : NamespaceApi S)
    (view : S → String → String → String → Option Registration) : Type 0 where
  pub view-register :
      (w : S) (r : Registration) (n i j : String)
      → view (api.register w r).0 n i j
        ≡ (if n == r.node && i == r.namespace && j == r.id then some r else view w n i j)
  pub view-deregister :
      (w : S) (d : Deregistration) (n i j : String)
      → view (api.deregister w d).0 n i j
        ≡ (if n == d.node && i == d.namespace && j == d.service_id then none else view w n i j)
  pub view-create :
      (w : S) (ns : Namespace) (n i j : String) → view (nsapi.create w ns).0 n i j ≡ view w n i j
  pub ensure_exists_up : (w : S) (ns policy : String) → (ensure_exists nsapi ns policy w).2 ≡ none

-- A deregistration of the instance is scheduled.
abbrev pub is_scheduled : String → String → String → Dict Deregistration → Bool
is_scheduled n i j [] = false
is_scheduled n i j ((id, d) ∷ ds) =
    (n == d.node && i == d.namespace && j == d.service_id) || is_scheduled n i j ds

-- What a map of registrations says of an identifier, over what was there on the node.
abbrev pub over : String → Option Registration → Option Registration → Option Registration
over n none old = old
over n (some r) old = if n == r.node then some r else old

module _ {S : Type 0} (api : CatalogApi S) (nsapi : NamespaceApi S)
    (view : S → String → String → String → Option Registration) (C : IsCatalog api nsapi view) where
  view-deregister_all :
      (ds : Dict Deregistration) (w : S) (n i j : String)
      → view (deregister_all api nsapi ds w) n i j
        ≡ (if is_scheduled n i j ds then none else view w n i j)
  unfolding deregister_all
  view-deregister_all [] w n i j = refl
  view-deregister_all ((id, d) ∷ ds) w n i j =
      ground
        (arith, view-deregister_all ds (api.deregister w d).0 n i j, C.view-deregister w d n i j)

  view-ensure_exists :
      (ns policy : String) (w : S) (n i j : String)
      → view (ensure_exists nsapi ns policy w).0 n i j ≡ view w n i j
  unfolding ensure_exists
  view-ensure_exists ns policy w n i j = ground (arith, C.view-create w (generated ns policy) n i j)

  view-register_one :
      (s : ConsulSyncer) (r : Registration) (w : S) (n i j : String)
      → view (register_one api nsapi s r w) n i j
        ≡ (if n == r.node && i == r.namespace && j == r.id then some r else view w n i j)
  unfolding register_one
  view-register_one s r w n i j =
      let (w', created, answer) = ensure_exists nsapi r.namespace s.cross_namespace_acl_policy w in
      ground (
        arith,
        C.ensure_exists_up w r.namespace s.cross_namespace_acl_policy,
        C.view-register w' r n i j,
        C.view-register w r n i j,
        view-ensure_exists r.namespace s.cross_namespace_acl_policy w n i j,
      )

  view-register_in :
      (s : ConsulSyncer) (ns : String) (rs : Dict Registration) (w : S) (n i j : String)
      → AreKeyed ns rs
      → view (register_in api nsapi s rs w) n i j
        ≡ (if i == ns then over n (lookup j rs) (view w n i j) else view w n i j)
  unfolding register_in lookup
  view-register_in s ns [] w n i j h = ground arith
  view-register_in s ns ((id, r) ∷ rs) w n i j (same_ns, same_id, fresh, h) = ground (
    arith,
    view-register_in s ns rs (register_one api nsapi s r w) n i j h,
    view-register_one s r w n i j,
  )

  view-register_all :
      (s : ConsulSyncer) (m : Dict (Dict Registration)) (w : S) (n i j : String)
      → AreTracked m
      → view (register_all api nsapi s m w) n i j ≡ over n (lookup2 i j m) (view w n i j)
  unfolding register_all lookup
  view-register_all s [] w n i j h = refl
  view-register_all s ((ns, rs) ∷ rest) w n i j (keyed, fresh, h) = ground (
    arith,
    view-register_all s rest (register_in api nsapi s rs w) n i j h,
    view-register_in s ns rs w n i j keyed,
  )

  -- After a full sync with a client in which no call fails, the catalog has each tracked instance on its node as
  -- it is registered, has no other instance of a node that was scheduled for removal there, and is
  -- otherwise unchanged.
  pub view-sync_full :
      (s : ConsulSyncer) (w : S) (n i j : String)
      → api.connect w ≡ none
      → AreTracked s.namespaces
      → view (sync_full api nsapi s w).1 n i j
        ≡ over n
            (lookup2 i j s.namespaces)
            (if is_scheduled n i j s.deregs then none else view w n i j)
  unfolding sync_full
  view-sync_full s w n i j up h =
      rw (up, sync_full)
        (view-register_all s s.namespaces (deregister_all api nsapi s.deregs w) n i j h
          ∙ ap (over n (lookup2 i j s.namespaces)) (view-deregister_all s.deregs w n i j))
