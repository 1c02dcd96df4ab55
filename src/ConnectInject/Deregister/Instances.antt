-- ===== src/ConnectInject/Deregister/Instances.antt =====
-- Which instances a deregistration removes
-- (control-plane/connect-inject/controllers/endpoints/endpoints_controller.go).
use consul_k8s.Base.{
  true, some, ◌≡◌, refl, sym, ap, ◌∙◌, String, Bool, false, not, ◌&&◌, ◌||◌, Option, none, List,
}
use consul_k8s.Base.{[], ◌∷◌, arith, ◌==◌, inl, inr, Bool-cases, ok, Result-cases, contains, get_or}
use consul_k8s.Base.Dict
use consul_k8s.ConnectInject.Deregister.Query.{listing, service_instances-listing, on_node}
use consul_k8s.ConnectInject.Deregister.{
  ServiceInstance, Deregistration, Token, ConsulApi, Texts, Settings, consul_node_name,
  meta_key_pod_name, is_selected, service_instances, delete_tokens,
  delete_acl_tokens_for_service_instance, deregister_instance, deregister_each, deregister_service,
}

-- What the code relies on of the catalog: `view` tells which services the node k8s-service-mesh has, by
-- namespace and identifier. A deregistration removes the service of its node that it names, and tokens
-- are no services.
pub record IsCatalog {S : Type 0} (api : ConsulApi S) (view : S → String → String → Bool)
    : Type 0 where
  pub view-deregister :
      (w : S) (d : Deregistration) (i j : String)
      → (api.deregister w d).1 ≡ none
      → view (api.deregister w d).0 i j ≡ (
          view w i j && not (d.node == "k8s-service-mesh" && i == d.namespace && j == d.service_id))
  pub view-token_delete :
      (w : S) (i j accessor ns : String) → view (api.token_delete w accessor ns).0 i j ≡ view w i j

-- All addresses go if none are given, else those that are not among them.
abbrev pub goes : Option (List String) → String → Bool
goes none address = true
goes (some addresses) address = not (contains addresses address)

is_selected-goes :
    (addresses : Option (List String)) (svc : ServiceInstance)
    → is_selected addresses svc ≡ goes addresses svc.address
is_selected-goes none svc = refl
is_selected-goes (some addresses) svc = refl

-- The list has an instance of this namespace and identifier whose address goes.
abbrev pub is_dropped : Option (List String) → String → String → List ServiceInstance → Bool
is_dropped addresses i j [] = false
is_dropped addresses i j (svc ∷ more) =
    (goes addresses svc.address && i == svc.namespace && j == svc.id)
    || is_dropped addresses i j more

module _ {S : Type 0} (api : ConsulApi S) (t : Texts) (c : Settings)
    (view : S → String → String → Bool) (l : IsCatalog api view) (i j : String) where
  view-delete_tokens :
      (svc : ServiceInstance) (k8s_ns pod_name : String) (tokens : List Token) (w : S)
      → view (delete_tokens api t c svc k8s_ns pod_name tokens w).0 i j ≡ view w i j
  unfolding delete_tokens
  view-delete_tokens svc k8s_ns pod_name [] w = refl
  view-delete_tokens svc k8s_ns pod_name (token ∷ more) w =
      let deleted = api.token_delete w token.accessor_id svc.namespace in
      ground (
        arith,
        view-delete_tokens svc k8s_ns pod_name more w,
        view-delete_tokens svc k8s_ns pod_name more deleted.0,
        l.view-token_delete w i j token.accessor_id svc.namespace,
      )

  view-delete_acl_tokens :
      (svc : ServiceInstance) (k8s_ns pod_name : String) (w : S)
      → view (delete_acl_tokens_for_service_instance api t c svc k8s_ns pod_name w).0 i j
        ≡ view w i j
  unfolding delete_acl_tokens_for_service_instance
  view-delete_acl_tokens svc k8s_ns pod_name w =
      elim (Result-cases (api.token_list w svc.namespace)) [
        | inl (tokens, e) ↦ ground (arith, e, view-delete_tokens svc k8s_ns pod_name tokens w)
        | inr (_, e) ↦ ground (arith, e)
      ]

  view-deregister_instance :
      (k8s_ns : String) (addresses : Option (List String)) (svc : ServiceInstance) (w : S)
      → (deregister_instance api t c k8s_ns addresses svc w).1 ≡ none
      → view (deregister_instance api t c k8s_ns addresses svc w).0 i j
        ≡ (view w i j && not (goes addresses svc.address && i == svc.namespace && j == svc.id))
  unfolding deregister_instance
  view-deregister_instance k8s_ns addresses svc w h =
      let pod_name = get_or (Dict.lookup meta_key_pod_name svc.meta) "" in
      let d : Deregistration = record {
        node = consul_node_name;
        service_id = svc.id;
        namespace = svc.namespace;
      } in
      elim (Bool-cases (is_selected addresses svc)) [
        | inr e ↦ ground (arith, e, is_selected-goes addresses svc)
        | inl e ↦ ground (
          arith,
          e,
          h,
          is_selected-goes addresses svc,
          on_node,
          l.view-deregister w d i j,
          view-delete_acl_tokens svc k8s_ns pod_name (api.deregister w d).0,
        )
      ]

  view-deregister_each :
      (k8s_ns : String) (addresses : Option (List String)) (svcs : List ServiceInstance) (w : S)
      → (deregister_each api t c k8s_ns addresses svcs w).1 ≡ none
      → view (deregister_each api t c k8s_ns addresses svcs w).0 i j
        ≡ (view w i j && not (is_dropped addresses i j svcs))
  unfolding deregister_each
  view-deregister_each k8s_ns addresses [] w h = ground arith
  view-deregister_each k8s_ns addresses (svc ∷ more) w h =
      let w' = (deregister_instance api t c k8s_ns addresses svc w).0 in
      ground (
        arith,
        h,
        view-deregister_instance k8s_ns addresses svc w,
        view-deregister_each k8s_ns addresses more w',
      )

-- Over a catalog that keeps services by node, a deregistration that returns no error has asked Consul for the instances of the node k8s-service-mesh
-- that carry the marks of the Kubernetes service and of the controller, in all namespaces, and has
-- removed from the node those of them whose address is not among the given ones, or all of them if no
-- addresses are given. Every other service of the node stays.
pub deregister_service-removes :
    {S : Type 0} (api : ConsulApi S) (t : Texts) (c : Settings) (view : S → String → String → Bool)
    → IsCatalog api view
    → (name namespace : String) (addresses : Option (List String)) (w : S)
    → (deregister_service api t c name namespace addresses w).1 ≡ none
    → (svcs : List ServiceInstance) × (listing api t c.enable_consul_namespaces w name namespace
        ≡ ok svcs)
      × ((i j : String)
          → view (deregister_service api t c name namespace addresses w).0 i j
            ≡ (view w i j && not (is_dropped addresses i j svcs)))
unfolding deregister_service
deregister_service-removes api t c view l name namespace addresses w h =
    elim (Result-cases (service_instances api t c w name namespace)) [
      | inr (e, failed) ↦ absurd (ground (arith, failed, h))
      | inl (svcs, listed) ↦
          (let opened : deregister_service api t c name namespace addresses w
                ≡ deregister_each api t c namespace addresses svcs w =
              rw (listed, deregister_service) refl in
            (
              svcs,
              sym (service_instances-listing api t c w name namespace) ∙ listed,
              λ i j.
                  ap (λ r. view r.0 i j) opened
                  ∙ view-deregister_each api t c view l i j namespace addresses svcs w
                      (ap (λ r. r.1) (sym opened) ∙ h),
            ))
    ]
