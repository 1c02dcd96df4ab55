-- ===== src/ConnectInject/Endpoints/Reconcile/Laws.antt =====
-- What the Controller of control-plane/connect-inject/controllers/endpoints relies on of Consul and
-- Kubernetes, and what a registration does under it.
use mathlib.Core.List.{Memᴰ}
use consul_k8s.Base.{◌≡◌, String, Bool, true, false, ◌&&◌, ◌||◌, Option, none, some, List}
use consul_k8s.Base.{arith, ◌==◌, if◌then◌else◌, ok, contains, All}
use consul_k8s.Namespaces.{Namespace, generated, ensure_exists}
use consul_k8s.ConnectInject.Outcome.{done}
use consul_k8s.ConnectInject.Deregister.{ServiceInstance, Deregistration}
use consul_k8s.ConnectInject.Deregister.Query.{Filter, meets, text_of, marks_of}
use consul_k8s.ConnectInject.Deregister.Instances.{IsCatalog}
use consul_k8s.ConnectInject.Endpoints.{AgentService, Registration, Clients, Calls, Controller}
use consul_k8s.ConnectInject.Endpoints.Reconcile.{
  Visit, register, register_both, register_in_namespace,
}

-- A service as the catalog lists it.
abbrev pub instance_of : AgentService → ServiceInstance
instance_of svc = record {
  id = svc.id;
  service = svc.service;
  namespace = svc.namespace;
  address = svc.address;
  meta = svc.meta;
}

-- The instance carries the marks of this Kubernetes service and of the controller.
abbrev pub is_for : String → String → ServiceInstance → Bool
is_for name namespace = meets (marks_of name namespace)

-- There is an instance, and it passes the test.
abbrev pub holds : (ServiceInstance → Bool) → Option ServiceInstance → Bool
holds test none = false
holds test (some svc) = test svc

-- The node has the instance, at one of these addresses.
abbrev pub is_at :
    {S : Type 0}
    → (S → String → String → Option ServiceInstance)
    → List String
    → S
    → String
    → String
    → Bool
is_at view addresses w i j = holds (λ svc. contains addresses svc.address) (view w i j)

-- `view` tells which instances the node k8s-service-mesh has, by namespace and identifier. A
-- registration that succeeds puts one on the node it names and a deregistration takes one from the node
-- it names; tokens and namespaces are none of them. Neither a registration nor a new namespace changes
-- a pod of Kubernetes. The list of the services of the node under the text of a filter, in all
-- namespaces, has instances of the node only, and has each that meets the filter.
pub record IsConsul {S : Type 0} (api : Clients S) (calls : Calls) (c : Controller)
    (view : S → String → String → Option ServiceInstance) : Type 0 where
  pub view-register :
      (w : S) (r : Registration) (i j : String)
      → (api.register w r).1 ≡ none
      → view (api.register w r).0 i j ≡ (
          if r.node == "k8s-service-mesh" && i == r.service.namespace && j == r.service.id
          then some (instance_of r.service)
          else view w i j)
  pub view-deregister :
      (w : S) (d : Deregistration) (i j : String)
      → (api.consul.deregister w d).1 ≡ none
      → view (api.consul.deregister w d).0 i j ≡ (
          if d.node == "k8s-service-mesh" && i == d.namespace && j == d.service_id
          then none
          else view w i j)
  pub view-token_delete :
      (w : S) (i j accessor ns : String)
      → view (api.consul.token_delete w accessor ns).0 i j ≡ view w i j
  pub view-create :
      (w : S) (n : Namespace) (i j : String) → view (api.namespaces.create w n).0 i j ≡ view w i j
  pub get_pod-register :
      (w : S) (r : Registration) (name ns : String)
      → api.kube.get_pod (api.register w r).0 name ns ≡ api.kube.get_pod w name ns
  pub get_pod-create :
      (w : S) (n : Namespace) (name ns : String)
      → api.kube.get_pod (api.namespaces.create w n).0 name ns ≡ api.kube.get_pod w name ns
  pub view-listed :
      (w : S) (f : Filter) (svcs : List ServiceInstance)
      → api.consul.node_service_list w "k8s-service-mesh"
          (text_of calls.texts f)
          (if c.enable_consul_namespaces then "*" else "")
        ≡ ok svcs
      → All (λ svc. view w (ServiceInstance.namespace svc) (ServiceInstance.id svc) ≡ some svc) svcs
  pub listed-view :
      (w : S) (f : Filter) (i j : String) (svcs : List ServiceInstance) (svc : ServiceInstance)
      → api.consul.node_service_list w "k8s-service-mesh"
          (text_of calls.texts f)
          (if c.enable_consul_namespaces then "*" else "")
        ≡ ok svcs
      → view w i j ≡ some svc
      → meets f svc ≡ true
      → Memᴰ svc svcs × (svc.namespace ≡ i) × (svc.id ≡ j)

module _ {S : Type 0} (api : Clients S) (calls : Calls) (c : Controller)
    (view : S → String → String → Option ServiceInstance) (l : IsConsul api calls c view) where
  pub holds-IsCatalog :
      (test : ServiceInstance → Bool) → IsCatalog api.consul (λ w i j. holds test (view w i j))
  holds-IsCatalog test = record {
    view-deregister = λ w d i j e. ground (arith, l.view-deregister w d i j e);
    view-token_delete = λ w i j accessor ns. ground (arith, l.view-token_delete w i j accessor ns);
  }

  module _ (order : List Visit → List Visit) (addresses : List String) where
    register-is_at :
        (r : Registration) (w : S) (i j : String)
        → (r.node == "k8s-service-mesh") ≡ true
        → contains addresses r.service.address ≡ true
        → (register api calls c order r w).1 ≡ done tt
        → is_at view addresses (register api calls c order r w).0 i j
          ≡ ((i == r.service.namespace && j == r.service.id) || is_at view addresses w i j)
    unfolding register
    register-is_at r w i j on has h = ground (arith, on, has, h, l.view-register w r i j)

    -- Two registrations that succeed put both instances there.
    pub register_both-is_at :
        (svc proxy : Registration) (w : S) (i j : String)
        → (svc.node == "k8s-service-mesh") ≡ true
        → (proxy.node == "k8s-service-mesh") ≡ true
        → contains addresses svc.service.address ≡ true
        → contains addresses proxy.service.address ≡ true
        → (register_both api calls c order svc proxy w).1 ≡ done tt
        → is_at view addresses (register_both api calls c order svc proxy w).0 i j ≡ (
            (i == svc.service.namespace && j == svc.service.id)
            || (i == proxy.service.namespace && j == proxy.service.id)
            || is_at view addresses w i j)
    unfolding register_both
    register_both-is_at svc proxy w i j on on' has has' h =
        let w' = (register api calls c order svc w).0 in
        ground (arith, h, register-is_at svc w i j on has, register-is_at proxy w' i j on' has')

    is_at-ensure_exists :
        (ns policy : String) (w : S) (i j : String)
        → is_at view addresses (ensure_exists api.namespaces ns policy w).0 i j
          ≡ is_at view addresses w i j
    unfolding ensure_exists
    is_at-ensure_exists ns policy w i j = ground (arith, l.view-create w (generated ns policy) i j)

    -- The namespace that comes first is no instance.
    pub register_in_namespace-is_at :
        (r : Registration) (w : S) (i j : String)
        → (r.node == "k8s-service-mesh") ≡ true
        → contains addresses r.service.address ≡ true
        → (register_in_namespace api calls c order r w).1 ≡ done tt
        → is_at view addresses (register_in_namespace api calls c order r w).0 i j
          ≡ ((i == r.service.namespace && j == r.service.id) || is_at view addresses w i j)
    unfolding register_in_namespace
    register_in_namespace-is_at r w i j on has h =
        let w' = (ensure_exists api.namespaces r.service.namespace c.cross_ns_acl_policy w).0 in
        ground (
          arith,
          h,
          is_at-ensure_exists r.service.namespace c.cross_ns_acl_policy w i j,
          register-is_at r w i j on has,
          register-is_at r w' i j on has,
        )

  -- No step of a registration changes a pod.
  module _ (order : List Visit → List Visit) (name ns : String) where
    get_pod-register :
        (r : Registration) (w : S)
        → api.kube.get_pod (register api calls c order r w).0 name ns ≡ api.kube.get_pod w name ns
    unfolding register
    get_pod-register r w = ground (arith, l.get_pod-register w r name ns)

    pub get_pod-register_both :
        (svc proxy : Registration) (w : S)
        → api.kube.get_pod (register_both api calls c order svc proxy w).0 name ns
          ≡ api.kube.get_pod w name ns
    unfolding register_both
    get_pod-register_both svc proxy w =
        ground (
          arith,
          get_pod-register svc w,
          get_pod-register proxy (register api calls c order svc w).0,
        )

    get_pod-ensure_exists :
        (ns' policy : String) (w : S)
        → api.kube.get_pod (ensure_exists api.namespaces ns' policy w).0 name ns
          ≡ api.kube.get_pod w name ns
    unfolding ensure_exists
    get_pod-ensure_exists ns' policy w =
        ground (arith, l.get_pod-create w (generated ns' policy) name ns)

    pub get_pod-register_in_namespace :
        (r : Registration) (w : S)
        → api.kube.get_pod (register_in_namespace api calls c order r w).0 name ns
          ≡ api.kube.get_pod w name ns
    unfolding register_in_namespace
    get_pod-register_in_namespace r w =
        let w' = (ensure_exists api.namespaces r.service.namespace c.cross_ns_acl_policy w).0 in
        ground (
          arith,
          get_pod-ensure_exists r.service.namespace c.cross_ns_acl_policy w,
          get_pod-register r w,
          get_pod-register r w',
        )
