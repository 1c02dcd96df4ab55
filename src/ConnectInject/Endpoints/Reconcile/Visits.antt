-- ===== src/ConnectInject/Endpoints/Reconcile/Visits.antt =====
-- What the loop over the addresses leaves in Consul
-- (control-plane/connect-inject/controllers/endpoints/endpoints_controller.go).
use consul_k8s.Base.{
  ◌≡◌, refl, sym, ap, ◌∙◌, String, Bool, true, false, ◌&&◌, ◌||◌, Option, none, some, List, [], ◌∷◌,
}
use consul_k8s.Base.{
  arith, ◌==◌, if◌then◌else◌, inl, inr, Bool-cases, Option-cases, ok, err, Result-cases, contains,
}
use consul_k8s.ConnectInject.{Pod}
use consul_k8s.ConnectInject.Pods.{has_been_injected, is_gateway}
use consul_k8s.ConnectInject.Deregister.{ServiceInstance}
use consul_k8s.ConnectInject.Endpoints.{Endpoints, Clients, Calls, Controller}
use consul_k8s.ConnectInject.Endpoints.Reconcile.{
  Visit, is_of, Progress, register_pod, register_address, register_each,
}
use consul_k8s.ConnectInject.Endpoints.Reconcile.Laws.{IsConsul, is_at}
use consul_k8s.ConnectInject.Endpoints.Reconcile.Pods.{
  is_expected, or_swap, append-ne-nil, followed-some, register_pod-is_at, register_pod-addresses,
}
use consul_k8s.ConnectInject.Endpoints.Reconcile.Frame.{get_pod-register_pod}

module _ {S : Type 0} (api : Clients S) (c : Controller) (ep : Endpoints) where
  -- The pod of an address, if it can be read and names no other service.
  abbrev pub pod_of : S → Visit → Option Pod
  pod_of w (address, status) = elim address.target_ref [
    | none ↦ none
    | some ref ↦
        if ref.kind == "Pod"
        then elim (api.kube.get_pod w ref.name ref.namespace) [
          | err e ↦ none
          | ok pod ↦ if is_of ep pod then some pod else none
        ]
        else none
  ]

  -- The pod of the address is of the mesh or a gateway, and this is its own address.
  abbrev pub is_address : Option Pod → String → Bool
  is_address none a = false
  is_address (some pod) a = (has_been_injected pod || is_gateway pod) && a == pod.pod_ip

  abbrev pub is_wanted : Option Pod → String → String → Bool
  is_wanted none i j = false
  is_wanted (some pod) i j = is_expected c ep pod i j

  -- Some address that is visited has such a pod.
  abbrev pub has_address : S → List Visit → String → Bool
  has_address w [] a = false
  has_address w (v ∷ more) a = is_address (pod_of w v) a || has_address w more a

  abbrev pub wants : S → List Visit → String → String → Bool
  wants w [] i j = false
  wants w (v ∷ more) i j = is_wanted (pod_of w v) i j || wants w more i j

module _ {S : Type 0} (api : Clients S) (calls : Calls) (c : Controller)
    (view : S → String → String → Option ServiceInstance) (l : IsConsul api calls c view)
    (order : List Visit → List Visit) (ep : Endpoints) where
  register_address-pod :
      (v : Visit) (p : Progress) (w : S) (pod : Pod)
      → pod_of api c ep w v ≡ some pod
      → register_address api calls c order ep v p w ≡ register_pod api calls c order pod ep v.1 p w
  unfolding register_address
  register_address-pod (address, status) p w pod e = ground (arith, e)

  register_address-none :
      (v : Visit) (p p' : Progress) (w : S)
      → pod_of api c ep w v ≡ none
      → (register_address api calls c order ep v p w).1 ≡ some p'
      → ((register_address api calls c order ep v p w).0 ≡ w)
        × (p'.addresses ≡ p.addresses)
        × (p'.errors ≡ [] → p.errors ≡ [])
  unfolding register_address
  register_address-none (address, status) p p' w e h = elim (Option-cases address.target_ref) [
    | inl no_ref ↦ ground (arith, e, h, no_ref)
    | inr (ref, has_ref) ↦ elim (Result-cases (api.kube.get_pod w ref.name ref.namespace)) [
      | inl (pod, read) ↦ ground (arith, e, h, has_ref, read)
      | inr (failed, unread) ↦ ground (arith, e, h, has_ref, unread, append-ne-nil p.errors failed)
    ]
  ]

  register_address-same :
      (v : Visit) (p : Progress) (w : S)
      → pod_of api c ep w v ≡ none
      → (register_address api calls c order ep v p w).0 ≡ w
  unfolding register_address
  register_address-same (address, status) p w e = ground (arith, e)

  register_pod-plain :
      (pod : Pod) (status : String) (p : Progress) (w : S)
      → (has_been_injected pod || is_gateway pod) ≡ false
      → register_pod api calls c order pod ep status p w ≡ (w, some p)
  unfolding register_pod
  register_pod-plain pod status p w plain = ground (arith, plain)

  -- One round.
  register_address-is_at :
      (addresses : List String) (v : Visit) (i j : String) (p p' : Progress) (w : S)
      → ((a : String)
          → is_address api c ep (pod_of api c ep w v) a ≡ true
          → contains addresses a ≡ true)
      → (register_address api calls c order ep v p w).1 ≡ some p'
      → p'.errors ≡ []
      → (p.errors ≡ [])
        × (is_at view addresses (register_address api calls c order ep v p w).0 i j
            ≡ (is_wanted api c ep (pod_of api c ep w v) i j || is_at view addresses w i j))
  register_address-is_at addresses v i j p p' w has h clean =
      elim (Option-cases (pod_of api c ep w v)) [
        | inl none_there ↦ ground (
          arith,
          none_there,
          clean,
          register_address-same v p w none_there,
          register_address-none v p p' w none_there h,
        )
        | inr (pod, there) ↦
            (let same = register_address-pod v p w pod there in
              let ran = ap (λ r. r.1) (sym same) ∙ h in
              elim (Bool-cases (has_been_injected pod || is_gateway pod)) [
                | inl kind ↦ ground (
                  arith,
                  there,
                  same,
                  register_pod-is_at api calls c view l order addresses pod
                      (has pod.pod_ip (rw (there, kind) (ground arith))) ep v.1 i j p p' w ran
                      clean,
                )
                | inr plain ↦
                    ground
                      (arith, there, plain, same, h, clean, register_pod-plain pod v.1 p w plain)
              ])
      ]

  register_address-addresses :
      (v : Visit) (a : String) (p p' : Progress) (w : S)
      → (register_address api calls c order ep v p w).1 ≡ some p'
      → contains p'.addresses a
        ≡ (is_address api c ep (pod_of api c ep w v) a || contains p.addresses a)
  register_address-addresses v a p p' w h = elim (Option-cases (pod_of api c ep w v)) [
    | inl none_there ↦ ground (arith, none_there, register_address-none v p p' w none_there h)
    | inr (pod, there) ↦ ground (
      arith,
      there,
      register_pod-addresses api calls c view l order pod ep v.1 a p p' w
          (ap (λ r. r.1) (sym (register_address-pod v p w pod there)) ∙ h),
    )
  ]

  get_pod-register_address :
      (v : Visit) (name ns : String) (p : Progress) (w : S)
      → api.kube.get_pod (register_address api calls c order ep v p w).0 name ns
        ≡ api.kube.get_pod w name ns
  get_pod-register_address v name ns p w = elim (Option-cases (pod_of api c ep w v)) [
    | inl none_there ↦
        ap (λ w'. api.kube.get_pod w' name ns) (register_address-same v p w none_there)
    | inr (pod, there) ↦
        ap (λ r. api.kube.get_pod r.0 name ns) (register_address-pod v p w pod there)
        ∙ get_pod-register_pod api calls c view l order name ns pod ep v.1 p w
  ]

  -- What an address stands for is the same after a registration.
  pod_of-register_address :
      (v v' : Visit) (p : Progress) (w : S)
      → pod_of api c ep (register_address api calls c order ep v p w).0 v' ≡ pod_of api c ep w v'
  pod_of-register_address v (address, status) p w = elim (Option-cases address.target_ref) [
    | inl no_ref ↦ rw no_ref refl
    | inr (ref, has_ref) ↦ rw (has_ref, get_pod-register_address v ref.name ref.namespace p w) refl
  ]

  has_address-register_address :
      (v : Visit) (more : List Visit) (a : String) (p : Progress) (w : S)
      → has_address api c ep (register_address api calls c order ep v p w).0 more a
        ≡ has_address api c ep w more a
  has_address-register_address v [] a p w = refl
  has_address-register_address v (v' ∷ more) a p w =
      rw (pod_of-register_address v v' p w, has_address-register_address v more a p w) refl

  wants-register_address :
      (v : Visit) (more : List Visit) (i j : String) (p : Progress) (w : S)
      → wants api c ep (register_address api calls c order ep v p w).0 more i j
        ≡ wants api c ep w more i j
  wants-register_address v [] i j p w = refl
  wants-register_address v (v' ∷ more) i j p w =
      rw (pod_of-register_address v v' p w, wants-register_address v more i j p w) refl

  -- The addresses after the loop are those of the pods, and those before.
  pub register_each-addresses :
      (vs : List Visit) (a : String) (p p' : Progress) (w : S)
      → (register_each api calls c order ep vs p w).1 ≡ some p'
      → contains p'.addresses a ≡ (has_address api c ep w vs a || contains p.addresses a)
  unfolding register_each
  register_each-addresses [] a p p' w h = ground (arith, h)
  register_each-addresses (v ∷ more) a p p' w h =
      let m = register_address api calls c order ep v p w in
      let (p₁, first, second, _) = followed-some m _ p' h in
      ground (
        arith,
        register_address-addresses v a p p₁ w first,
        register_each-addresses more a p₁ p' m.0 second,
        has_address-register_address v more a p w,
      )

  -- A loop without an error puts the instances of the pods there and keeps the others.
  pub register_each-is_at :
      (addresses : List String) (vs : List Visit) (i j : String) (p p' : Progress) (w : S)
      → ((a : String) → has_address api c ep w vs a ≡ true → contains addresses a ≡ true)
      → (register_each api calls c order ep vs p w).1 ≡ some p'
      → p'.errors ≡ []
      → (p.errors ≡ [])
        × (is_at view addresses (register_each api calls c order ep vs p w).0 i j
            ≡ (wants api c ep w vs i j || is_at view addresses w i j))
  unfolding register_each
  register_each-is_at addresses [] i j p p' w has h clean = ground (arith, h, clean)
  register_each-is_at addresses (v ∷ more) i j p p' w has h clean =
      let m = register_address api calls c order ep v p w in
      let (p₁, first, second, same) = followed-some m _ p' h in
      let (clean₁, later) =
        register_each-is_at addresses more i j p₁ p' m.0
          (λ a e. has a (ground (arith, sym (has_address-register_address v more a p w) ∙ e)))
          second clean in
      let (clean₀, now) =
        register_address-is_at addresses v i j p p₁ w (λ a e. has a (ground (arith, e))) first
          clean₁ in
      (
        clean₀,
        ap (λ w'. is_at view addresses w' i j) same
            ∙ later
            ∙ rw (wants-register_address v more i j p w) (or_swap _ _ _ _ now),
      )
