-- ===== src/Peering/Acceptor/Tokens.antt =====
-- The token that `Reconcile` of an acceptor stores in Kubernetes
-- (control-plane/connect-inject/controllers/peering/peering_acceptor_controller.go).
use consul_k8s.Base.{
  ◌≡◌, ◌≢◌, ◌⊎◌, inl, inr, refl, sym, ap, ◌∙◌, String, Bool, true, false, Option, none, some, arith,
}
use consul_k8s.Base.{[], ◌∷◌, ok, Result-cases, Option-cases}
use consul_k8s.Peering.{
  Setting, World, Resource, KubeSecret, SecretRefStatus, found, finalizer_name, get_secret,
  write_status,
}
use consul_k8s.Peering.Acceptor.{
  should_generate_token, create_secret, update_status, create_or_update_k8s_secret,
  delete_k8s_secret, store_token, delete_stale, generate_first, create_peering, finish_renewal,
  renew_token, reconcile_secret, reconcile_present, reconcile,
}
use consul_k8s.Peering.Acceptor.Plan.{generate, plan_secret, delete_stale-consul}

-- A secret that is written is there with its contents, a deletion leaves the other secrets alone,
-- and so does the update of a status.
pub record IsLawfulSecrets (E : Setting) : Type 0 where
  pub get-create :
      (k : E.Kube) (s : KubeSecret)
      → (E.secrets.create k s).1 ≡ none
      → (s' : KubeSecret) × (E.secrets.get (E.secrets.create k s).0 s.name s.namespace ≡ found s')
        × (s'.«data» ≡ s.«data»)
  pub get-update :
      (k : E.Kube) (s : KubeSecret)
      → (E.secrets.update k s).1 ≡ none
      → (s' : KubeSecret) × (E.secrets.get (E.secrets.update k s).0 s.name s.namespace ≡ found s')
        × (s'.«data» ≡ s.«data»)
  pub get-delete :
      (k : E.Kube) (s : KubeSecret) (name namespace : String)
      → name ≢ s.name
      → E.secrets.get (E.secrets.delete k s).0 name namespace ≡ E.secrets.get k name namespace
  pub named :
      (k : E.Kube) (name namespace : String) (s : KubeSecret)
      → E.secrets.get k name namespace ≡ found s
      → s.name ≡ name
  pub secret-update_status :
      (k : E.Kube) (o : Resource) (name namespace : String)
      → E.secrets.get (E.resources.update_status k o).0 name namespace
        ≡ E.secrets.get k name namespace

-- A new name is one that the status does not have.
should_generate_token-name :
    (quote : String → String) (o : Resource) (existing : Option KubeSecret) (r : SecretRefStatus)
    (due : Bool)
    → should_generate_token quote o existing ≡ ok (due, true)
    → o.secret_ref ≡ some r
    → o.secret.name ≢ r.secret.name
unfolding should_generate_token
should_generate_token-name quote o existing r due e there = ground (arith, e, there)

module _ (E : Setting) (L : IsLawfulSecrets E) where
  -- The secret of the spec has the token under the key of the spec.
  abbrev pub HasToken : Resource → String → E.Kube → Type 0
  HasToken o token k =
      (s : KubeSecret) × (E.secrets.get k o.secret.name o.namespace ≡ found s)
      × (s.«data» ≡ (o.secret.key, token) ∷ [])

  store_token-HasToken :
      (o : Resource) (token : String) (w : World E)
      → o.secret.backend ≡ "kubernetes"
      → (store_token E o token w).1 ≡ none
      → HasToken o token (store_token E o token w).0.kube
  unfolding store_token create_or_update_k8s_secret
  store_token-HasToken o token w backend done =
      let s = create_secret o.secret.name o.namespace o.secret.key token in
      elim (Result-cases (get_secret E o.secret.name o.namespace w)) [
        | inr (t, e) ↦ ground (arith, backend, done, e)
        | inl (none, e) ↦
            let at : store_token E o token w ≡ (
              record w { kube = (E.secrets.create w.kube s).0 },
              (E.secrets.create w.kube s).1,
            ) =
              ground (arith, backend, e) in
            rw at (L.get-create w.kube s (sym (ap (λ r. r.1) at) ∙ done))
        | inl (some _, e) ↦
            let at : store_token E o token w ≡ (
              record w { kube = (E.secrets.update w.kube s).0 },
              (E.secrets.update w.kube s).1,
            ) =
              ground (arith, backend, e) in
            rw at (L.get-update w.kube s (sym (ap (λ r. r.1) at) ∙ done))
      ]

  update_status-secret :
      (name namespace n ns : String) (w : World E)
      → E.secrets.get (update_status E name namespace w).0.kube n ns ≡ E.secrets.get w.kube n ns
  unfolding update_status write_status
  update_status-secret name namespace n ns w = grind (arith, L.secret-update_status)

  delete_k8s_secret-secret :
      (name namespace n ns : String) (w : World E)
      → n ≢ name
      → E.secrets.get (delete_k8s_secret E name namespace w).0.kube n ns ≡ E.secrets.get w.kube n ns
  unfolding delete_k8s_secret get_secret
  delete_k8s_secret-secret name namespace n ns w other = grind (arith, L.get-delete, L.named)

  update_status-HasToken :
      (name namespace token : String) (o : Resource) (w : World E)
      → HasToken o token w.kube
      → HasToken o token (update_status E name namespace w).0.kube
  unfolding update_status write_status
  update_status-HasToken name namespace token o w (s, there, same) =
      (s, update_status-secret name namespace o.secret.name o.namespace w ∙ there, same)

  delete_stale-HasToken :
      (token : String) (o : Resource) (w : World E)
      → ((r : SecretRefStatus) → o.secret_ref ≡ some r → o.secret.name ≢ r.secret.name)
      → HasToken o token w.kube
      → HasToken o token (delete_stale E o w).0.kube
  unfolding delete_stale
  delete_stale-HasToken token o w other (s, there, same) = elim (Option-cases o.secret_ref) [
    | inl e ↦ rw (e, delete_stale) (s, there, same)
    | inr (r, e) ↦
        rw (e, delete_stale)
          (
            s,
            delete_k8s_secret-secret r.secret.name o.namespace o.secret.name o.namespace w
                  (other r e)
                ∙ there,
            same,
          )
  ]

  finish_renewal-HasToken :
      (name namespace token : String) (name_changed : Bool) (o : Resource) (w : World E)
      → (name_changed ≡ true
          → (r : SecretRefStatus) → o.secret_ref ≡ some r
          → o.secret.name ≢ r.secret.name)
      → (finish_renewal E name namespace name_changed o w).1 ≡ none
      → HasToken o token w.kube
      → HasToken o token (finish_renewal E name namespace name_changed o w).0.kube
  unfolding finish_renewal
  finish_renewal-HasToken name namespace token false o w other done h =
      update_status-HasToken name namespace token o w h
  finish_renewal-HasToken name namespace token true o w other done h =
      elim (Option-cases (delete_stale E o w).1) [
        | inr (t, e) ↦ ground (arith, done, e)
        | inl e ↦
            rw (e, finish_renewal)
              (update_status-HasToken name namespace token o (delete_stale E o w).0
                (delete_stale-HasToken token o w (other refl) h))
      ]

  renew_token-HasToken :
      (name namespace token : String) (name_changed : Bool) (o : Resource) (w : World E)
      → o.secret.backend ≡ "kubernetes"
      → (name_changed ≡ true
          → (r : SecretRefStatus) → o.secret_ref ≡ some r
          → o.secret.name ≢ r.secret.name)
      → (E.peerings.generate_token w.consul o.name).1 ≡ ok token
      → (renew_token E name namespace name_changed o w).1 ≡ none
      → HasToken o token (renew_token E name namespace name_changed o w).0.kube
  unfolding renew_token
  renew_token-HasToken name namespace token name_changed o w backend other made done =
      let w1 : World E = record w { consul = (E.peerings.generate_token w.consul o.name).0 } in
      elim (Option-cases (store_token E o token w1).1) [
        | inr (t, e) ↦ ground (arith, made, done, e)
        | inl e ↦
            let at : renew_token E name namespace name_changed o w
                ≡ finish_renewal E name namespace name_changed o (store_token E o token w1).0 =
              rw (made, renew_token) (rw (e)) in
            rw at (
              finish_renewal-HasToken name namespace token name_changed o
                (store_token E o token w1).0 other (sym (ap (λ r. r.1) at) ∙ done)
                (store_token-HasToken o token w1 backend e))
      ]

  generate_first-HasToken :
      (name namespace token : String) (o : Resource) (w : World E)
      → o.secret.backend ≡ "kubernetes"
      → (E.peerings.generate_token w.consul o.name).1 ≡ ok token
      → (generate_first E name namespace o w).1 ≡ none
      → HasToken o token (generate_first E name namespace o w).0.kube
  unfolding generate_first
  generate_first-HasToken name namespace token o w backend made done =
      let w1 : World E = record w { consul = (E.peerings.generate_token w.consul o.name).0 } in
      elim (Option-cases (store_token E o token w1).1) [
        | inr (t, e) ↦ ground (arith, made, done, e)
        | inl e ↦
            let at : generate_first E name namespace o w
                ≡ update_status E name namespace (store_token E o token w1).0 =
              rw (made, generate_first) (rw (e)) in
            rw at (
              update_status-HasToken name namespace token o (store_token E o token w1).0
                (store_token-HasToken o token w1 backend e))
      ]

  create_peering-HasToken :
      (name namespace token : String) (o : Resource) (w : World E)
      → o.secret.backend ≡ "kubernetes"
      → (E.peerings.generate_token w.consul o.name).1 ≡ ok token
      → (create_peering E name namespace o w).1 ≡ none
      → HasToken o token (create_peering E name namespace o w).0.kube
  unfolding create_peering
  create_peering-HasToken name namespace token o w backend made done =
      elim (Option-cases (delete_stale E o w).1) [
        | inr (t, e) ↦ ground (arith, done, e)
        | inl e ↦
            let w1 = (delete_stale E o w).0 in
            let at : create_peering E name namespace o w ≡ generate_first E name namespace o w1 =
              rw (e, create_peering) in
            rw at (
              generate_first-HasToken name namespace token o w1 backend
                (rw (delete_stale-consul E o w) made) (sym (ap (λ r. r.1) at) ∙ done))
      ]

  reconcile_secret-cases :
      (name namespace : String) (o : Resource) (w : World E)
      → plan_secret E o w ≡ generate
      → (reconcile_secret E name namespace o w ≡ create_peering E name namespace o w)
        ⊎ ((name_changed : Bool) × (existing : Option KubeSecret) × (should_generate_token E.quote o
                existing
              ≡ ok (true, name_changed))
            × (reconcile_secret E name namespace o w
                ≡ renew_token E name namespace name_changed o w))
  unfolding reconcile_secret
  reconcile_secret-cases name namespace o w due =
      elim (Result-cases (get_secret E o.secret.name o.namespace w)) [
        | inr (t, e) ↦ ground (arith, due, e)
        | inl (existing, e) ↦ elim (Result-cases (E.peerings.read w.consul o.name)) [
          | inr (t, r) ↦ ground (arith, due, e, r)
          | inl (false, r) ↦ inl (ground (arith, e, r))
          | inl (true, r) ↦ elim (Result-cases (should_generate_token E.quote o existing)) [
            | inr (t, g) ↦ ground (arith, due, e, r, g)
            | inl ((false, name_changed), g) ↦ ground (arith, due, e, r, g)
            | inl ((true, name_changed), g) ↦
                inr (name_changed, existing, g, ground (arith, e, r, g))
          ]
        ]
      ]

  -- After a reconcile without an error of an acceptor that is not being deleted, has the finalizer
  -- and is due for a token, with the backend in Kubernetes, the secret of its spec has the token
  -- that Consul generated, under the key of the spec.
  pub reconcile_stores :
      (name namespace token : String) (o : Resource) (w : World E)
      → E.resources.get w.kube name namespace ≡ found o
      → o.deleting ≡ false
      → E.contains_finalizer o.finalizers finalizer_name ≡ true
      → o.secret.backend ≡ "kubernetes"
      → plan_secret E o w ≡ generate
      → (E.peerings.generate_token w.consul o.name).1 ≡ ok token
      → (reconcile E name namespace w).1 ≡ none
      → HasToken o token (reconcile E name namespace w).0.kube
  unfolding reconcile reconcile_present
  reconcile_stores name namespace token o w there live kept backend due made done =
      let at : reconcile E name namespace w ≡ reconcile_secret E name namespace o w =
        ground (arith, there, live, kept, done) in
      elim (reconcile_secret-cases name namespace o w due) [
        | inl called ↦ rw (at ∙ called) (
            create_peering-HasToken name namespace token o w backend made
              (sym (ap (λ r. r.1) (at ∙ called)) ∙ done))
        | inr (name_changed, existing, g, called) ↦ rw (at ∙ called) (
            renew_token-HasToken name namespace token name_changed o w backend
              (λ c r.
                should_generate_token-name E.quote o existing r true (g ∙ ap (λ b. ok (true, b)) c))
              made (sym (ap (λ r. r.1) (at ∙ called)) ∙ done))
      ]
