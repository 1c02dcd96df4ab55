-- ===== src/Peering/Acceptor/Plan.antt =====
-- What `Reconcile` of an acceptor does to Consul
-- (control-plane/connect-inject/controllers/peering/peering_acceptor_controller.go): a table of
-- decisions, and the proof that the handler follows it.
use consul_k8s.Base.{◌≡◌, String, Bool, true, false, not, ◌&&◌, ◌||◌, Option, none, arith, inl, inr}
use consul_k8s.Base.{contains, if◌then◌else◌, is_some, ok, err, Result-cases, Option-cases}
use consul_k8s.Peering.{
  Setting, World, Resource, KubeSecret, found, finalizer_name, get_secret, write_status,
  update_status_error,
}
use consul_k8s.Peering.Acceptor.{
  should_generate_token, update_status, create_or_update_k8s_secret, delete_k8s_secret, store_token,
  delete_stale, generate_first, create_peering, finish_renewal, renew_token, reconcile_secret,
  release, reconcile_deleted, reconcile_present, reconcile,
}

pub data Action : Type 0 where
  leave generate remove : Action

module _ (E : Setting) where
  -- Consul has no peering and no stale secret is in the way, or the token that was stored is not
  -- the one that the resource asks for.
  abbrev pub is_due : Option KubeSecret → Resource → World E → Bool
  is_due existing o w = elim (E.peerings.read w.consul o.name) [
    | err e ↦ false
    | ok exists ↦
        if exists
        then elim (should_generate_token E.quote o existing) [ err e ↦ false | ok (due, _) ↦ due ]
        else not (is_some (delete_stale E o w).1)
  ]

  abbrev pub plan_secret : Resource → World E → Action
  plan_secret o w = elim (get_secret E o.secret.name o.namespace w) [
    | err e ↦ leave
    | ok existing ↦ if is_due existing o w then generate else leave
  ]

  abbrev pub plan : Resource → World E → Action
  plan o w = if o.deleting && contains o.finalizers finalizer_name then remove else plan_secret o w

  abbrev pub perform : Action → Resource → E.Consul → E.Consul
  perform leave o c = c
  perform generate o c = (E.peerings.generate_token c o.name).0
  perform remove o c = (E.peerings.delete c o.name).0

  pub update_status-consul :
      (name namespace : String) (w : World E)
      → (update_status E name namespace w).0.consul ≡ w.consul
  unfolding update_status write_status
  update_status-consul name namespace w = ground arith

  delete_k8s_secret-consul :
      (name namespace : String) (w : World E)
      → (delete_k8s_secret E name namespace w).0.consul ≡ w.consul
  unfolding delete_k8s_secret
  delete_k8s_secret-consul name namespace w = ground arith

  pub delete_stale-consul : (o : Resource) (w : World E) → (delete_stale E o w).0.consul ≡ w.consul
  unfolding delete_stale
  delete_stale-consul o w = elim (Option-cases o.secret_ref) [
    | inl e ↦ rw (e, delete_stale)
    | inr (r, e) ↦ rw (e, delete_stale) (delete_k8s_secret-consul r.secret.name o.namespace w)
  ]

  store_token-consul :
      (o : Resource) (token : String) (w : World E) → (store_token E o token w).0.consul ≡ w.consul
  unfolding store_token create_or_update_k8s_secret
  store_token-consul o token w = ground arith

  generate_first-consul :
      (name namespace : String) (o : Resource) (w : World E)
      → (generate_first E name namespace o w).0.consul
        ≡ (E.peerings.generate_token w.consul o.name).0
  unfolding generate_first update_status_error
  generate_first-consul name namespace o w =
      let w1 : World E = record w { consul = (E.peerings.generate_token w.consul o.name).0 } in
      elim (Result-cases (E.peerings.generate_token w.consul o.name).1) [
        | inl (token, e) ↦
            rw (e, generate_first)
              (ground (
                arith,
                store_token-consul o token w1,
                update_status-consul name namespace (store_token E o token w1).0,
              ))
        | inr (t, e) ↦ rw (e, generate_first)
      ]

  finish_renewal-consul :
      (name namespace : String) (name_changed : Bool) (o : Resource) (w : World E)
      → (finish_renewal E name namespace name_changed o w).0.consul ≡ w.consul
  unfolding finish_renewal update_status_error
  finish_renewal-consul name namespace name_changed o w = ground (
    arith,
    delete_stale-consul o w,
    update_status-consul name namespace (delete_stale E o w).0,
    update_status-consul name namespace w,
  )

  renew_token-consul :
      (name namespace : String) (name_changed : Bool) (o : Resource) (w : World E)
      → (renew_token E name namespace name_changed o w).0.consul
        ≡ (E.peerings.generate_token w.consul o.name).0
  unfolding renew_token
  renew_token-consul name namespace name_changed o w =
      let w1 : World E = record w { consul = (E.peerings.generate_token w.consul o.name).0 } in
      elim (Result-cases (E.peerings.generate_token w.consul o.name).1) [
        | inl (token, e) ↦
            rw (e, renew_token)
              (ground (
                arith,
                store_token-consul o token w1,
                finish_renewal-consul name namespace name_changed o (store_token E o token w1).0,
              ))
        | inr (t, e) ↦ rw (e, renew_token)
      ]

  create_peering-consul :
      (name namespace : String) (o : Resource) (w : World E)
      → (create_peering E name namespace o w).0.consul ≡ (
          if is_some (delete_stale E o w).1
          then w.consul
          else (E.peerings.generate_token w.consul o.name).0)
  unfolding create_peering update_status_error
  create_peering-consul name namespace o w = ground (
    arith,
    delete_stale-consul o w,
    generate_first-consul name namespace o (delete_stale E o w).0,
  )

  reconcile_secret-consul :
      (name namespace : String) (o : Resource) (w : World E)
      → (reconcile_secret E name namespace o w).0.consul ≡ perform (plan_secret o w) o w.consul
  unfolding reconcile_secret update_status_error
  reconcile_secret-consul name namespace o w =
      elim (Result-cases (get_secret E o.secret.name o.namespace w)) [
        | inr (t, e) ↦ rw (e, reconcile_secret) (ground arith)
        | inl (existing, e) ↦ elim (Result-cases (should_generate_token E.quote o existing)) [
          | inr (t, e') ↦ ground (arith, e, e', create_peering-consul name namespace o w)
          | inl ((due, name_changed), e') ↦ ground (
            arith,
            e,
            e',
            create_peering-consul name namespace o w,
            renew_token-consul name namespace name_changed o w,
          )
        ]
      ]

  reconcile_deleted-consul :
      (name : String) (o : Resource) (w : World E)
      → (reconcile_deleted E name o w).0.consul ≡ (E.peerings.delete w.consul name).0
  unfolding reconcile_deleted release
  reconcile_deleted-consul name o w =
      let w1 : World E = record w { consul = (E.peerings.delete w.consul name).0 } in
      ground (arith, delete_k8s_secret-consul o.secret.name o.namespace w1)

  -- For an acceptor that is there, with Consul in reach, and that has the finalizer or is being
  -- deleted, a reconcile does to Consul what the table says.
  pub reconcile_generates :
      (name namespace : String) (o : Resource) (w : World E)
      → E.resources.get w.kube name namespace ≡ found o
      → o.name ≡ name
      → E.server_state ≡ none
      → E.new_client ≡ none
      → (o.deleting || E.contains_finalizer o.finalizers finalizer_name) ≡ true
      → (reconcile E name namespace w).0.consul ≡ perform (plan o w) o w.consul
  unfolding reconcile reconcile_present
  reconcile_generates name namespace o w there named up client kept =
      rw (there, up, client, reconcile)
        (ground
          (arith, reconcile_secret-consul name namespace o w, reconcile_deleted-consul name o w))
