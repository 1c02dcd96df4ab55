-- ===== src/Peering/Dialer/Plan.antt =====
-- What `Reconcile` of a dialer does to Consul
-- (control-plane/connect-inject/controllers/peering/peering_dialer_controller.go): a table of
-- decisions, and the proof that the handler follows it.
use consul_k8s.Base.{◌≡◌, String, Bool, true, false, not, ◌&&◌, ◌||◌, none, some, arith, inl, inr}
use consul_k8s.Base.{contains, if◌then◌else◌, ok, err, Result-cases}
use consul_k8s.Base.Dict
use consul_k8s.Peering.{
  Setting, World, Resource, SecretRefStatus, KubeSecret, found, finalizer_name, get_secret,
  write_status, update_status_error,
}
use consul_k8s.Peering.Version.{version_annotation_updated}
use consul_k8s.Peering.Dialer.{
  spec_status_secrets_different, establish_peering, reconcile_established, reconcile_token,
  reconcile_secrets, reconcile_deleted, reconcile_present, reconcile, update_status,
}

pub data Action : Type 0 where
  leave : Action
  establish : String → Action
  remove : Action

-- The status is up to date with the secret of the spec and with the version of the resource.
abbrev pub is_current : (String → String) → SecretRefStatus → Resource → KubeSecret → Bool
is_current quote r o spec =
    not (spec_status_secrets_different r o spec)
    && elim (version_annotation_updated quote o) [ err e ↦ true | ok updated ↦ not updated ]

module _ (E : Setting) where
  -- There is no secret that the status names, or Consul has no peering, or the status is behind.
  abbrev pub is_behind : Resource → KubeSecret → World E → Bool
  is_behind o spec w = elim o.secret_ref [
    | none ↦ true
    | some r ↦ elim (get_secret E r.secret.name o.namespace w) [
      | err e ↦ false
      | ok status ↦ elim status [
        | none ↦ true
        | some _ ↦ elim (E.peerings.read w.consul o.name) [
          | err e ↦ false
          | ok exists ↦ not (exists && is_current E.quote r o spec)
        ]
      ]
    ]
  ]

  abbrev pub plan_secrets : Resource → World E → Action
  plan_secrets o w = elim (get_secret E o.secret.name o.namespace w) [
    | err e ↦ leave
    | ok secret ↦ elim secret [
      | none ↦ leave
      | some spec ↦
          if is_behind o spec w then establish (Dict.get o.secret.key spec.«data») else leave
    ]
  ]

  abbrev pub plan : Resource → World E → Action
  plan o w = if o.deleting && contains o.finalizers finalizer_name then remove else plan_secrets o w

  abbrev pub perform : Action → Resource → E.Consul → E.Consul
  perform leave o c = c
  perform (establish token) o c = (E.peerings.establish c o.name token).0
  perform remove o c = (E.peerings.delete c o.name).0

  pub update_status-consul :
      (name namespace version : String) (w : World E)
      → (update_status E name namespace version w).0.consul ≡ w.consul
  unfolding update_status write_status
  update_status-consul name namespace version w = ground arith

  establish_peering-consul :
      (name namespace : String) (spec : KubeSecret) (o : Resource) (w : World E)
      → (establish_peering E name namespace spec o w).0.consul
        ≡ (E.peerings.establish w.consul o.name (Dict.get o.secret.key spec.«data»)).0
  unfolding establish_peering update_status_error
  establish_peering-consul name namespace spec o w =
      let c = (E.peerings.establish w.consul o.name (Dict.get o.secret.key spec.«data»)).0 in
      ground
        (arith, update_status-consul name namespace spec.resource_version (record w { consul = c }))

  reconcile_secrets-consul :
      (name namespace : String) (o : Resource) (w : World E)
      → (reconcile_secrets E name namespace o w).0.consul ≡ perform (plan_secrets o w) o w.consul
  unfolding reconcile_secrets reconcile_token reconcile_established update_status_error
  reconcile_secrets-consul name namespace o w =
      elim (Result-cases (get_secret E o.secret.name o.namespace w)) [
        | inl (none, e) ↦ rw (e, reconcile_secrets) (ground arith)
        | inl (some spec, e) ↦
            rw (e, reconcile_secrets)
              (ground (arith, establish_peering-consul name namespace spec o w))
        | inr (t, e) ↦ rw (e, reconcile_secrets) (ground arith)
      ]

  -- For a dialer that is there, with Consul in reach, and that has the finalizer or is being
  -- deleted, a reconcile does to Consul what the table says.
  pub reconcile_establishes :
      (name namespace : String) (o : Resource) (w : World E)
      → E.resources.get w.kube name namespace ≡ found o
      → o.name ≡ name
      → E.server_state ≡ none
      → E.new_client ≡ none
      → (o.deleting || E.contains_finalizer o.finalizers finalizer_name) ≡ true
      → (reconcile E name namespace w).0.consul ≡ perform (plan o w) o w.consul
  unfolding reconcile reconcile_present reconcile_deleted
  reconcile_establishes name namespace o w there named up client kept =
      rw (there, up, client, reconcile)
        (ground (arith, reconcile_secrets-consul name namespace o w))
