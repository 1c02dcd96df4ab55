-- ===== src/Peering/Dialer.antt =====
-- control-plane/connect-inject/controllers/peering/peering_dialer_controller.go: `Reconcile` of
-- `PeeringDialerController` and the functions that it calls, in the order of their statements.
pub mod Plan
pub mod Again
pub mod Deletion
use consul_k8s.Base.{String, ◌<>◌, Bool, true, false, not, Option, none, some, List, [], ◌∷◌}
use consul_k8s.Base.{◌==◌, ◌&&◌, contains, if◌then◌else◌, Result, ok, err}
use consul_k8s.Base.Dict
use consul_k8s.ConfigEntry.{is_true}
use consul_k8s.Peering.{
  Setting, World, Resource, Secret, SecretRefStatus, KubeSecret, found, not_found, failed,
  finalizer_name, kubernetes_error, internal_error, consul_agent_error, set_synced_condition,
  update_status_error, write_status, get_secret,
}
use consul_k8s.Peering.Version.{version_annotation_updated, record_version}

pub spec_status_secrets_different : SecretRefStatus → Resource → KubeSecret → Bool
spec_status_secrets_different r o spec =
    if not (r.secret.name == o.secret.name)
    then true
    else if not (r.secret.key == o.secret.key)
    then true
    else if not (r.secret.backend == o.secret.backend)
    then true
    else not (r.resource_version == spec.resource_version)

module _ (E : Setting) where
  abbrev Outcome : Type 0
  Outcome = World E × Option String

  -- The resource that `updateStatus` has before it looks at the version.
  abbrev pub synced : String → Resource → Resource
  synced resource_version o = set_synced_condition E.now is_true "" "" (record o {
    secret_ref = some (record { secret = o.secret; resource_version = resource_version });
    last_synced_time = some E.now;
  })

  unfoldable pub update_status : String → String → String → World E → Outcome
  unfolding write_status
  update_status name namespace resource_version w = elim (E.resources.get w.kube name namespace) [
    | not_found e ↦ (w, some ("error fetching dialer resource before status update: " <> e))
    | failed e ↦ (w, some ("error fetching dialer resource before status update: " <> e))
    | found o ↦ elim (record_version E.quote (synced resource_version o)) [
      | err e ↦ (w, some e)
      | ok o' ↦ write_status E o' w
    ]
  ]

  -- The call of `establishPeering`, which `Reconcile` has four times, and what follows it.
  unfoldable pub establish_peering : String → String → KubeSecret → Resource → World E → Outcome
  unfolding update_status
  establish_peering name namespace spec o w =
      let (consul, answer) =
        E.peerings.establish w.consul o.name (Dict.get o.secret.key spec.«data») in
      let w' : World E = record w { consul = consul } in
      elim answer [
        | some e ↦ (update_status_error E o consul_agent_error e w', some e)
        | none ↦ update_status name namespace spec.resource_version w'
      ]

  -- From the point on where both secrets exist.
  unfoldable pub reconcile_established :
      String → String → SecretRefStatus → KubeSecret → Resource → World E → Outcome
  unfolding establish_peering spec_status_secrets_different
  reconcile_established name namespace r spec o w = elim (E.peerings.read w.consul o.name) [
    | err e ↦ (w, some e)
    | ok exists ↦
        if not exists
        then establish_peering name namespace spec o w
        else if spec_status_secrets_different r o spec
        then establish_peering name namespace spec o w
        else elim (version_annotation_updated E.quote o) [
          | err e ↦ (update_status_error E o internal_error e w, some e)
          | ok updated ↦ if updated then establish_peering name namespace spec o w else (w, none)
        ]
  ]

  -- From the point on where the secret of the spec exists: the secret of the status.
  unfoldable pub reconcile_token : String → String → KubeSecret → Resource → World E → Outcome
  unfolding reconcile_established
  reconcile_token name namespace spec o w = elim o.secret_ref [
    | none ↦ establish_peering name namespace spec o w
    | some r ↦ elim (get_secret E r.secret.name o.namespace w) [
      | err e ↦ (update_status_error E o kubernetes_error e w, some e)
      | ok status ↦ elim status [
        | none ↦ establish_peering name namespace spec o w
        | some _ ↦ reconcile_established name namespace r spec o w
      ]
    ]
  ]

  -- From the look at the secret of the spec on.
  unfoldable pub reconcile_secrets : String → String → Resource → World E → Outcome
  unfolding reconcile_token
  reconcile_secrets name namespace o w = elim (get_secret E o.secret.name o.namespace w) [
    | err e ↦ (update_status_error E o kubernetes_error e w, some e)
    | ok secret ↦ elim secret [
      | none ↦
          let e : String = "PeeringDialer spec.peer.secret does not exist" in
          (update_status_error E o internal_error e w, some e)
      | some spec ↦ reconcile_token name namespace spec o w
    ]
  ]

  -- The branch of a deleted resource with the finalizer.
  unfoldable pub reconcile_deleted : String → Resource → World E → Outcome
  reconcile_deleted name o w =
      let (consul, answer) = E.peerings.delete w.consul name in
      elim answer [
        | some e ↦ (record w { consul = consul }, some e)
        | none ↦
            (let (kube, answer') =
                E.resources.update w.kube
                  (record o { finalizers = E.remove_finalizer o.finalizers finalizer_name }) in
              (
                record { kube = kube; consul = consul },
                elim answer' [ err e ↦ some e | ok _ ↦ none ],
              ))
      ]

  unfoldable pub reconcile_present : String → String → Resource → World E → Outcome
  unfolding reconcile_secrets reconcile_deleted
  reconcile_present name namespace o w =
      if not o.deleting
      then if E.contains_finalizer o.finalizers finalizer_name
        then reconcile_secrets name namespace o w
        else (let (kube, answer) =
              E.resources.update w.kube
                (record o { finalizers = E.add_finalizer o.finalizers finalizer_name }) in
            let w' : World E = record w { kube = kube } in
            elim answer [ err e ↦ (w', some e) | ok o' ↦ reconcile_secrets name namespace o' w' ])
      else if contains o.finalizers finalizer_name
      then reconcile_deleted name o w
      else reconcile_secrets name namespace o w

  unfoldable pub reconcile : String → String → World E → Outcome
  unfolding reconcile_present
  reconcile name namespace w = elim (E.resources.get w.kube name namespace) [
    | not_found e ↦ (w, none)
    | failed e ↦ (w, some e)
    | found o ↦ elim E.server_state [
      | some e ↦ (w, some e)
      | none ↦ elim E.new_client [
        | some e ↦ (w, some e)
        | none ↦ reconcile_present name namespace o w
      ]
    ]
  ]
