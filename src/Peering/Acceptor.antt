-- ===== src/Peering/Acceptor.antt =====
-- control-plane/connect-inject/controllers/peering/peering_acceptor_controller.go: `Reconcile` of
-- `AcceptorController` and the functions that it calls, in the order of their statements.
pub mod Plan
pub mod Tokens
use consul_k8s.Base.{String, ◌<>◌, Bool, true, false, not, Option, none, some, List, [], ◌∷◌}
use consul_k8s.Base.{◌==◌, contains, if◌then◌else◌, is_some, Result, ok, err}
use consul_k8s.Base.Dict
use consul_k8s.ConfigEntry.{is_true}
use consul_k8s.Peering.{
  Setting, World, Resource, SecretRefStatus, KubeSecret, found, not_found, failed, finalizer_name,
  kubernetes_error, internal_error, consul_agent_error, set_synced_condition, update_status_error,
  write_status, get_secret,
}
use consul_k8s.Peering.Requests.{label_peering_token}
use consul_k8s.Peering.Version.{version_annotation_updated, record_version}

-- A new token is needed, and the name of the secret changed.
unfoldable pub should_generate_token :
    (String → String) → Resource → Option KubeSecret → Result (Bool × Bool)
should_generate_token quote o existing =
    let by_secret : Result (Bool × Bool) = ok (not (is_some existing), false) in
    elim o.secret_ref [
      | none ↦ by_secret
      | some r ↦
          if not (r.secret.name == o.secret.name)
          then ok (true, true)
          else if not (r.secret.key == o.secret.key)
          then ok (true, false)
          else if not (r.secret.backend == o.secret.backend)
          then err "PeeringAcceptor backend cannot be changed"
          else elim (version_annotation_updated quote o) [
            | err e ↦ err e
            | ok updated ↦ if updated then ok (true, false) else by_secret
          ]
    ]

abbrev pub create_secret : String → String → String → String → KubeSecret
create_secret name namespace key value = record {
  name = name;
  namespace = namespace;
  labels = (label_peering_token, "true") ∷ [];
  «data» = (key, value) ∷ [];
  resource_version = "";
}

module _ (E : Setting) where
  abbrev Outcome : Type 0
  Outcome = World E × Option String

  -- The resource that `updateStatus` has before it looks at the version.
  abbrev pub synced : Resource → Resource
  synced o = set_synced_condition E.now is_true "" "" (record o {
    secret_ref = some (record { secret = o.secret; resource_version = "" });
    last_synced_time = some E.now;
  })

  unfoldable pub update_status : String → String → World E → Outcome
  unfolding write_status
  update_status name namespace w = elim (E.resources.get w.kube name namespace) [
    | not_found e ↦ (w, some ("error fetching acceptor resource before status update: " <> e))
    | failed e ↦ (w, some ("error fetching acceptor resource before status update: " <> e))
    | found o ↦ elim (record_version E.quote (synced o)) [
      | err e ↦ (w, some e)
      | ok o' ↦ write_status E o' w
    ]
  ]

  unfoldable pub create_or_update_k8s_secret : Resource → String → World E → Outcome
  create_or_update_k8s_secret o token w =
      let secret = create_secret o.secret.name o.namespace o.secret.key token in
      elim (get_secret E o.secret.name o.namespace w) [
        | err e ↦ (w, some e)
        | ok existing ↦
            (let (kube, answer) =
                if is_some existing
                then E.secrets.update w.kube secret
                else E.secrets.create w.kube secret in
              (record w { kube = kube }, answer))
      ]

  unfoldable pub delete_k8s_secret : String → String → World E → Outcome
  delete_k8s_secret name namespace w = elim (get_secret E name namespace w) [
    | err e ↦ (w, some e)
    | ok existing ↦ elim existing [
      | none ↦ (w, none)
      | some s ↦
          (let (kube, answer) = E.secrets.delete w.kube s in (record w { kube = kube }, answer))
    ]
  ]

  -- The token goes to Kubernetes, if that is the backend.
  unfoldable pub store_token : Resource → String → World E → Outcome
  unfolding create_or_update_k8s_secret
  store_token o token w =
      if o.secret.backend == "kubernetes" then create_or_update_k8s_secret o token w else (w, none)

  -- The deletion of the secret that the status names.
  unfoldable pub delete_stale : Resource → World E → Outcome
  unfolding delete_k8s_secret
  delete_stale o w = elim o.secret_ref [
    | none ↦ (w, none)
    | some r ↦ delete_k8s_secret r.secret.name o.namespace w
  ]

  -- The branch without a peering in Consul, after the deletion of a stale secret.
  unfoldable pub generate_first : String → String → Resource → World E → Outcome
  unfolding store_token update_status
  generate_first name namespace o w =
      let (consul, answer) = E.peerings.generate_token w.consul o.name in
      let w' : World E = record w { consul = consul } in
      elim answer [
        | err e ↦ (update_status_error E o consul_agent_error e w', some e)
        | ok token ↦
            (let (w'', stored) = store_token o token w' in
              elim stored [
                | some e ↦ (update_status_error E o kubernetes_error e w'', some e)
                | none ↦ update_status name namespace w''
              ])
      ]

  unfoldable pub create_peering : String → String → Resource → World E → Outcome
  unfolding generate_first delete_stale
  create_peering name namespace o w =
      let (w', deleted) = delete_stale o w in
      elim deleted [
        | some e ↦ (update_status_error E o kubernetes_error e w', some e)
        | none ↦ generate_first name namespace o w'
      ]

  -- The end of the branch of a new token for a peering that is there: a stale secret goes.
  unfoldable pub finish_renewal : String → String → Bool → Resource → World E → Outcome
  unfolding delete_stale update_status
  finish_renewal name namespace name_changed o w =
      let (w', deleted) = if name_changed then delete_stale o w else (w, none) in
      elim deleted [
        | some e ↦ (update_status_error E o kubernetes_error e w', some e)
        | none ↦ update_status name namespace w'
      ]

  -- A new token for a peering that is there.
  unfoldable pub renew_token : String → String → Bool → Resource → World E → Outcome
  unfolding finish_renewal store_token
  renew_token name namespace name_changed o w =
      let (consul, answer) = E.peerings.generate_token w.consul o.name in
      let w' : World E = record w { consul = consul } in
      elim answer [
        | err e ↦ (w', some e)
        | ok token ↦
            (let (w'', stored) = store_token o token w' in
              elim stored [
                | some e ↦ (w'', some e)
                | none ↦ finish_renewal name namespace name_changed o w''
              ])
      ]

  -- From the look at the secret of the spec on.
  unfoldable pub reconcile_secret : String → String → Resource → World E → Outcome
  unfolding create_peering renew_token
  reconcile_secret name namespace o w = elim (get_secret E o.secret.name o.namespace w) [
    | err e ↦ (update_status_error E o kubernetes_error e w, some e)
    | ok existing ↦ elim (E.peerings.read w.consul o.name) [
      | err e ↦ (w, some e)
      | ok exists ↦
          if not exists
          then create_peering name namespace o w
          else elim (should_generate_token E.quote o existing) [
            | err e ↦ (update_status_error E o internal_error e w, some e)
            | ok (should_generate, name_changed) ↦
                if should_generate then renew_token name namespace name_changed o w else (w, none)
          ]
    ]
  ]

  -- The end of a deletion: the finalizer goes.
  unfoldable pub release : Resource → World E → Outcome
  release o w =
      let (kube, answer) =
        E.resources.update w.kube
          (record o { finalizers = E.remove_finalizer o.finalizers finalizer_name }) in
      (record w { kube = kube }, elim answer [ err e ↦ some e | ok _ ↦ none ])

  -- The branch of a deleted resource with the finalizer. With the backend in Kubernetes, the answer
  -- of Consul is overwritten by that of the deletion of the secret.
  unfoldable pub reconcile_deleted : String → Resource → World E → Outcome
  unfolding release delete_k8s_secret
  reconcile_deleted name o w =
      let (consul, answer) = E.peerings.delete w.consul name in
      let w' : World E = record w { consul = consul } in
      let (w'', deleted) =
        if o.secret.backend == "kubernetes"
        then delete_k8s_secret o.secret.name o.namespace w'
        else (w', answer) in
      elim deleted [ some e ↦ (w'', some e) | none ↦ release o w'' ]

  unfoldable pub reconcile_present : String → String → Resource → World E → Outcome
  unfolding reconcile_secret reconcile_deleted
  reconcile_present name namespace o w =
      if not o.deleting
      then if E.contains_finalizer o.finalizers finalizer_name
        then reconcile_secret name namespace o w
        else (let (kube, answer) =
              E.resources.update w.kube
                (record o { finalizers = E.add_finalizer o.finalizers finalizer_name }) in
            let w' : World E = record w { kube = kube } in
            elim answer [ err e ↦ (w', some e) | ok o' ↦ reconcile_secret name namespace o' w' ])
      else if contains o.finalizers finalizer_name
      then reconcile_deleted name o w
      else reconcile_secret name namespace o w

  unfoldable pub reconcile : String → String → World E → Outcome
  unfolding reconcile_present
  reconcile name namespace w = elim (E.resources.get w.kube name namespace) [
    | not_found e ↦ (w, none)
    | failed e ↦ (w, some e)
    | found o ↦ elim E.server_state [
      | some e ↦ (w, some e)
      | none ↦ elim E.new_client [
        | some e ↦ (w, some e)
        | none ↦ reconcile_present name namespace o w
      ]
    ]
  ]
