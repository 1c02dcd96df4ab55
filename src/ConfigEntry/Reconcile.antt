-- ===== src/ConfigEntry/Reconcile.antt =====
-- `ReconcileEntry` of control-plane/controller/configentry_controller.go, in the order of its
-- statements. The result is the state after it and the error that it returns; the other result,
-- `ctrl.Result{}`, is always empty. Logging is left out.
use consul_k8s.Base.{String, ◌<>◌, Bool, true, false, not, ◌&&◌, Option, none, some}
use consul_k8s.Base.{◌==◌, if◌then◌else◌, contains, contains_text, ok, err}
use consul_k8s.Base.Dict
use consul_k8s.Namespaces.{ensure_exists, consul_namespace}
use consul_k8s.ConfigEntry.{
  ConditionStatus, is_true, is_false, is_unknown, Object, EntryKind, Config, found, not_found,
  failed, Setting, World,
}
use consul_k8s.ConfigEntry.Status.{
  set_synced_condition, synced_condition_status, add_finalizer, remove_finalizer,
}

abbrev pub finalizer_name : String
finalizer_name = "finalizers.consul.hashicorp.com"

abbrev pub datacenter_key : String
datacenter_key = "consul.hashicorp.com/source-datacenter"

abbrev pub migrate_entry_key : String
migrate_entry_key = "consul.hashicorp.com/migrate-entry"

abbrev pub consul_agent_error : String
consul_agent_error = "ConsulAgentError"

abbrev pub externally_managed_config_error : String
externally_managed_config_error = "ExternallyManagedConfigError"

abbrev pub migration_failed_error : String
migration_failed_error = "MigrationFailedError"

-- `isNotFoundErr`, for an error that is there.
abbrev pub is_not_found_err : String → Bool
is_not_found_err e = contains_text e "404"

abbrev pub status_is_true : ConditionStatus → Bool
status_is_true is_true = true
status_is_true _ = false

module _ {K : EntryKind} (E : Setting K) (c : Config) where
  abbrev pub Outcome : Type 0
  Outcome = World E × Option String

  -- The object in memory after an update: the one stored, or on an error the one sent.
  update_status : Object K.Spec → Option String → World E → Outcome
  update_status o e w =
      let (kube, answer) = E.kube_api.update_status w.kube o in
      elim answer [
        | err update_err ↦ (record w { kube = kube }, some update_err)
        | ok _ ↦ (record w { kube = kube }, e)
      ]

  unfoldable pub sync_failed : Object K.Spec → String → String → World E → Outcome
  unfolding update_status
  sync_failed o reason e w =
      update_status (set_synced_condition E.now is_false reason e o) (some e) w

  unfoldable pub sync_unknown_with_error : Object K.Spec → String → String → World E → Outcome
  unfolding update_status
  sync_unknown_with_error o reason e w =
      update_status (set_synced_condition E.now is_unknown reason e o) (some e) w

  unfoldable pub sync_successful : Object K.Spec → World E → Outcome
  unfolding update_status
  sync_successful o w =
      update_status
        (record (set_synced_condition E.now is_true "" "" o) { last_synced_time = some E.now }) none
        w

  unfoldable pub entry_namespace : K.Entry → Object K.Spec → String
  unfolding consul_namespace
  entry_namespace entry o =
      let explicit = K.get_namespace entry in
      let ns = K.mirroring_ns o in
      if not c.enable_consul_namespaces
      then ""
      else if not (explicit == "")
      then explicit
      else if not K.global_resource && not (ns == "*")
      then consul_namespace ns c.enable_consul_namespaces c.consul_destination_namespace
          c.enable_ns_mirroring c.ns_mirroring_prefix
      else ns

  abbrev pub owner : K.Entry → String
  owner entry = Dict.get datacenter_key (K.get_meta entry)

  abbrev pub wants_migration : Object K.Spec → Bool
  wants_migration o = Dict.get migrate_entry_key o.annotations == "true"

  unfoldable pub source_datacenter_mismatch_err : String → String
  source_datacenter_mismatch_err dc =
      if dc == ""
      then "config entry already exists in Consul"
      else "config entry managed in different datacenter: " <> E.quote dc

  unfoldable pub non_matching_migration_error : Object K.Spec → K.Entry → String
  non_matching_migration_error o entry = elim (E.marshal (K.to_consul c.datacenter_name o)) [
    | err e ↦ "migration failed: unable to marshal Kubernetes resource: " <> e
    | ok kube_json ↦ elim (E.marshal entry) [
      | err e ↦ "migration failed: unable to marshal Consul resource: " <> e
      | ok consul_json ↦
          "migration failed: Kubernetes resource does not match existing Consul config entry: consul="
          <> (consul_json <> (", kube=" <> kube_json))
    ]
  ]

  -- The removal of the finalizer, at the end of a deletion.
  unfoldable pub finish_deletion : Object K.Spec → World E → Outcome
  finish_deletion o w =
      let (kube, answer) = E.kube_api.update w.kube (remove_finalizer finalizer_name o) in
      elim answer [
        | err e ↦ (record w { kube = kube }, some e)
        | ok _ ↦ (record w { kube = kube }, none)
      ]

  -- The branch of an object that is being deleted.
  unfoldable pub reconcile_deleted : K.Entry → Object K.Spec → World E → Outcome
  unfolding sync_failed
  reconcile_deleted entry o w =
      let ns = entry_namespace entry o in
      if not (contains o.finalizers finalizer_name)
      then (w, none)
      else elim (E.entry_api.get w.consul K.consul_kind (K.consul_name o) ns) [
        | err e ↦
            if is_not_found_err e
            then finish_deletion o w
            else (w, some ("getting config entry from consul: " <> e))
        | ok stored ↦
            if owner stored == c.datacenter_name
            then (let (consul, answer) =
                  E.entry_api.delete w.consul K.consul_kind (K.consul_name o) ns in
                elim answer [
                  | none ↦ finish_deletion o (record w { consul = consul })
                  | some e ↦
                      sync_failed o consul_agent_error ("deleting config entry from consul: " <> e)
                        (record w { consul = consul })
                ])
            else finish_deletion o w
      ]

  -- The write of the entry that `ToConsul` made at the start of the reconcile.
  abbrev set_entry : K.Entry → Object K.Spec → World E → World E × Option String
  set_entry entry o w =
      let (consul, answer) = E.entry_api.set w.consul entry (entry_namespace entry o) in
      (record w { consul = consul }, answer)

  unfoldable pub create_entry : K.Entry → Object K.Spec → World E → Outcome
  unfolding sync_failed sync_successful
  create_entry entry o w =
      let (w', answer) = set_entry entry o w in
      elim answer [
        | some e ↦ sync_failed o consul_agent_error ("writing config entry to consul: " <> e) w'
        | none ↦ sync_successful o w'
      ]

  -- The branch of an entry that Consul does not have.
  unfoldable pub reconcile_absent : K.Entry → Object K.Spec → World E → Outcome
  unfolding sync_failed
  reconcile_absent entry o w =
      if not c.enable_consul_namespaces
      then create_entry entry o w
      else (let (consul, created, answer) =
            ensure_exists E.namespace_api (entry_namespace entry o) c.cross_ns_acl_policy
              w.consul in
          let w' : World E = record w { consul = consul } in
          elim answer [
            | some e ↦
                sync_failed o consul_agent_error
                  ("creating consul namespace "
                    <> (E.quote (entry_namespace entry o) <> (": " <> e)))
                  w'
            | none ↦ create_entry entry o w'
          ])

  unfoldable pub update_entry : K.Entry → Object K.Spec → World E → Outcome
  unfolding sync_unknown_with_error sync_successful
  update_entry entry o w =
      let (w', answer) = set_entry entry o w in
      elim answer [
        | some e ↦
            sync_unknown_with_error o consul_agent_error ("updating config entry in consul: " <> e)
              w'
        | none ↦ sync_successful o w'
      ]

  -- The branch of an entry that Consul has.
  unfoldable pub reconcile_present : K.Entry → K.Entry → Object K.Spec → World E → Outcome
  unfolding sync_failed sync_successful
  reconcile_present entry stored o w =
      let requires_migration = not (owner stored == c.datacenter_name) in
      if requires_migration && not (wants_migration o)
      then sync_failed o externally_managed_config_error
          (source_datacenter_mismatch_err (owner stored)) w
      else if not (K.matches_consul o stored)
      then if requires_migration
        then sync_failed o migration_failed_error (non_matching_migration_error o stored) w
        else update_entry entry o w
      else if requires_migration && not (owner stored == c.datacenter_name)
      then update_entry entry o w
      else if not (status_is_true (synced_condition_status o))
      then sync_successful o w
      else (w, none)

  -- From the second look at Consul on, for an object that is not being deleted.
  unfoldable pub reconcile_live : K.Entry → Object K.Spec → World E → Outcome
  unfolding sync_failed
  reconcile_live entry o w =
      elim (E.entry_api.get w.consul K.consul_kind (K.consul_name o) (entry_namespace entry o)) [
        | err e ↦
            if is_not_found_err e
            then reconcile_absent entry o w
            else sync_failed o consul_agent_error e w
        | ok stored ↦ reconcile_present entry stored o w
      ]

  -- The branch of an object that is not being deleted: the finalizer first.
  unfoldable pub reconcile_kept : K.Entry → Object K.Spec → World E → Outcome
  reconcile_kept entry o w =
      if contains o.finalizers finalizer_name
      then reconcile_live entry o w
      else (let (kube, answer) =
            E.kube_api.update w.kube
              (set_synced_condition E.now is_unknown "" "" (add_finalizer finalizer_name o)) in
          let w' : World E = record w { kube = kube } in
          elim answer [ err e ↦ (w', some e) | ok o' ↦ reconcile_live entry o' w' ])

  unfoldable pub reconcile_entry : String → String → World E → Outcome
  reconcile_entry name namespace w = elim (E.kube_api.get w.kube name namespace) [
    | not_found ↦ (w, none)
    | failed e ↦ (w, some e)
    | found o ↦ elim E.server_state [
      | some e ↦ (w, some e)
      | none ↦ elim E.new_client [
        | some e ↦ (w, some e)
        | none ↦
            let entry = K.to_consul c.datacenter_name o in
            if o.deleting then reconcile_deleted entry o w else reconcile_kept entry o w
      ]
    ]
  ]
