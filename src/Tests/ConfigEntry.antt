-- ===== src/Tests/ConfigEntry.antt =====
-- Tests of control-plane/controller/configentry_controller.go over one resource and a Consul that
-- are kept in memory.
mod ExportedServices
use consul_k8s.Base.{◌≡◌, ◌≢◌, refl, inr, String, ◌<>◌, true, false, Option, none, some, [], ◌∷◌}
use consul_k8s.Base.{arith, ok, err, ◌==◌, string_dec, contains_text}
use consul_k8s.Base.Dict
use consul_k8s.Base.Dict.{Dict}
use consul_k8s.ConfigEntry.{Object, EntryKind, Config, Setting, World, found, not_found}
use consul_k8s.ConfigEntry.Status.{set_synced_condition, remove_finalizer, synced_condition_status}
use consul_k8s.ConfigEntry.Reconcile.{
  finalizer_name, datacenter_key, entry_namespace, source_datacenter_mismatch_err, reconcile_entry,
  reconcile_kept, reconcile_live, reconcile_absent, reconcile_present, reconcile_deleted,
  finish_deletion, create_entry, update_entry,
}
use consul_k8s.ConfigEntry.Plan.{perform, plan, lookup_entry, reconcile_entry-consul}
use consul_k8s.ConfigEntry.Deletion.{
  Released, IsHeld, reconcile_entry-Released, reconcile_entry-IsHeld,
}

record Entry : Type 0 where
  name : String
  meta : Dict String
  body : String

abbrev kind : EntryKind
kind = record {
  Spec = String;
  Entry = Entry;
  to_consul = λ dc o. record { name = o.name; meta = (datacenter_key, dc) ∷ []; body = o.spec };
  matches_consul = λ o e. o.spec == e.body;
  consul_kind = "service-defaults";
  consul_name = λ o. o.name;
  mirroring_ns = λ o. o.namespace;
  global_resource = false;
  get_name = λ e. e.name;
  get_namespace = λ e. "";
  get_meta = λ e. e.meta;
}

abbrev key : String → String → String
key ns name = ns <> ("/" <> name)

abbrev setting : Setting kind
setting = record {
  Kube = Option (Object String);
  Consul = Dict Entry;
  kube_api = record {
    get = λ s name ns. elim s [ none ↦ not_found | some o ↦ found o ];
    update = λ s o. (some o, ok o);
    update_status = λ s o. (some o, ok o);
  };
  entry_api = record {
    get = λ s k name ns. elim (Dict.lookup (key ns name) s) [
      | none ↦ err "Unexpected response code: 404"
      | some e ↦ ok e
    ];
    set = λ s e ns. (Dict.insert (key ns e.name) e s, none);
    delete = λ s k name ns. (Dict.erase (key ns name) s, none);
  };
  namespace_api = record { read = λ s ns. ok none; create = λ s n. (s, none) };
  server_state = none;
  new_client = none;
  now = 7;
  marshal = λ e. ok e.body;
  quote = λ s. s;
}

abbrev config : Config
config = record {
  datacenter_name = "dc1";
  enable_consul_namespaces = false;
  consul_destination_namespace = "";
  enable_ns_mirroring = false;
  ns_mirroring_prefix = "";
  cross_ns_acl_policy = "";
}

abbrev resource : Object String
resource = record {
  name = "web";
  namespace = "ns1";
  deleting = false;
  finalizers = finalizer_name ∷ [];
  annotations = [];
  conditions = [];
  last_synced_time = none;
  spec = "http";
}

abbrev dying : Object String
dying = record resource { deleting = true }

abbrev stored_by : String → String → Entry
stored_by dc body = record { name = "web"; meta = (datacenter_key, dc) ∷ []; body = body }

-- Consul has the entry of a datacenter, with a body.
abbrev holding : Object String → String → String → World setting
holding o dc body = record { kube = some o; consul = ("/web", stored_by dc body) ∷ [] }

run : World setting → World setting × Option String
unfolding reconcile_entry reconcile_kept reconcile_live reconcile_absent reconcile_present
    reconcile_deleted finish_deletion create_entry update_entry entry_namespace
    source_datacenter_mismatch_err set_synced_condition remove_finalizer synced_condition_status
    string_dec contains_text Dict.lookup Dict.insert Dict.erase
run w = reconcile_entry setting config "web" "ns1" w

runs :
    ((run (holding resource "dc1" "tcp")).0.consul ≡ ("/web", stored_by "dc1" "http") ∷ [])
    × ((run (holding resource "dc2" "tcp")).0.consul ≡ ("/web", stored_by "dc2" "tcp") ∷ [])
    × ((run (holding resource "dc2" "tcp")).1
        ≡ some "config entry managed in different datacenter: dc2")
    × ((run (record { kube = some resource; consul = [] })).0.consul
        ≡ ("/web", stored_by "dc1" "http") ∷ [])
    × ((run (holding dying "dc1" "tcp")).0.consul ≡ [])
    × ((run (holding dying "dc1" "tcp")).0.kube ≡ some (record dying { finalizers = [] }))
unfolding run
runs = (refl, refl, refl, refl, refl, refl)

reconcile_entry-consul_example :
    (reconcile_entry setting config "web" "ns1" (holding resource "dc1" "tcp")).0.consul
    ≡ perform setting config resource
        (plan setting config resource
          (lookup_entry setting config resource (("/web", stored_by "dc1" "tcp") ∷ [])))
        (("/web", stored_by "dc1" "tcp") ∷ [])
unfolding string_dec
reconcile_entry-consul_example =
    reconcile_entry-consul setting config "web" "ns1" resource (holding resource "dc1" "tcp") refl
      refl refl refl

reconcile_entry-Released_example :
    Released setting config dying
      (holding dying "dc2" "tcp")
      (reconcile_entry setting config "web" "ns1" (holding dying "dc2" "tcp")).0
unfolding run
reconcile_entry-Released_example =
    reconcile_entry-Released setting config "web" "ns1" dying (holding dying "dc2" "tcp") refl refl
      refl refl refl refl

-- The same, with a Consul that refuses every deletion.
abbrev failing : Setting kind
failing = record setting {
  entry_api = record setting.entry_api { delete = λ s k name ns. (s, some "permission denied") };
}

reconcile_entry-IsHeld_example :
    let w : World failing = record {
      kube = some dying;
      consul = ("/web", stored_by "dc1" "http") ∷ [];
    } in
    ((reconcile_entry failing config "web" "ns1" w).1 ≢ none)
    × IsHeld failing config dying w (reconcile_entry failing config "web" "ns1" w).0
unfolding run
reconcile_entry-IsHeld_example =
    reconcile_entry-IsHeld failing config "web" "ns1" dying
      (record { kube = some dying; consul = ("/web", stored_by "dc1" "http") ∷ [] }) refl refl refl
      refl refl (inr ((stored_by "dc1" "http", refl, refl), ("permission denied", refl)))
