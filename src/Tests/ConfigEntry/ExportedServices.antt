-- ===== src/Tests/ConfigEntry/ExportedServices.antt =====
-- Tests of the reconcile of control-plane/api/v1alpha1/exportedservices_types.go, over one resource and a
-- Consul that are kept in memory.
use consul_k8s.Base.{
  ◌≡◌, refl, String, ◌<>◌, Bool, true, false, ◌&&◌, Option, none, some, List, [], ◌∷◌, arith,
}
use consul_k8s.Base.{ok, err, ◌==◌, string_dec, contains_text}
use consul_k8s.Base.Dict
use consul_k8s.Base.Dict.{Dict}
use consul_k8s.ConfigEntry.{Object, Config, Setting, World, found, not_found}
use consul_k8s.ConfigEntry.Status.{set_synced_condition, remove_finalizer, synced_condition_status}
use consul_k8s.ConfigEntry.Reconcile.{
  finalizer_name, entry_namespace, source_datacenter_mismatch_err, reconcile_entry, reconcile_kept,
  reconcile_live, reconcile_absent, reconcile_present, reconcile_deleted, finish_deletion,
  create_entry, update_entry,
}
use consul_k8s.ConfigEntry.Convergence.{IsLawfulStore}
use consul_k8s.ConfigEntry.ExportedServices.{
  ServiceConsumer, ExportedService, ExportedServicesSpec, ExportedServicesConfigEntry, meta_for,
  exported_services,
}
use consul_k8s.ConfigEntry.ExportedServices.Lawful.{IsEntryEquality}
use consul_k8s.ConfigEntry.ExportedServices.Synced.{
  IsExported, reconcile_entry-IsExported, reconcile_entry_again-exported,
}

-- The comparison of names and services.
abbrev same_consumers : List ServiceConsumer → List ServiceConsumer → Bool
same_consumers [] [] = true
same_consumers (a ∷ xs) (b ∷ ys) =
    let rest = same_consumers xs ys in a.partition == b.partition && a.peer == b.peer && rest
same_consumers _ _ = false

abbrev same_services : List ExportedService → List ExportedService → Bool
same_services [] [] = true
same_services (a ∷ xs) (b ∷ ys) =
    let rest = same_services xs ys in
    a.name == b.name && a.namespace == b.namespace && same_consumers a.consumers b.consumers && rest
same_services _ _ = false

abbrev equal : ExportedServicesConfigEntry → ExportedServicesConfigEntry → Bool
equal a b = a.name == b.name && same_services a.services b.services

same_consumers_refl : (cs : List ServiceConsumer) → same_consumers cs cs ≡ true
same_consumers_refl [] = refl
same_consumers_refl (c ∷ cs) = ground (arith, same_consumers_refl cs)

same_services_refl : (ss : List ExportedService) → same_services ss ss ≡ true
same_services_refl [] = refl
same_services_refl (s ∷ ss) = ground (arith, same_consumers_refl s.consumers, same_services_refl ss)

same_consumers-eq : (xs ys : List ServiceConsumer) → same_consumers xs ys ≡ true → xs ≡ ys
same_consumers-eq [] [] h = refl
same_consumers-eq [] (_ ∷ _) h = cc
same_consumers-eq (_ ∷ _) [] h = cc
same_consumers-eq (a ∷ xs) (b ∷ ys) h = ground (arith, h, same_consumers-eq xs ys)

same_services-eq : (xs ys : List ExportedService) → same_services xs ys ≡ true → xs ≡ ys
same_services-eq [] [] h = refl
same_services-eq [] (_ ∷ _) h = cc
same_services-eq (_ ∷ _) [] h = cc
same_services-eq (a ∷ xs) (b ∷ ys) h =
    ground (arith, h, same_consumers-eq a.consumers b.consumers, same_services-eq xs ys)

equal-IsEntryEquality : IsEntryEquality equal
equal-IsEntryEquality = record {
  equal_of = λ a b n s. ground (arith, n, s, same_services_refl b.services);
  of_equal = λ a b h. ground (arith, h, same_services-eq a.services b.services);
}

abbrev no_namespace : ExportedServicesConfigEntry → String
no_namespace e = ""

abbrev key : String → String → String
key ns name = ns <> ("/" <> name)

abbrev setting : Setting (exported_services equal no_namespace)
setting = record {
  Kube = Option (Object ExportedServicesSpec);
  Consul = Dict ExportedServicesConfigEntry;
  kube_api = record {
    get = λ s name ns. elim s [ none ↦ not_found | some o ↦ found o ];
    update = λ s o. (some o, ok o);
    update_status = λ s o. (some o, ok o);
  };
  entry_api = record {
    get = λ s k name ns. elim (Dict.lookup (key ns name) s) [
      | none ↦ err "Unexpected response code: 404"
      | some e ↦ ok e
    ];
    set = λ s e ns. (Dict.insert (key ns e.name) e s, none);
    delete = λ s k name ns. (Dict.erase (key ns name) s, none);
  };
  namespace_api = record { read = λ s ns. ok none; create = λ s n. (s, none) };
  server_state = none;
  new_client = none;
  now = 7;
  marshal = λ e. ok e.name;
  quote = λ s. s;
}

setting-IsLawful : IsLawfulStore setting
setting-IsLawful = record {
  get-set = λ s e ns accepted. ground (arith, Dict.lookup-insert_self (key ns e.name) e s);
}

abbrev config : Config
config = record {
  datacenter_name = "dc1";
  enable_consul_namespaces = false;
  consul_destination_namespace = "";
  enable_ns_mirroring = false;
  ns_mirroring_prefix = "";
  cross_ns_acl_policy = "";
}

abbrev frontend : List ExportedService
frontend =
    record {
      name = "frontend";
      namespace = "";
      consumers = record { partition = ""; peer = "east" } ∷ [];
    }
    ∷ []

abbrev resource : Object ExportedServicesSpec
resource = record {
  name = "default";
  namespace = "ns1";
  deleting = false;
  finalizers = finalizer_name ∷ [];
  annotations = [];
  conditions = [];
  last_synced_time = none;
  spec = record { services = frontend };
}

abbrev entry_with : List ExportedService → ExportedServicesConfigEntry
entry_with services = record {
  name = "default";
  partition = "";
  services = services;
  meta = meta_for "dc1";
}

-- Consul has an entry of this datacenter that exports nothing.
abbrev before : World setting
before = record { kube = some resource; consul = ("/default", entry_with []) ∷ [] }

abbrev after : World setting
after = record { kube = some resource; consul = ("/default", entry_with frontend) ∷ [] }

run : World setting → World setting × Option String
unfolding reconcile_entry reconcile_kept reconcile_live reconcile_absent reconcile_present
    reconcile_deleted finish_deletion create_entry update_entry entry_namespace
    source_datacenter_mismatch_err set_synced_condition remove_finalizer synced_condition_status
    string_dec contains_text Dict.lookup Dict.insert Dict.erase
run w = reconcile_entry setting config "default" "ns1" w

updated : (run before).0.consul ≡ after.consul
unfolding run
updated = refl

reconcile_entry-IsExported_example :
    IsExported equal no_namespace setting config resource
      (reconcile_entry setting config "default" "ns1" before).0.consul
unfolding run
reconcile_entry-IsExported_example =
    reconcile_entry-IsExported equal no_namespace equal-IsEntryEquality setting config
      setting-IsLawful "default" "ns1" resource before refl refl refl refl refl refl

reconcile_entry_again-exported_example :
    (reconcile_entry setting config "default" "ns1" after).0.consul ≡ after.consul
unfolding run
reconcile_entry_again-exported_example =
    reconcile_entry_again-exported equal no_namespace equal-IsEntryEquality setting config
      setting-IsLawful "default" "ns1" resource [] none before after refl refl refl refl refl refl
      refl refl
