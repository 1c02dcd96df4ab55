-- ===== src/ConfigEntry/ExportedServices/Synced.antt =====
-- What the reconcile of a resource ExportedServices leaves in Consul
-- (control-plane/controller/configentry_controller.go, and
-- control-plane/api/v1alpha1/exportedservices_types.go).
use consul_k8s.Base.{ℕ, ◌≡◌, refl, ◌∙◌, sym, String, Bool, true, false, Option, none, List}
use consul_k8s.Base.{contains, ok}
use consul_k8s.Base.Dict
use consul_k8s.ConfigEntry.{Condition, Object, Config, found, Setting, World}
use consul_k8s.ConfigEntry.Reconcile.{entry_namespace, reconcile_entry}
use consul_k8s.ConfigEntry.Plan.{namespace_of}
use consul_k8s.ConfigEntry.Convergence.{
  IsLawfulStore, IsSameResource, reconcile_entry-IsSynced, reconcile_entry_again,
}
use consul_k8s.ConfigEntry.ExportedServices.{
  ExportedServicesSpec, ExportedServicesConfigEntry, to_consul, exported_services,
}
use consul_k8s.ConfigEntry.ExportedServices.Lawful.{
  IsEntryEquality, map-service_to_consul, exported_services-IsLawfulKind,
}

module _ (equal : ExportedServicesConfigEntry → ExportedServicesConfigEntry → Bool)
    (get_namespace : ExportedServicesConfigEntry → String)
    (E : Setting (exported_services equal get_namespace)) (c : Config) where
  -- Consul has the entry of the resource, with its services and the mark of this datacenter.
  abbrev pub IsExported : Object ExportedServicesSpec → E.Consul → Type 0
  IsExported o s =
      (e : ExportedServicesConfigEntry) × (E.entry_api.get s "exported-services" o.name
          (namespace_of E c o)
        ≡ ok e)
      × (e.name ≡ o.name)
      × (e.services ≡ o.spec.services)
      × (Dict.get "consul.hashicorp.com/source-datacenter" e.meta ≡ c.datacenter_name)

module _ (equal : ExportedServicesConfigEntry → ExportedServicesConfigEntry → Bool)
    (get_namespace : ExportedServicesConfigEntry → String) (l : IsEntryEquality equal)
    (E : Setting (exported_services equal get_namespace)) (c : Config) (LS : IsLawfulStore E) where
  -- A reconcile of a resource ExportedServices that carries the finalizer and is not being deleted, if it
  -- returns no error, leaves in Consul an entry of the kind exported-services under the resource's name,
  -- with all of its services, their namespaces and their consumers, and with this datacenter as its
  -- source. Consul gives back an entry as it was written, and `cmp.Equal` compares names and services.
  pub reconcile_entry-IsExported :
      (name ns : String) (o : Object ExportedServicesSpec) (w : World E)
      → E.kube_api.get w.kube name ns ≡ found o
      → E.server_state ≡ none
      → E.new_client ≡ none
      → o.deleting ≡ false
      → contains o.finalizers "finalizers.consul.hashicorp.com" ≡ true
      → (reconcile_entry E c name ns w).1 ≡ none
      → IsExported equal get_namespace E c o (reconcile_entry E c name ns w).0.consul
  reconcile_entry-IsExported name ns o w here server client live ours done =
      let y =
        reconcile_entry-IsSynced E c (exported_services-IsLawfulKind equal get_namespace l) LS name
          ns o w here server client live ours done in
      let (same_name, same_services) = l.of_equal (to_consul "" o) y.stored y.matches in
      (
        y.stored,
        y.stored_here,
        sym same_name,
        sym same_services ∙ map-service_to_consul o.spec.services,
        y.owned,
      )

  -- After such a reconcile, further ones of the same resource leave Consul alone, whatever the first has
  -- written to its conditions and the time of its last synchronisation.
  pub reconcile_entry_again-exported :
      (name ns : String) (o : Object ExportedServicesSpec) (cs : List Condition) (time : Option ℕ)
      (w w' : World E)
      → E.kube_api.get w.kube name ns ≡ found o
      → E.server_state ≡ none
      → E.new_client ≡ none
      → o.deleting ≡ false
      → contains o.finalizers "finalizers.consul.hashicorp.com" ≡ true
      → (reconcile_entry E c name ns w).1 ≡ none
      → E.kube_api.get w'.kube name ns
        ≡ found (record o { conditions = cs; last_synced_time = time })
      → w'.consul ≡ (reconcile_entry E c name ns w).0.consul
      → (reconcile_entry E c name ns w').0.consul ≡ w'.consul
  unfolding entry_namespace
  reconcile_entry_again-exported name ns o cs time w w' here server client live ours done =
      let same : IsSameResource E c o (record o { conditions = cs; last_synced_time = time }) =
        record {
          same_key = λ s. refl;
          same_spec = λ e. refl;
          same_deleting = refl;
          same_finalizers = refl;
        } in
      reconcile_entry_again E c (exported_services-IsLawfulKind equal get_namespace l) LS name ns o
        (record o { conditions = cs; last_synced_time = time }) w w' here server client live ours
        done same
