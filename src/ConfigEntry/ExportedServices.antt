-- ===== src/ConfigEntry/ExportedServices.antt =====
-- control-plane/api/v1alpha1/exportedservices_types.go: the kind ExportedServices, as a kind that the
-- controller of config entries reconciles.
pub mod Lawful
pub mod Synced
use consul_k8s.Base.{String, Bool, true, List, [], ◌∷◌, map}
use consul_k8s.Base.Dict.{Dict}
use consul_k8s.ConfigEntry.{Object, EntryKind}
use consul_k8s.ConfigEntry.Reconcile.{datacenter_key}

-- `ServiceConsumer`, and the type of the same name and fields of Consul's API.
pub record ServiceConsumer : Type 0 where
  pub partition : String
  pub peer : String

-- `ExportedService`, and the type of the same name and fields of Consul's API.
pub record ExportedService : Type 0 where
  pub name : String
  pub namespace : String
  pub consumers : List ServiceConsumer

pub record ExportedServicesSpec : Type 0 where
  pub services : List ExportedService

-- `capi.ExportedServicesConfigEntry`, without the indexes, which the source does not read.
pub record ExportedServicesConfigEntry : Type 0 where
  pub name : String
  pub partition : String
  pub services : List ExportedService
  pub meta : Dict String

-- `meta` of shared_types.go
abbrev pub meta_for : String → Dict String
meta_for datacenter = ("external-source", "kubernetes") ∷ (datacenter_key, datacenter) ∷ []

-- `ExportedService.toConsul`, with its loop over the consumers.
abbrev pub service_to_consul : ExportedService → ExportedService
service_to_consul service = record {
  name = service.name;
  namespace = service.namespace;
  consumers =
      map (λ (c : ServiceConsumer). record { partition = c.partition; peer = c.peer })
        service.consumers;
}

abbrev pub to_consul : String → Object ExportedServicesSpec → ExportedServicesConfigEntry
to_consul datacenter o = record {
  name = o.name;
  partition = "";
  services = map service_to_consul o.spec.services;
  meta = meta_for datacenter;
}

-- `equal` is `cmp.Equal` with the options of the call. Consul answers a read of this kind with an entry
-- of this kind, so that the type of the candidate is the right one.
module _ (equal : ExportedServicesConfigEntry → ExportedServicesConfigEntry → Bool)
    (get_namespace : ExportedServicesConfigEntry → String) where
  abbrev pub matches_consul : Object ExportedServicesSpec → ExportedServicesConfigEntry → Bool
  matches_consul o candidate = equal (to_consul "" o) candidate

  -- The methods of `ExportedServices`. `get_namespace` is a method of Consul's API.
  abbrev pub exported_services : EntryKind
  exported_services = record {
    Spec = ExportedServicesSpec;
    Entry = ExportedServicesConfigEntry;
    to_consul = to_consul;
    matches_consul = matches_consul;
    consul_kind = "exported-services";
    consul_name = λ o. o.name;
    mirroring_ns = λ o. "default";
    global_resource = true;
    get_name = λ e. e.name;
    get_namespace = get_namespace;
    get_meta = λ e. e.meta;
  }
