-- ===== src/ConfigEntry/ExportedServices/Lawful.antt =====
-- The methods ToConsul and MatchesConsul of ExportedServices fit together
-- (control-plane/api/v1alpha1/exportedservices_types.go).
use consul_k8s.Base.{◌≡◌, refl, String, Bool, true, List, [], ◌∷◌, map, string_dec}
use consul_k8s.Base.Dict.{lookup}
use consul_k8s.ConfigEntry.Convergence.{IsLawfulKind}
use consul_k8s.ConfigEntry.ExportedServices.{
  ServiceConsumer, ExportedService, ExportedServicesConfigEntry, service_to_consul, to_consul,
  exported_services,
}

-- `cmp.Equal` compares the names and the services: the fields Partition and Meta, and the indexes, are
-- among the ignored ones.
pub record IsEntryEquality
    (equal : ExportedServicesConfigEntry → ExportedServicesConfigEntry → Bool) : Type 0 where
  pub equal_of :
      (a b : ExportedServicesConfigEntry)
      → a.name ≡ b.name
      → a.services ≡ b.services
      → equal a b ≡ true
  pub of_equal :
      (a b : ExportedServicesConfigEntry)
      → equal a b ≡ true
      → (a.name ≡ b.name) × (a.services ≡ b.services)

map-consumers :
    (cs : List ServiceConsumer)
    → map (λ (c : ServiceConsumer). record { partition = c.partition; peer = c.peer }) cs ≡ cs
map-consumers [] = refl
map-consumers (c ∷ cs) = rw (map-consumers cs) refl

-- Nothing of a service is lost on the way.
pub map-service_to_consul : (ss : List ExportedService) → map service_to_consul ss ≡ ss
map-service_to_consul [] = refl
map-service_to_consul (s ∷ ss) = rw (map-consumers s.consumers, map-service_to_consul ss) refl

module _ (equal : ExportedServicesConfigEntry → ExportedServicesConfigEntry → Bool)
    (get_namespace : ExportedServicesConfigEntry → String) (l : IsEntryEquality equal) where
  pub exported_services-IsLawfulKind : IsLawfulKind (exported_services equal get_namespace)
  unfolding lookup string_dec
  exported_services-IsLawfulKind = record {
    name-to_consul = λ dc o. refl;
    owner-to_consul = λ dc o. refl;
    matches-to_consul = λ dc o. l.equal_of (to_consul "" o) (to_consul dc o) refl refl;
  }
