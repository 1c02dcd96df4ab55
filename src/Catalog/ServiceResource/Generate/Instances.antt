-- ===== src/Catalog/ServiceResource/Generate/Instances.antt =====
-- The registrations of a service are its instances (control-plane/catalog/to-consul/resource.go).
use mathlib.Core.List.{append-nil, append_assoc}
use consul_k8s.Base.{◌≡◌, refl, sym, ap, String, Option, none, some, arith}
use consul_k8s.Base.{List, [], ◌∷◌, ◌++◌}
use consul_k8s.Base.{◌==◌, if◌then◌else◌, get_or, string_dec}
use consul_k8s.Base.Dict.{lookup, erase, lookup-insert, lookup-erase}
use consul_k8s.Catalog.ConsulSyncer.{Registration}
use consul_k8s.Catalog.ServiceResource.{Service, Reader, Settings, ServiceResource}
use consul_k8s.Catalog.ServiceResource.BaseService.{base_service}
use consul_k8s.Catalog.ServiceResource.Generate.{Registrations, add, generate_registrations}
use consul_k8s.Catalog.ServiceResource.Generate.Candidates.{
  external_instances, typed_instances, instances, nonempty,
}
use consul_k8s.Catalog.ServiceResource.Generate.Loops.{add_all, add_external_ips-eq, add_by_type-eq}

abbrev appended : Option (List Registration) → List Registration → Option (List Registration)
appended old [] = old
appended old (r ∷ rs) = some (get_or old [] ++ r ∷ rs)

appended-some : (xs rs : List Registration) → appended (some xs) rs ≡ some (xs ++ rs)
appended-some xs [] = ap some (sym (append-nil xs))
appended-some xs (r ∷ rs) = refl

lookup-add_all :
    (j key : String) (rs : List Registration) (m : Registrations)
    → lookup j (add_all key rs m) ≡ (if j == key then appended (lookup key m) rs else lookup j m)
unfolding add
lookup-add_all j key [] m = elim (string_dec j key) [
  | yes same ↦ rw same (ground arith)
  | no other ↦ ground arith
]
lookup-add_all j key (r ∷ rs) m =
    let old = get_or (lookup key m) [] in
    ground (
      arith,
      lookup-add_all j key rs (add key r m),
      lookup-insert j key (old ++ r ∷ []) m,
      lookup-insert key key (old ++ r ∷ []) m,
      appended-some (old ++ r ∷ []) rs,
      append_assoc old (r ∷ []) rs,
    )

appended-none : (rs : List Registration) → appended none rs ≡ nonempty rs
appended-none [] = refl
appended-none (r ∷ rs) = refl

lookup-add_all_cleared :
    (j key : String) (rs : List Registration) (m : Registrations)
    → lookup j (add_all key rs (erase key m)) ≡ (if j == key then nonempty rs else lookup j m)
lookup-add_all_cleared j key rs m = ground (
  arith,
  lookup-add_all j key rs (erase key m),
  lookup-erase j key m,
  lookup-erase key key m,
  appended-none rs,
)

pub generate_registrations_frame :
    (c : Settings) (rd : Reader) (key : String) (t : ServiceResource)
    → generate_registrations c rd key t
      ≡ record t { consul_map = (generate_registrations c rd key t).consul_map }
unfolding generate_registrations
generate_registrations_frame c rd key t = ground arith

-- For a service that is known, the generation replaces what is registered under its key by the
-- instances of the service, or by nothing if it has none, and leaves all other keys.
pub lookup-generate_registrations :
    (c : Settings) (rd : Reader) (key j : String) (svc : Service) (t : ServiceResource)
    → lookup key t.service_map ≡ some svc
    → lookup j (generate_registrations c rd key t).consul_map ≡ (
        if j == key
        then nonempty (instances c rd svc (lookup key t.endpoints_map))
        else lookup j t.consul_map)
unfolding generate_registrations
lookup-generate_registrations c rd key j svc t known =
    let base = base_service c svc in
    let endpoints = lookup key t.endpoints_map in
    let cleared = erase key t.consul_map in
    rw (known, generate_registrations)
      (ground (
        arith,
        add_external_ips-eq rd base key svc.external_ips cleared,
        add_by_type-eq c rd base key svc endpoints cleared,
        lookup-add_all_cleared j key (external_instances rd base svc.external_ips) t.consul_map,
        lookup-add_all_cleared j key (typed_instances c rd base svc endpoints) t.consul_map,
      ))
