-- ===== src/Catalog/ServiceResource/Generate/Candidates.antt =====
-- What `generateRegistrations` of control-plane/catalog/to-consul/resource.go computes, said without
-- its loops: the instances of a service as a list.
use consul_k8s.Base.{String, Bool, true, false, Option, none, some}
use consul_k8s.Base.{List, [], ◌∷◌}
use consul_k8s.Base.{◌==◌, if◌then◌else◌}
use consul_k8s.Base.Int.{ℤ}
use consul_k8s.Catalog.ConsulSyncer.{Registration}
use consul_k8s.Catalog.ServiceResource.{
  Service, cluster_ip, node_port, load_balancer, external_name, Ingress, EndpointAddress, Endpoints,
  Reader, Settings,
}
use consul_k8s.Catalog.ServiceResource.BaseService.{PortOverride, port_override, base_service}
use consul_k8s.Catalog.ServiceResource.Generate.{
  at_address, node_of, ep_port, instance_address, instance_at,
}

-- An instance with its address.
abbrev pub Candidates : Type 0
Candidates = List (String × Registration)

abbrev pub drop_address : String → Candidates → Candidates
drop_address a [] = []
drop_address a ((b, r) ∷ cs) =
    let rest = drop_address a cs in if a == b then rest else (b, r) ∷ rest

-- The first candidate of each address, without those that have none.
abbrev pub distinct : Candidates → Candidates
distinct [] = []
distinct ((a, r) ∷ cs) =
    let rest = distinct cs in if a == "" then rest else (a, r) ∷ drop_address a rest

abbrev pub registrations : Candidates → List Registration
registrations [] = []
registrations ((_, r) ∷ cs) = r ∷ registrations cs

abbrev pub ingress_candidates : Reader → Registration → List Ingress → Candidates
ingress_candidates rd base [] = []
ingress_candidates rd base (i ∷ is) =
    let addr = if i.ip == "" then i.hostname else i.ip in
    (addr, at_address rd base addr addr) ∷ ingress_candidates rd base is

abbrev pub address_candidates :
    Reader → Registration → Bool → ℤ → List EndpointAddress → Candidates → Candidates
address_candidates rd base use_hostname port [] cs = cs
address_candidates rd base use_hostname port (a ∷ more) cs =
    let addr = instance_address use_hostname a in
    (addr, instance_at rd base port a addr) ∷ address_candidates rd base use_hostname port more cs

abbrev pub subset_candidates : Reader → Registration → Bool → PortOverride → Endpoints → Candidates
subset_candidates rd base use_hostname o [] = []
subset_candidates rd base use_hostname o (s ∷ ss) =
    address_candidates rd base use_hostname (ep_port o base.port s.ports) s.addresses
      (subset_candidates rd base use_hostname o ss)

-- One instance for each endpoint whose node has an address, under the address of the endpoint.
abbrev pub node_instances :
    Settings → Reader → Registration → List EndpointAddress → List Registration → List Registration
node_instances c rd base [] rs = rs
node_instances c rd base (a ∷ more) rs = elim (node_of c rd a) [
  | none ↦ node_instances c rd base more rs
  | some address ↦ at_address rd base a.ip address ∷ node_instances c rd base more rs
]

abbrev pub subset_instances : Settings → Reader → Registration → Endpoints → List Registration
subset_instances c rd base [] = []
subset_instances c rd base (s ∷ ss) =
    node_instances c rd base s.addresses (subset_instances c rd base ss)

abbrev pub endpoint_instances :
    Reader → Registration → Bool → PortOverride → Option Endpoints → List Registration
endpoint_instances rd base use_hostname o none = []
endpoint_instances rd base use_hostname o (some endpoints) =
    registrations (distinct (subset_candidates rd base use_hostname o endpoints))

abbrev pub external_instances : Reader → Registration → List String → List Registration
external_instances rd base [] = []
external_instances rd base (ip ∷ ips) = at_address rd base ip ip ∷ external_instances rd base ips

abbrev pub typed_instances :
    Settings → Reader → Registration → Service → Option Endpoints → List Registration
typed_instances c rd base svc endpoints = elim svc.kind [
  | load_balancer ↦
      if c.load_balancer_endpoints_sync
      then endpoint_instances rd base false (port_override svc) endpoints
      else registrations (distinct (ingress_candidates rd base svc.ingress))
  | node_port ↦ elim endpoints [ none ↦ [] | some subsets ↦ subset_instances c rd base subsets ]
  | cluster_ip ↦ endpoint_instances rd base true (port_override svc) endpoints
  | external_name ↦ []
]

-- External IPs come before all else.
abbrev pub instances : Settings → Reader → Service → Option Endpoints → List Registration
instances c rd svc endpoints = elim svc.external_ips [
  | _ ∷ _ ↦ external_instances rd (base_service c svc) svc.external_ips
  | [] ↦ typed_instances c rd (base_service c svc) svc endpoints
]

abbrev pub nonempty : List Registration → Option (List Registration)
nonempty [] = none
nonempty (r ∷ rs) = some (r ∷ rs)
