-- ===== src/Catalog/ServiceResource/Generate/Loops.antt =====
-- The loops of `generateRegistrations` (control-plane/catalog/to-consul/resource.go) add what the
-- lists of instances have.
use consul_k8s.Base.{◌≡◌, refl, ap, ◌∙◌, String, Bool, true, false, ◌||◌, Option, none, some, arith}
use consul_k8s.Base.{List, [], ◌∷◌, inl, inr, Bool-cases, Option-cases}
use consul_k8s.Base.{◌==◌, if◌then◌else◌, contains, get_or, string_dec}
use consul_k8s.Base.Int.{ℤ}
use consul_k8s.Catalog.ConsulSyncer.{Registration}
use consul_k8s.Catalog.ServiceResource.{
  Service, Ingress, EndpointAddress, Endpoints, Reader, Settings,
}
use consul_k8s.Catalog.ServiceResource.BaseService.{PortOverride, port_override}
use consul_k8s.Catalog.ServiceResource.Generate.{
  Registrations, at_address, add, add_external_ips, add_ingress, node_of, add_node_ports,
  add_node_port_subsets, ep_port, instance_address, instance_at, add_addresses, add_subsets,
  register_service_instance, add_by_type,
}
use consul_k8s.Catalog.ServiceResource.Generate.Candidates.{
  Candidates, drop_address, distinct, registrations, ingress_candidates, address_candidates,
  subset_candidates, node_instances, subset_instances, endpoint_instances, external_instances,
  typed_instances,
}

abbrev pub add_all : String → List Registration → Registrations → Registrations
add_all key [] m = m
add_all key (r ∷ rs) m = add_all key rs (add key r m)

-- The loops keep the candidates whose address is new.
abbrev pub kept : List String → Candidates → List Registration
kept seen [] = []
kept seen ((a, r) ∷ cs) =
    let skipped = kept seen cs in
    let rest = kept (a ∷ seen) cs in if a == "" || contains seen a then skipped else r ∷ rest

abbrev pub keep_new : List String → Candidates → Candidates
keep_new seen [] = []
keep_new seen ((a, r) ∷ cs) =
    let rest = keep_new seen cs in if contains seen a then rest else (a, r) ∷ rest

keep_new-drop :
    (a : String) (seen : List String) (cs : Candidates)
    → keep_new (a ∷ seen) cs ≡ keep_new seen (drop_address a cs)
keep_new-drop a seen [] = refl
keep_new-drop a seen ((b, r) ∷ cs) = ground (arith, keep_new-drop a seen cs)

keep_new-skip :
    (a : String) (seen : List String) (cs : Candidates)
    → contains seen a ≡ true
    → keep_new seen (drop_address a cs) ≡ keep_new seen cs
keep_new-skip a seen [] h = refl
keep_new-skip a seen ((b, r) ∷ cs) h = elim (string_dec a b) [
  | yes same ↦ rw same (ground (arith, h, same, keep_new-skip a seen cs h))
  | no other ↦ ground (arith, keep_new-skip a seen cs h)
]

kept-distinct :
    (seen : List String) (cs : Candidates)
    → kept seen cs ≡ registrations (keep_new seen (distinct cs))
kept-distinct seen [] = refl
kept-distinct seen ((a, r) ∷ cs) = ground (
  arith,
  kept-distinct seen cs,
  kept-distinct (a ∷ seen) cs,
  keep_new-drop a seen (distinct cs),
  keep_new-skip a seen (distinct cs),
)

keep_new-nil : (cs : Candidates) → keep_new [] cs ≡ cs
keep_new-nil [] = refl
keep_new-nil ((a, r) ∷ cs) = ap (λ l. (a, r) ∷ l) (keep_new-nil cs)

pub add_external_ips-eq :
    (rd : Reader) (base : Registration) (key : String) (ips : List String) (m : Registrations)
    → add_external_ips rd base key ips m ≡ add_all key (external_instances rd base ips) m
unfolding add_external_ips
add_external_ips-eq rd base key [] m = refl
add_external_ips-eq rd base key (ip ∷ ips) m = add_external_ips-eq rd base key ips _

add_ingress-eq :
    (rd : Reader) (base : Registration) (key : String) (seen : List String) (is : List Ingress)
    (m : Registrations)
    → add_ingress rd base key seen is m ≡ add_all key (kept seen (ingress_candidates rd base is)) m
unfolding add_ingress
add_ingress-eq rd base key seen [] m = refl
add_ingress-eq rd base key seen (i ∷ is) m =
    let addr = if i.ip == "" then i.hostname else i.ip in
    elim (Bool-cases (addr == "" || contains seen addr)) [
      | inl e ↦ rw e (add_ingress-eq rd base key seen is m)
      | inr e ↦
          rw e
            (add_ingress-eq rd base key (addr ∷ seen) is (add key (at_address rd base addr addr) m))
    ]

add_node_ports-eq :
    (c : Settings) (rd : Reader) (base : Registration) (key : String) (more : List EndpointAddress)
    (rs : List Registration) (m : Registrations)
    → add_all key rs (add_node_ports c rd base key more m)
      ≡ add_all key (node_instances c rd base more rs) m
unfolding add_node_ports
add_node_ports-eq c rd base key [] rs m = refl
add_node_ports-eq c rd base key (a ∷ more) rs m = elim (Option-cases (node_of c rd a)) [
  | inl e ↦ ground (arith, e, add_node_ports-eq c rd base key more rs m)
  | inr (address, e) ↦ ground (
    arith,
    e,
    add_node_ports-eq c rd base key more rs (add key (at_address rd base a.ip address) m),
  )
]

add_node_port_subsets-eq :
    (c : Settings) (rd : Reader) (base : Registration) (key : String) (ss : Endpoints)
    (m : Registrations)
    → add_node_port_subsets c rd base key ss m ≡ add_all key (subset_instances c rd base ss) m
unfolding add_node_port_subsets
add_node_port_subsets-eq c rd base key [] m = refl
add_node_port_subsets-eq c rd base key (s ∷ ss) m =
    add_node_port_subsets-eq c rd base key ss (add_node_ports c rd base key s.addresses m)
    ∙ add_node_ports-eq c rd base key s.addresses (subset_instances c rd base ss) m

add_addresses-eq :
    (rd : Reader) (base : Registration) (key : String) (use_hostname : Bool) (port : ℤ)
    (more : List EndpointAddress) (cs : Candidates) (seen : List String) (m : Registrations)
    → let (seen', m') = add_addresses rd base key use_hostname port more (seen, m) in
      add_all key (kept seen' cs) m'
      ≡ add_all key (kept seen (address_candidates rd base use_hostname port more cs)) m
unfolding add_addresses
add_addresses-eq rd base key use_hostname port [] cs seen m = refl
add_addresses-eq rd base key use_hostname port (a ∷ more) cs seen m =
    let addr = instance_address use_hostname a in
    elim (Bool-cases (addr == "" || contains seen addr)) [
      | inl e ↦
          rw (e, add_addresses) (add_addresses-eq rd base key use_hostname port more cs seen m)
      | inr e ↦
          rw (e, add_addresses)
            (add_addresses-eq rd base key use_hostname port more cs (addr ∷ seen)
              (add key (instance_at rd base port a addr) m))
    ]

add_subsets-eq :
    (rd : Reader) (base : Registration) (key : String) (use_hostname : Bool) (o : PortOverride)
    (ss : Endpoints) (seen : List String) (m : Registrations)
    → (add_subsets rd base key use_hostname o ss (seen, m)).1
      ≡ add_all key (kept seen (subset_candidates rd base use_hostname o ss)) m
unfolding add_subsets
add_subsets-eq rd base key use_hostname o [] seen m = refl
add_subsets-eq rd base key use_hostname o (s ∷ ss) seen m =
    let (seen', m') =
      add_addresses rd base key use_hostname (ep_port o base.port s.ports) s.addresses (seen, m) in
    add_subsets-eq rd base key use_hostname o ss seen' m'
    ∙ add_addresses-eq rd base key use_hostname (ep_port o base.port s.ports) s.addresses
        (subset_candidates rd base use_hostname o ss) seen m

register_service_instance-eq :
    (rd : Reader) (base : Registration) (key : String) (use_hostname : Bool) (o : PortOverride)
    (endpoints : Option Endpoints) (m : Registrations)
    → register_service_instance rd base key use_hostname o endpoints m
      ≡ add_all key (endpoint_instances rd base use_hostname o endpoints) m
unfolding register_service_instance
register_service_instance-eq rd base key use_hostname o none m = refl
register_service_instance-eq rd base key use_hostname o (some ss) m =
    let cs = subset_candidates rd base use_hostname o ss in
    add_subsets-eq rd base key use_hostname o ss [] m
    ∙ ap (λ rs. add_all key rs m)
        (kept-distinct [] cs ∙ ap registrations (keep_new-nil (distinct cs)))

pub add_by_type-eq :
    (c : Settings) (rd : Reader) (base : Registration) (key : String) (svc : Service)
    (endpoints : Option Endpoints) (m : Registrations)
    → add_by_type c rd base key svc endpoints m
      ≡ add_all key (typed_instances c rd base svc endpoints) m
unfolding add_by_type
add_by_type-eq c rd base key svc endpoints m =
    let cs = ingress_candidates rd base svc.ingress in
    ground (
      arith,
      register_service_instance-eq rd base key false (port_override svc) endpoints m,
      register_service_instance-eq rd base key true (port_override svc) endpoints m,
      add_ingress-eq rd base key [] svc.ingress m,
      kept-distinct [] cs,
      keep_new-nil (distinct cs),
      add_node_port_subsets-eq c rd base key (get_or endpoints []) m,
    )
