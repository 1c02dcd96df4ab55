-- ===== src/Catalog/ServiceResource/Generate.antt =====
-- The instances of a service: the second half of `generateRegistrations` of
-- control-plane/catalog/to-consul/resource.go, and `registerServiceInstance`.
pub mod Candidates
pub mod Loops
pub mod Instances
use consul_k8s.Base.{
  String, ◌<>◌, Bool, true, false, not, ◌&&◌, ◌||◌, Option, none, some, List, [], ◌∷◌, ◌++◌,
}
use consul_k8s.Base.{◌==◌, if◌then◌else◌, contains, get_or, is_some, Result, ok, err}
use consul_k8s.Base.Int.{ℤ, pos, int_eq}
use consul_k8s.Base.Dict
use consul_k8s.Base.Dict.{Dict}
use consul_k8s.Catalog.ConsulSyncer.{Registration}
use consul_k8s.Catalog.ServiceResource.{
  Service, cluster_ip, node_port, load_balancer, external_name, Ingress, EndpointAddress,
  EndpointPort, Subset, Endpoints, NodeAddressType, internal_ip, external_ip, hostname_address,
  NodePortSyncType, external_only, external_first, internal_only, Reader, Settings, ServiceResource,
}
use consul_k8s.Catalog.ServiceResource.BaseService.{PortOverride, port_override, base_service}

abbrev pub consul_k8s_ref_kind : String
consul_k8s_ref_kind = "external-k8s-ref-kind"

abbrev pub consul_k8s_ref_value : String
consul_k8s_ref_value = "external-k8s-ref-name"

abbrev pub consul_k8s_node_name : String
consul_k8s_node_name = "external-k8s-node-name"

-- `serviceID`
abbrev pub service_id : Reader → String → String → String
service_id rd name addr = name <> "-" <> rd.short_hash (name <> "-" <> addr)

-- A copy of the base for one instance. The identifier is made of the second address.
abbrev pub at_address : Reader → Registration → String → String → Registration
at_address rd base id_address address = record base {
  id = service_id rd base.service id_address;
  address = address;
}

abbrev pub Registrations : Type 0
Registrations = Dict (List Registration)

-- `t.consulMap[key] = append(t.consulMap[key], &r)`
unfoldable pub add : String → Registration → Registrations → Registrations
add key r m = Dict.insert key (get_or (Dict.lookup key m) [] ++ r ∷ []) m

unfoldable pub add_external_ips :
    Reader → Registration → String → List String → Registrations → Registrations
unfolding add
add_external_ips rd base key [] m = m
add_external_ips rd base key (ip ∷ ips) m =
    add_external_ips rd base key ips (add key (at_address rd base ip ip) m)

-- The loop over the ingress points of a load balancer, with the addresses seen.
unfoldable pub add_ingress :
    Reader → Registration → String → List String → List Ingress → Registrations → Registrations
unfolding add
add_ingress rd base key seen [] m = m
add_ingress rd base key seen (i ∷ is) m =
    let addr = if i.ip == "" then i.hostname else i.ip in
    let skip = addr == "" || contains seen addr in
    add_ingress rd base key (if skip then seen else addr ∷ seen) is
      (if skip then m else add key (at_address rd base addr addr) m)

abbrev pub same_type : NodeAddressType → NodeAddressType → Bool
same_type internal_ip internal_ip = true
same_type external_ip external_ip = true
same_type hostname_address hostname_address = true
same_type _ _ = false

-- The loops over the addresses of a node, which end at the first of the type.
unfoldable pub first_of_type : NodeAddressType → List (NodeAddressType × String) → Option String
first_of_type kind [] = none
first_of_type kind ((k, address) ∷ rest) =
    if same_type k kind then some address else first_of_type kind rest

abbrev pub expected_type : NodePortSyncType → NodeAddressType
expected_type internal_only = internal_ip
expected_type _ = external_ip

-- The address of the node that is synced, if there is one.
unfoldable pub node_address : NodePortSyncType → List (NodeAddressType × String) → Option String
unfolding first_of_type
node_address mode addresses = elim (first_of_type (expected_type mode) addresses) [
  | some address ↦ some address
  | none ↦ elim mode [ external_first ↦ first_of_type internal_ip addresses | _ ↦ none ]
]

-- The address of the node of an endpoint: the endpoint has no node, the node cannot be read, or it
-- has no such address.
unfoldable pub node_of : Settings → Reader → EndpointAddress → Option String
unfolding node_address
node_of c rd a = elim a.node_name [
  | none ↦ none
  | some name ↦ elim (rd.node name) [
    | err e ↦ none
    | ok addresses ↦ node_address c.node_port_sync addresses
  ]
]

unfoldable pub add_node_ports :
    Settings → Reader → Registration → String → List EndpointAddress → Registrations → Registrations
unfolding add node_of
add_node_ports c rd base key [] m = m
add_node_ports c rd base key (a ∷ more) m =
    add_node_ports c rd base key more (elim (node_of c rd a) [
      | none ↦ m
      | some address ↦ add key (at_address rd base a.ip address) m
    ])

unfoldable pub add_node_port_subsets :
    Settings → Reader → Registration → String → Endpoints → Registrations → Registrations
unfolding add_node_ports
add_node_port_subsets c rd base key [] m = m
add_node_port_subsets c rd base key (s ∷ ss) m =
    add_node_port_subsets c rd base key ss (add_node_ports c rd base key s.addresses m)

-- `epPort`
unfoldable pub port_of_name : String → List EndpointPort → ℤ → ℤ
port_of_name name [] port = port
port_of_name name (p ∷ ps) port = if name == p.name then p.port else port_of_name name ps port

unfoldable pub ep_port : PortOverride → ℤ → List EndpointPort → ℤ
unfolding port_of_name
ep_port o port ports =
    if not (o.name == "")
    then port_of_name o.name ports port
    else if int_eq o.number (pos 0)
    then elim ports [ [] ↦ port | p ∷ _ ↦ p.port ]
    else port

abbrev pub ref_meta : EndpointAddress → Dict String → Dict String
ref_meta a meta =
    let with_ref : Dict String = elim a.target_ref [
      | none ↦ meta
      | some (kind, name) ↦
          Dict.insert consul_k8s_ref_kind kind (Dict.insert consul_k8s_ref_value name meta)
    ] in
    elim a.node_name [
      | none ↦ with_ref
      | some node ↦ Dict.insert consul_k8s_node_name node with_ref
    ]

-- The address of an instance, which may be empty.
abbrev pub instance_address : Bool → EndpointAddress → String
instance_address use_hostname a = if a.ip == "" && use_hostname then a.hostname else a.ip

abbrev pub instance_at : Reader → Registration → ℤ → EndpointAddress → String → Registration
instance_at rd base port a addr = record (at_address rd base addr addr) {
  port = port;
  meta = ref_meta a base.meta;
}

-- The inner loop of `registerServiceInstance`, with the addresses seen.
unfoldable pub add_addresses :
    Reader
    → Registration
    → String
    → Bool
    → ℤ
    → List EndpointAddress
    → List String × Registrations
    → List String × Registrations
unfolding add
add_addresses rd base key use_hostname port [] r = r
add_addresses rd base key use_hostname port (a ∷ more) (seen, m) =
    let addr = instance_address use_hostname a in
    let skip = addr == "" || contains seen addr in
    add_addresses rd base key use_hostname port more
      (if skip then (seen, m) else (addr ∷ seen, add key (instance_at rd base port a addr) m))

unfoldable pub add_subsets :
    Reader
    → Registration
    → String
    → Bool
    → PortOverride
    → Endpoints
    → List String × Registrations
    → List String × Registrations
unfolding add_addresses ep_port
add_subsets rd base key use_hostname o [] r = r
add_subsets rd base key use_hostname o (s ∷ ss) r =
    add_subsets rd base key use_hostname o ss
      (add_addresses rd base key use_hostname (ep_port o base.port s.ports) s.addresses r)

unfoldable pub register_service_instance :
    Reader
    → Registration
    → String
    → Bool
    → PortOverride
    → Option Endpoints
    → Registrations
    → Registrations
unfolding add_subsets
register_service_instance rd base key use_hostname o none m = m
register_service_instance rd base key use_hostname o (some endpoints) m =
    (add_subsets rd base key use_hostname o endpoints ([], m)).1

-- The `switch` over the type of the service, after the case of external IPs.
unfoldable pub add_by_type :
    Settings
    → Reader
    → Registration
    → String
    → Service
    → Option Endpoints
    → Registrations
    → Registrations
unfolding add_ingress add_node_port_subsets register_service_instance
add_by_type c rd base key svc endpoints m = elim svc.kind [
  | load_balancer ↦
      if c.load_balancer_endpoints_sync
      then register_service_instance rd base key false (port_override svc) endpoints m
      else add_ingress rd base key [] svc.ingress m
  | node_port ↦ elim endpoints [
    | none ↦ m
    | some subsets ↦ add_node_port_subsets c rd base key subsets m
  ]
  | cluster_ip ↦ register_service_instance rd base key true (port_override svc) endpoints m
  | external_name ↦ m
]

unfoldable pub generate_registrations :
    Settings → Reader → String → ServiceResource → ServiceResource
unfolding add_external_ips add_by_type base_service
generate_registrations c rd key t = elim (Dict.lookup key t.service_map) [
  | none ↦ t
  | some svc ↦
      let cleared = Dict.erase key t.consul_map in
      let base = base_service c svc in
      record t {
        consul_map = elim svc.external_ips [
          | _ ∷ _ ↦ add_external_ips rd base key svc.external_ips cleared
          | [] ↦ add_by_type c rd base key svc (Dict.lookup key t.endpoints_map) cleared
        ];
      }
]
