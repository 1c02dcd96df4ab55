-- ===== src/Catalog/ServiceResource/BaseService.antt =====
-- What the registrations of a service have in common: the first half of `generateRegistrations` of
-- control-plane/catalog/to-consul/resource.go.
use consul_k8s.Base.{String, ◌<>◌, Bool, true, false, ◌&&◌, none, some, List, [], ◌∷◌}
use consul_k8s.Base.{◌==◌, if◌then◌else◌}
use Prim.Native.Nat.{◌^◌}
use consul_k8s.Base.Int.{ℤ, pos, int_eq, is_positive}
use consul_k8s.Base.Strings.{chars, text, after_prefix, trimmed}
use consul_k8s.Base.Strconv.{parse_int, format_int}
use consul_k8s.Base.Dict
use consul_k8s.Base.Dict.{Dict}
use consul_k8s.Namespaces.{consul_namespace}
use consul_k8s.ParseTags.{parse_tags}
use consul_k8s.Catalog.ConsulSyncer.{Registration}
use consul_k8s.Catalog.ServiceResource.{
  Service, ServiceType, node_port, ServicePort, Settings, add_prefix_and_k8s_namespace,
}

abbrev pub annotation_service_name : String
annotation_service_name = "consul.hashicorp.com/service-name"

abbrev pub annotation_service_port : String
annotation_service_port = "consul.hashicorp.com/service-port"

abbrev pub annotation_service_tags : String
annotation_service_tags = "consul.hashicorp.com/service-tags"

abbrev pub annotation_service_meta_prefix : String
annotation_service_meta_prefix = "consul.hashicorp.com/service-meta-"

abbrev pub consul_source_key : String
consul_source_key = "external-source"

abbrev pub consul_source_value : String
consul_source_value = "kubernetes"

abbrev pub consul_k8s_ns : String
consul_k8s_ns = "external-k8s-ns"

-- `overridePortName` and `overridePortNumber`: a service without ports has neither.
pub record PortOverride : Type 0 where
  pub name : String
  pub number : ℤ

unfoldable pub port_override : Service → PortOverride
port_override svc =
    let no_override : PortOverride = record { name = ""; number = pos 0 } in
    elim svc.ports [
      | [] ↦ no_override
      | _ ∷ _ ↦ elim (Dict.lookup annotation_service_port svc.annotations) [
        | none ↦ no_override
        | some annotation ↦
            (let (e, v) = parse_int true (2 ^ 63) (chars annotation) in
              elim e [
                | none ↦ record { name = ""; number = v }
                | some _ ↦ record { name = annotation; number = pos 0 }
              ])
      ]
    ]

abbrev is_node_port : ServiceType → Bool
is_node_port node_port = true
is_node_port _ = false

-- The port of that name, or 0.
unfoldable pub named_port : Bool → String → List ServicePort → ℤ
named_port is_node name [] = pos 0
named_port is_node name (p ∷ ps) =
    if p.name == name
    then if is_node && is_positive p.node_port then p.node_port else p.port
    else named_port is_node name ps

unfoldable pub first_node_port : List ServicePort → ℤ
first_node_port [] = pos 0
first_node_port (p ∷ ps) = if is_positive p.node_port then p.node_port else first_node_port ps

unfoldable pub service_port : Service → ℤ
unfolding port_override named_port first_node_port
service_port svc = elim svc.ports [
  | [] ↦ pos 0
  | p ∷ _ ↦
      let is_node = is_node_port svc.kind in
      let o = port_override svc in
      let port = if o.name == "" then o.number else named_port is_node o.name svc.ports in
      if int_eq port (pos 0) then if is_node then first_node_port svc.ports else p.port else port
]

unfoldable pub add_port_meta : List ServicePort → Dict String → Dict String
add_port_meta [] meta = meta
add_port_meta (p ∷ ps) meta =
    add_port_meta ps (Dict.insert ("port-" <> p.name) (format_int p.port) meta)

unfoldable pub add_annotation_meta : Dict String → Dict String → Dict String
add_annotation_meta [] meta = meta
add_annotation_meta ((k, v) ∷ rest) meta =
    add_annotation_meta rest (elim (after_prefix (chars annotation_service_meta_prefix) (chars k)) [
      | none ↦ meta
      | some name ↦ Dict.insert (text name) v meta
    ])

-- `baseNode` and `baseService`, before the identifier and the address are set. An empty Consul
-- namespace is the one that a registration has anyway.
unfoldable pub base_service : Settings → Service → Registration
unfolding service_port add_port_meta add_annotation_meta add_prefix_and_k8s_namespace
base_service c svc = record {
  node = c.consul_node_name;
  service = elim (Dict.lookup annotation_service_name svc.annotations) [
    | none ↦ add_prefix_and_k8s_namespace c svc.name svc.namespace
    | some v ↦ trimmed v
  ];
  id = "";
  namespace =
      consul_namespace svc.namespace c.enable_namespaces c.consul_destination_namespace
        c.enable_k8s_ns_mirroring c.k8s_ns_mirroring_prefix;
  address = "";
  port = service_port svc;
  tags = c.consul_k8s_tag ∷ elim (Dict.lookup annotation_service_tags svc.annotations) [
    | none ↦ []
    | some raw ↦ parse_tags raw
  ];
  meta = add_annotation_meta svc.annotations (
      add_port_meta svc.ports
        ((consul_source_key, consul_source_value) ∷ (consul_k8s_ns, svc.namespace) ∷ []));
}
