-- ===== src/ConnectInject/Upstreams/Labeled.antt =====
-- Labeled upstreams as text, and how their pieces are read (control-plane/connect-inject/controllers/
-- endpoints/endpoints_controller.go).
use consul_k8s.Base.{◌≡◌, refl, String, true, false, List, [], ◌∷◌, ◌++◌}
use consul_k8s.Base.{map, ◌==◌, All, string_dec, ok, arith, if◌then◌else◌}
use consul_k8s.Base.Int.{is_positive, pos}
use consul_k8s.Base.Strings.{Chars, chars, text, trim_space, contains_char}
use consul_k8s.Base.Strings.Join.{join, Lacks}
use consul_k8s.ConnectInject.{Pod}
use consul_k8s.ConnectInject.Common.{port_value}
use consul_k8s.ConnectInject.Upstreams.{
  Upstream, trim, at_port, at_place, Place, named, scoped, namespaced, labeled_place,
}

-- Where a service is beyond its namespace.
pub data Scope : Type 0 where
  here : Scope
  in_peer in_partition in_datacenter : Chars → Scope

pub record Destination : Type 0 where
  pub service : Chars
  pub namespace : Chars
  pub scope : Scope
  pub port : Chars

abbrev pub scope_pieces : Scope → List Chars
scope_pieces here = []
scope_pieces (in_peer x) = x ∷ chars "peer" ∷ []
scope_pieces (in_partition x) = x ∷ chars "ap" ∷ []
scope_pieces (in_datacenter x) = x ∷ chars "dc" ∷ []

abbrev pub more_pieces : Destination → List Chars
more_pieces d = chars "svc" ∷ d.namespace ∷ chars "ns" ∷ scope_pieces d.scope

abbrev pub address : Destination → Chars
address d = join "." (d.service ∷ more_pieces d)

-- [service].svc.[namespace].ns:[port], with a peer, a partition or a datacenter before the colon.
abbrev pub print_destination : Destination → Chars
print_destination d = address d ++ ":" ∷ d.port

-- The annotation: all of them, with commas between.
abbrev pub print_destinations : List Destination → String
print_destinations ds = text (join "," (map print_destination ds))

abbrev peer_of : Scope → String
peer_of (in_peer x) = text x
peer_of _ = ""

abbrev partition_of : Scope → String
partition_of (in_partition x) = text x
partition_of _ = ""

abbrev datacenter_of : Scope → String
datacenter_of (in_datacenter x) = text x
datacenter_of _ = ""

abbrev pub scope_place : Scope → Place → Place
scope_place here p = p
scope_place (in_peer x) p = record p { peer = text x }
scope_place (in_partition x) p = record p { partition = text x }
scope_place (in_datacenter x) p = record p { datacenter = text x }

abbrev pub place_of : Destination → Place
place_of d = scope_place d.scope (record {
  service = text d.service;
  namespace = text d.namespace;
  partition = "";
  peer = "";
  datacenter = "";
})

-- The upstream that is meant, at the port that PortValue reads.
-- An upstream without a port is empty.
abbrev pub upstream_of : Pod → Destination → Upstream
upstream_of pod d =
    let port = (port_value pod d.port).1 in
    if is_positive port
    then record {
      destination_type = "service";
      destination_partition = partition_of d.scope;
      destination_peer = peer_of d.scope;
      destination_namespace = text d.namespace;
      destination_name = text d.service;
      datacenter = datacenter_of d.scope;
      local_bind_port = port;
    }
    else record {
      destination_type = "";
      destination_partition = "";
      destination_peer = "";
      destination_namespace = "";
      destination_name = "";
      datacenter = "";
      local_bind_port = pos 0;
    }

-- It is the one that the code makes of the place that it reads.
pub at_port-at_place :
    (pod : Pod) (d : Destination)
    → at_port (port_value pod d.port).1 (at_place (place_of d)) ≡ upstream_of pod d
at_port-at_place pod d = ground arith

-- A text that can stand for a name: none of the separators, and no space at its ends.
pub record IsPart (s : Chars) : Type 0 where
  pub no_comma : Lacks 44 s
  pub no_dot : Lacks 46 s
  pub no_colon : Lacks 58 s
  pub trimmed : trim_space s ≡ s

abbrev pub IsScope : Scope → Type 0
IsScope here = Unit
IsScope (in_peer x) = IsPart x
IsScope (in_partition x) = IsPart x
IsScope (in_datacenter x) = IsPart x

pub record IsDestination (d : Destination) : Type 0 where
  pub service_part : IsPart d.service
  pub namespace_part : IsPart d.namespace
  pub scope_part : IsScope d.scope
  pub port_part : IsPart d.port

pub svc-IsPart : IsPart (chars "svc")
unfolding contains_char trim_space
svc-IsPart = record { no_comma = refl; no_dot = refl; no_colon = refl; trimmed = refl }

pub ns-IsPart : IsPart (chars "ns")
unfolding contains_char trim_space
ns-IsPart = record { no_comma = refl; no_dot = refl; no_colon = refl; trimmed = refl }

pub peer-IsPart : IsPart (chars "peer")
unfolding contains_char trim_space
peer-IsPart = record { no_comma = refl; no_dot = refl; no_colon = refl; trimmed = refl }

pub ap-IsPart : IsPart (chars "ap")
unfolding contains_char trim_space
ap-IsPart = record { no_comma = refl; no_dot = refl; no_colon = refl; trimmed = refl }

pub dc-IsPart : IsPart (chars "dc")
unfolding contains_char trim_space
dc-IsPart = record { no_comma = refl; no_dot = refl; no_colon = refl; trimmed = refl }

pub scope_pieces-IsPart : (s : Scope) → IsScope s → All IsPart (scope_pieces s)
scope_pieces-IsPart here h = tt
scope_pieces-IsPart (in_peer x) h = (h, (peer-IsPart, tt))
scope_pieces-IsPart (in_partition x) h = (h, (ap-IsPart, tt))
scope_pieces-IsPart (in_datacenter x) h = (h, (dc-IsPart, tt))

-- None of the pieces has one of the separators.
pub pieces-IsPart : (d : Destination) → IsDestination d → All IsPart (d.service ∷ more_pieces d)
pieces-IsPart d h = (
  h.service_part,
  (svc-IsPart, (h.namespace_part, (ns-IsPart, scope_pieces-IsPart d.scope h.scope_part))),
)

pub All-map :
    {A : Type 0} {P Q : A → Type 0} (xs : List A) → ((x : A) → P x → Q x) → All P xs → All Q xs
All-map [] f h = tt
All-map (x ∷ xs) f h = (f x h.0, All-map xs f h.1)

pub svc_is_svc : (trim (chars "svc") == "svc") ≡ true
unfolding trim_space string_dec
svc_is_svc = refl

pub ns_is_ns : (trim (chars "ns") == "ns") ≡ true
unfolding trim_space string_dec
ns_is_ns = refl

pub peer_is_peer : (trim (chars "peer") == "peer") ≡ true
unfolding trim_space string_dec
peer_is_peer = refl

pub ap_ne_peer : (trim (chars "ap") == "peer") ≡ false
unfolding trim_space string_dec
ap_ne_peer = refl

pub ap_is_ap : (trim (chars "ap") == "ap") ≡ true
unfolding trim_space string_dec
ap_is_ap = refl

pub dc_ne_peer : (trim (chars "dc") == "peer") ≡ false
unfolding trim_space string_dec
dc_ne_peer = refl

pub dc_ne_ap : (trim (chars "dc") == "ap") ≡ false
unfolding trim_space string_dec
dc_ne_ap = refl

pub dc_is_dc : (trim (chars "dc") == "dc") ≡ true
unfolding trim_space string_dec
dc_is_dc = refl

pub namespaced-read :
    (raw s n : Chars)
    → IsPart s
    → IsPart n
    → namespaced raw s (chars "svc") n (chars "ns")
      ≡ ok (record {
        service = text s;
        namespace = text n;
        partition = "";
        peer = "";
        datacenter = "";
      })
unfolding namespaced
namespaced-read raw s n hs hn = rw (ns_is_ns, svc_is_svc, hs.trimmed, hn.trimmed) refl

pub read_peer :
    (raw x : Chars)
    → IsPart x
    → scoped true raw x (chars "peer") (named []) ≡ ok (record (named []) { peer = text x })
unfolding scoped
read_peer raw x h = rw (peer_is_peer, h.trimmed) refl

pub read_partition :
    (raw x : Chars)
    → IsPart x
    → scoped true raw x (chars "ap") (named []) ≡ ok (record (named []) { partition = text x })
unfolding scoped
read_partition raw x h = rw (ap_ne_peer, ap_is_ap, h.trimmed) refl

pub read_datacenter :
    (raw x : Chars)
    → IsPart x
    → scoped true raw x (chars "dc") (named []) ≡ ok (record (named []) { datacenter = text x })
unfolding scoped
read_datacenter raw x h = rw (dc_ne_peer, dc_ne_ap, dc_is_dc, h.trimmed) refl

pub place_read :
    (raw s n : Chars) (scope : Scope)
    → IsPart s
    → IsPart n
    → IsScope scope
    → labeled_place raw (s ∷ chars "svc" ∷ n ∷ chars "ns" ∷ scope_pieces scope)
      ≡ ok (
          scope_place scope (record {
            service = text s;
            namespace = text n;
            partition = "";
            peer = "";
            datacenter = "";
          }))
unfolding labeled_place
place_read raw s n here hs hn h = namespaced-read raw s n hs hn
place_read raw s n (in_peer x) hs hn h = rw (read_peer raw x h, namespaced-read raw s n hs hn) refl
place_read raw s n (in_partition x) hs hn h =
    rw (read_partition raw x h, namespaced-read raw s n hs hn) refl
place_read raw s n (in_datacenter x) hs hn h =
    rw (read_datacenter raw x h, namespaced-read raw s n hs hn) refl
