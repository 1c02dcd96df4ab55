-- ===== src/ConnectInject/Upstreams/RoundTrip.antt =====
-- How control-plane/connect-inject/controllers/endpoints/endpoints_controller.go reads back a list of
-- labeled upstreams.
use consul_k8s.Base.{◌≡◌, refl, ap, String, true, false, some, List, [], ◌∷◌}
use consul_k8s.Base.{map, ◌==◌, ◌||◌, All, string_dec, ok, arith}
use consul_k8s.Base.Int.{is_positive}
use consul_k8s.Base.Strings.{Chars, chars, trim_space, split, split_n, contains_char, chars-text}
use consul_k8s.Base.Strings.Join.{
  join, Lacks, contains_char-append, contains_char-join, split-join, split_n-pair,
  contains_char-trim_space,
}
use consul_k8s.Base.Dict.{lookup}
use consul_k8s.ConnectInject.{Pod}
use consul_k8s.ConnectInject.Outcome.{done}
use consul_k8s.ConnectInject.Upstreams.{
  Settings, trim, labeled_place, process_labeled_upstream, is_labeled, process_upstream,
  process_each, get_multi_port_idx, process_upstreams, annotation_upstreams,
}
use consul_k8s.ConnectInject.Upstreams.Labeled.{
  at_port-at_place, All-map, Destination, IsDestination, address, more_pieces, pieces-IsPart,
  place_of, place_read, print_destination, print_destinations, upstream_of,
}

module _ (d : Destination) (h : IsDestination d) where
  address-pieces : split 46 (address d) ≡ d.service ∷ more_pieces d
  address-pieces =
      split-join 46 "." d.service (more_pieces d) refl
        (All-map (d.service ∷ more_pieces d) (λ s p. p.no_dot) (pieces-IsPart d h))

  address-no_colon : Lacks 58 (address d)
  address-no_colon =
      contains_char-join 58 "." (d.service ∷ more_pieces d) refl
        (All-map (d.service ∷ more_pieces d) (λ s p. p.no_colon) (pieces-IsPart d h))

  address-no_comma : Lacks 44 (address d)
  address-no_comma =
      contains_char-join 44 "." (d.service ∷ more_pieces d) refl
        (All-map (d.service ∷ more_pieces d) (λ s p. p.no_comma) (pieces-IsPart d h))

  print_destination-parts : split_n 2 58 (print_destination d) ≡ address d ∷ d.port ∷ []
  print_destination-parts =
      split_n-pair 1 58 ":" (address d) d.port refl address-no_colon h.port_part.no_colon

  print_destination-no_comma : Lacks 44 (print_destination d)
  unfolding contains_char
  print_destination-no_comma = ground (
    arith,
    address-no_comma,
    h.port_part.no_comma,
    contains_char-append 44 (address d) (":" ∷ d.port),
  )

  -- The address has a dot, so that it is no prepared query.
  address-dot : contains_char 46 (address d) ≡ true
  unfolding contains_char
  address-dot = ground (arith, contains_char-append 46 d.service ("." ∷ join "." (more_pieces d)))

  address-ne : (trim (address d) == "prepared_query") ≡ false
  unfolding contains_char
  address-ne = elim (string_dec (trim (address d)) "prepared_query") [
    | no other ↦ ground (arith, other)
    | yes e ↦ absurd (
        ground (
          arith,
          address-dot,
          contains_char-trim_space (address d),
          ap (λ s. contains_char 46 (chars s)) e,
          ap (contains_char 46) (chars-text (trim_space (address d))),
        ))
  ]

  address-is_labeled : is_labeled (address d) ≡ true
  unfolding string_dec
  address-is_labeled = rw (is_labeled, address-pieces) refl

  -- The pieces are read back in their places.
  labeled_place-pieces :
      (raw : Chars) → labeled_place raw (d.service ∷ more_pieces d) ≡ ok (place_of d)
  labeled_place-pieces raw =
      place_read raw d.service d.namespace d.scope h.service_part h.namespace_part h.scope_part

  process_upstream-print :
      (c : Settings) (pod : Pod)
      → (c.enable_consul_namespaces || c.enable_consul_partitions) ≡ true
      → process_upstream c pod (print_destination d) ≡ done (upstream_of pod d)
  unfolding process_upstream process_labeled_upstream
  process_upstream-print c pod enabled =
      rw
        (
          print_destination-parts,
          address-ne,
          address-is_labeled,
          process_labeled_upstream,
          print_destination-parts,
          enabled,
          address-pieces,
          labeled_place-pieces (print_destination d),
          h.port_part.trimmed,
        )
        (ap done (at_port-at_place pod d))

process_each-print :
    (c : Settings) (pod : Pod) (ds : List Destination)
    → (c.enable_consul_namespaces || c.enable_consul_partitions) ≡ true
    → All IsDestination ds
    → process_each c pod (map print_destination ds) ≡ done (map (upstream_of pod) ds)
unfolding process_each
process_each-print c pod [] enabled h = refl
process_each-print c pod (d ∷ ds) enabled h =
    rw (process_upstream-print d h.0 c pod enabled, process_each-print c pod ds enabled h.1) refl

print_destinations-commas :
    (ds : List Destination) → All IsDestination ds → All (Lacks 44) (map print_destination ds)
print_destinations-commas [] h = tt
print_destinations-commas (d ∷ ds) h =
    (print_destination-no_comma d h.0, print_destinations-commas ds h.1)

-- An annotation with a destination has a colon, so that it is not empty.
print_destinations-colon :
    (d : Destination) (ds : List Destination)
    → contains_char 58 (join "," (map print_destination (d ∷ ds))) ≡ true
unfolding contains_char
print_destinations-colon d [] = ground (arith, contains_char-append 58 (address d) (":" ∷ d.port))
print_destinations-colon d (e ∷ ds) = ground (
  arith,
  contains_char-append 58 (address d) (":" ∷ d.port),
  contains_char-append 58 (print_destination d) ("," ∷ join "," (map print_destination (e ∷ ds))),
)

print_destinations-ne :
    (d : Destination) (ds : List Destination) → (print_destinations (d ∷ ds) == "") ≡ false
unfolding contains_char
print_destinations-ne d ds = elim (string_dec (print_destinations (d ∷ ds)) "") [
  | no other ↦ ground (arith, other)
  | yes e ↦ absurd (
      ground (
        arith,
        print_destinations-colon d ds,
        ap (λ s. contains_char 58 (chars s)) e,
        ap (contains_char 58) (chars-text (join "," (map print_destination (d ∷ ds)))),
      ))
]

-- processUpstreams reads back labeled upstreams: with namespaces or partitions enabled, for a pod whose
-- annotation is made of destinations in that format, joined by commas, and unless the pod's upstreams
-- belong to another of its services, it returns one upstream for each, in their order: the empty one if
-- PortValue reads no positive port, and otherwise one of the type service with the destination's name,
-- namespace and peer, partition or datacenter, at that port. The parts have no comma, dot, colon or space
-- at their ends.
pub process_upstreams-print_destinations :
    (c : Settings) (pod : Pod) (endpoints : String) (d : Destination) (ds : List Destination)
    → (c.enable_consul_namespaces || c.enable_consul_partitions) ≡ true
    → is_positive (get_multi_port_idx pod endpoints) ≡ false
    → lookup annotation_upstreams pod.annotations ≡ some (print_destinations (d ∷ ds))
    → All IsDestination (d ∷ ds)
    → process_upstreams c pod endpoints ≡ done (map (upstream_of pod) (d ∷ ds))
unfolding process_upstreams
process_upstreams-print_destinations c pod endpoints d ds enabled only annotated h =
    rw
      (
        only,
        annotated,
        print_destinations-ne d ds,
        chars-text (join "," (map print_destination (d ∷ ds))),
        split-join 44 "," (print_destination d) (map print_destination ds) refl
            (print_destinations-commas (d ∷ ds) h),
      )
      (process_each-print c pod (d ∷ ds) enabled h)
