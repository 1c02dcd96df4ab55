-- ===== src/ConnectInject/Common.antt =====
-- control-plane/connect-inject/common/common.go: what several parts read of a pod.
use Prim.Native.Nat.{◌^◌, ◌%◌}
use consul_k8s.Base.{◌-◌, String, Bool, true, Option, none, some, List, [], ◌∷◌}
use consul_k8s.Base.{◌==◌, if◌then◌else◌, ltb}
use consul_k8s.Base.Int.{ℤ, pos, negsuc}
use consul_k8s.Base.Strings.{Chars, text, split}
use consul_k8s.Base.Strconv.{NumError, parse_int, parse_bool}
use consul_k8s.Base.Dict
use consul_k8s.Base.Dict.{Dict}
use consul_k8s.ConnectInject.{ContainerPort, Container, Pod}

abbrev pub key_transparent_proxy : String
key_transparent_proxy = "consul.hashicorp.com/transparent-proxy"

abbrev pub annotation_overwrite_probes : String
annotation_overwrite_probes = "consul.hashicorp.com/transparent-proxy-overwrite-probes"

-- `int32(v)`, which keeps the low 32 bits.
unfoldable pub int32 : ℤ → ℤ
int32 (pos n) = let m = n % (2 ^ 32) in if ltb m (2 ^ 31) then pos m else negsuc (2 ^ 32 - 1 - m)
int32 (negsuc n) = let m = n % (2 ^ 32) in if ltb m (2 ^ 31) then negsuc m else pos (2 ^ 32 - 1 - m)

-- The first port of that name.
unfoldable pub named_port : String → List ContainerPort → Option ℤ
named_port name [] = none
named_port name (p ∷ ps) =
    let rest = named_port name ps in if p.name == name then some p.container_port else rest

unfoldable pub find_port : String → List Container → Option ℤ
unfolding named_port
find_port name [] = none
find_port name (c ∷ cs) =
    let rest = find_port name cs in
    elim (named_port name c.ports) [ some port ↦ some port | none ↦ rest ]

-- `parts[0]` of a split, which has a part always.
abbrev pub first : List Chars → Chars
first [] = []
first (p ∷ ps) = p

-- `PortValue`, with the error beside the number, which the callers read without it.
unfoldable pub port_value : Pod → Chars → Option NumError × ℤ
unfolding find_port int32
port_value pod value =
    let named = first (split 44 value) in
    elim (find_port (text named) pod.containers) [
      | some port ↦ (none, port)
      | none ↦ (let (e, raw) = parse_int true (2 ^ 31) named in (e, int32 raw))
    ]

-- An annotation or label that ParseBool cannot read is an error, `none`.
unfoldable pub transparent_proxy_enabled : Dict String → Pod → Bool → Option Bool
transparent_proxy_enabled namespace_labels pod global_enabled =
    elim (Dict.lookup key_transparent_proxy pod.annotations) [
      | some raw ↦ parse_bool raw
      | none ↦ elim (Dict.lookup key_transparent_proxy namespace_labels) [
        | some raw ↦ parse_bool raw
        | none ↦ some global_enabled
      ]
    ]

unfoldable pub should_overwrite_probes : Pod → Bool → Option Bool
should_overwrite_probes pod global_overwrite =
    elim (Dict.lookup annotation_overwrite_probes pod.annotations) [
      | some raw ↦ parse_bool raw
      | none ↦ some global_overwrite
    ]
