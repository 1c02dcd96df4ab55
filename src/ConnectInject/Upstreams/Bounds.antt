-- ===== src/ConnectInject/Upstreams/Bounds.antt =====
-- The ports of upstreams (control-plane/connect-inject/controllers/endpoints/endpoints_controller.go
-- and common/common.go).
use Prim.Native.Nat.{◌^◌}
use consul_k8s.Base.{◌≡◌, ◌⊎◌, refl, ℕ, zero, suc, ◌<◌, String, true, Option, none, some, arith}
use mathlib.Core.Path.{subst}
use consul_k8s.Base.{
  List, [], ◌∷◌, All, inl, inr, Bool-cases, Option-cases, Result-cases, if◌then◌else◌, ◌==◌,
}
use consul_k8s.Base.{◌||◌}
use consul_k8s.Base.Int.{ℤ, pos, negsuc, is_positive}
use consul_k8s.Base.Strings.{Chars, chars, text, trim_space, split, split_n}
use consul_k8s.Base.Strconv.{parse_int}
use consul_k8s.Base.Strconv.Bounds.{Fits, parse_int-Fits}
use consul_k8s.Base.Dict
use consul_k8s.ConnectInject.{ContainerPort, Container, Pod}
use consul_k8s.ConnectInject.Common.{int32, named_port, find_port, first, port_value}
use consul_k8s.ConnectInject.Outcome.{Outcome, panic, fail, done}
use consul_k8s.ConnectInject.Upstreams.{
  Settings, Upstream, no_upstream, nth, trim, at_port, at_place, named,
  process_prepared_query_upstream, unlabeled_place, process_unlabeled_upstream, labeled_place,
  community_place, process_labeled_upstream, is_labeled, process_upstream, append_upstream,
  process_each, get_multi_port_idx, process_upstreams, annotation_upstreams,
}

-- A port of 32 bits, which is what the type of `ContainerPort` holds.
abbrev pub IsInt32 : ℤ → Type 0
IsInt32 v = Fits (2 ^ 31) v

abbrev pub HasInt32Ports : Pod → Type 0
HasInt32Ports pod =
    All (λ c. All (λ p. IsInt32 p.container_port) (Container.ports c)) pod.containers

-- The conversion does not wrap.
int32-same : (v : ℤ) → IsInt32 v → int32 v ≡ v
unfolding int32
int32-same (pos n) h = ground (arith, h)
int32-same (negsuc n) h = ground (arith, h)

abbrev IsInt32Option : Option ℤ → Type 0
IsInt32Option none = Unit
IsInt32Option (some v) = IsInt32 v

named_port-IsInt32 :
    (name : String) (ps : List ContainerPort)
    → All (λ p. IsInt32 p.container_port) ps
    → IsInt32Option (named_port name ps)
unfolding named_port
named_port-IsInt32 name [] fits = tt
named_port-IsInt32 name (p ∷ ps) fits = elim (Bool-cases (p.name == name)) [
  | inl e ↦ rw e fits.0
  | inr e ↦ rw e (named_port-IsInt32 name ps fits.1)
]

find_port-IsInt32 :
    (name : String) (cs : List Container)
    → All (λ c. All (λ p. IsInt32 p.container_port) (Container.ports c)) cs
    → IsInt32Option (find_port name cs)
unfolding find_port
find_port-IsInt32 name [] fits = tt
find_port-IsInt32 name (c ∷ cs) fits = elim (Option-cases (named_port name c.ports)) [
  | inl e ↦ rw (e, IsInt32Option) (find_port-IsInt32 name cs fits.1)
  | inr (v, e) ↦
      rw (e, IsInt32Option) (subst IsInt32Option e (named_port-IsInt32 name c.ports fits.0))
]

-- PortValue returns a port of 32 bits, also beside an error, and its conversion keeps the number.
pub port_value-IsInt32 :
    (pod : Pod) (value : Chars) → HasInt32Ports pod → IsInt32 (port_value pod value).1
unfolding port_value
port_value-IsInt32 pod value fits =
    let named = first (split 44 value) in
    let raw = parse_int true (2 ^ 31) named in
    let bound : IsInt32 raw.1 = parse_int-Fits true (2 ^ 31) named (omega arith) in
    elim (Option-cases (find_port (text named) pod.containers)) [
      | inl e ↦ rw (e, IsInt32, port_value, int32-same raw.1 bound) bound
      | inr (v, e) ↦
          rw (e, IsInt32, port_value)
            (subst IsInt32Option e (find_port-IsInt32 (text named) pod.containers fits))
    ]

-- An upstream is the empty one, or listens on a positive port of 32 bits.
abbrev pub IsBound : Upstream → Type 0
IsBound u = (u ≡ no_upstream) ⊎ ((n : ℕ) × (u.local_bind_port ≡ pos (suc n)) × (suc n < 2 ^ 31))

at_port-IsBound : (v : ℤ) (u : Upstream) → IsInt32 v → IsBound (at_port v u)
at_port-IsBound (pos zero) u fits = inl refl
at_port-IsBound (pos (suc n)) u fits = inr (n, refl, fits)
at_port-IsBound (negsuc n) u fits = inl refl

abbrev AreBound : {A : Type 0} → (A → Type 0) → Outcome A → Type 0
AreBound P panic = Unit
AreBound P (fail e) = Unit
AreBound P (done a) = P a

-- A round of the loop.
both :
    (r : Outcome Upstream) (rs : Outcome (List Upstream))
    → AreBound IsBound r
    → AreBound (All IsBound) rs
    → AreBound (All IsBound) (append_upstream r rs)
both panic rs h hs = tt
both (fail e) rs h hs = tt
both (done u) panic h hs = tt
both (done u) (fail e) h hs = tt
both (done u) (done us) h hs = (h, hs)

module _ (c : Settings) (pod : Pod) (fits : HasInt32Ports pod) where
  prepared-IsBound : (raw : Chars) → AreBound IsBound (process_prepared_query_upstream pod raw)
  unfolding process_prepared_query_upstream
  prepared-IsBound raw = elim (Option-cases (nth 2 (split_n 2 58 raw))) [
    | inl e ↦ rw (e, AreBound) tt
    | inr (p, e) ↦ elim (Option-cases (nth 1 (split_n 2 58 raw))) [
      | inl e' ↦ rw (e, e', AreBound) tt
      | inr (query, e') ↦
          rw (e, e', AreBound)
            (at_port-IsBound (port_value pod (trim_space p)).1
              (record no_upstream {
                destination_type = "prepared_query";
                destination_name = trim query;
              })
              (port_value-IsInt32 pod (trim_space p) fits))
    ]
  ]

  unlabeled-IsBound : (raw : Chars) → AreBound IsBound (process_unlabeled_upstream c pod raw)
  unfolding process_unlabeled_upstream
  unlabeled-IsBound raw =
      let service = first (split_n 2 58 raw) in
      let place =
        if c.enable_consul_namespaces || c.enable_consul_partitions
        then unlabeled_place (split_n 2 46 service)
        else named service in
      elim (Option-cases (nth 1 (split_n 2 58 raw))) [
        | inl e ↦ rw (e, AreBound) tt
        | inr (p, e) ↦
            rw (e, AreBound)
              (at_port-IsBound (port_value pod (trim_space p)).1
                (at_place (record place {
                  datacenter = elim (nth 2 (split_n 2 58 raw)) [ none ↦ "" | some d ↦ trim d ];
                }))
                (port_value-IsInt32 pod (trim_space p) fits))
      ]

  labeled-IsBound : (raw : Chars) → AreBound IsBound (process_labeled_upstream c pod raw)
  unfolding process_labeled_upstream
  labeled-IsBound raw =
      let pieces = split 46 (first (split_n 2 58 raw)) in
      let place =
        if c.enable_consul_namespaces || c.enable_consul_partitions
        then labeled_place raw pieces
        else community_place raw pieces in
      elim (Option-cases (nth 1 (split_n 2 58 raw))) [
        | inl e ↦ rw (e, AreBound) tt
        | inr (p, e) ↦ elim (Result-cases place) [
          | inr (_, e') ↦ rw (e, e', AreBound) tt
          | inl (at, e') ↦
              rw (e, e', AreBound)
                (at_port-IsBound (port_value pod (trim_space p)).1 (at_place at)
                  (port_value-IsInt32 pod (trim_space p) fits))
        ]
      ]

  process_upstream-IsBound : (raw : Chars) → AreBound IsBound (process_upstream c pod raw)
  unfolding process_upstream
  process_upstream-IsBound raw =
      let service = first (split_n 2 58 raw) in
      elim (Bool-cases (trim service == "prepared_query")) [
        | inl e ↦ rw e (prepared-IsBound raw)
        | inr e ↦ elim (Bool-cases (is_labeled service)) [
          | inl e' ↦ rw (e, e') (labeled-IsBound raw)
          | inr e' ↦ rw (e, e') (unlabeled-IsBound raw)
        ]
      ]

  process_each-AreBound : (raws : List Chars) → AreBound (All IsBound) (process_each c pod raws)
  unfolding process_each
  process_each-AreBound [] = tt
  process_each-AreBound (raw ∷ more) =
      both (process_upstream c pod raw) (process_each c pod more) (process_upstream-IsBound raw)
        (process_each-AreBound more)

  process_upstreams-ports :
      (endpoints : String) → AreBound (All IsBound) (process_upstreams c pod endpoints)
  unfolding process_upstreams
  process_upstreams-ports endpoints =
      elim (Bool-cases (is_positive (get_multi_port_idx pod endpoints))) [
        | inl e ↦ rw (e, AreBound) tt
        | inr e ↦ elim (Option-cases (Dict.lookup annotation_upstreams pod.annotations)) [
          | inl e' ↦ rw (e, e', AreBound) tt
          | inr (raw, e') ↦ elim (Bool-cases (raw == "")) [
            | inl e'' ↦ rw (e, e', e'', AreBound) tt
            | inr e'' ↦ rw (e, e', e'', AreBound) (process_each-AreBound (split 44 (chars raw)))
          ]
        ]
      ]

-- If the ports of the pod's containers are of 32 bits, then each upstream that processUpstreams
-- returns is the empty one or has a positive port of 32 bits, whatever the annotation says and
-- although the error of PortValue is not read.
pub process_upstreams-AreBound :
    (c : Settings) (pod : Pod) (endpoints : String) (us : List Upstream)
    → HasInt32Ports pod
    → process_upstreams c pod endpoints ≡ done us
    → All IsBound us
process_upstreams-AreBound c pod endpoints us fits h =
    subst (AreBound (All IsBound)) h (process_upstreams-ports c pod fits endpoints)
