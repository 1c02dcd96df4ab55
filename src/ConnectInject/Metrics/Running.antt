-- ===== src/ConnectInject/Metrics/Running.antt =====
-- When the server of merged metrics runs
-- (control-plane/connect-inject/metrics/metrics_configuration.go).
use Prim.Native.Nat.{◌^◌}
use mathlib.Core.Path.{subst}
use consul_k8s.Base.{
  ◌≡◌, refl, sym, ap, ◌∙◌, ◌↔◌, ℕ, zero, suc, ◌<◌, String, Bool, true, false, some, arith,
}
use consul_k8s.Base.{◌==◌, if◌then◌else◌, inl, inr, Bool-cases, Option-cases, Result, ok, err}
use consul_k8s.Base.Int.{ℤ, pos, negsuc, is_positive}
use consul_k8s.Base.Strings.{chars}
use consul_k8s.Base.Strconv.{format_int}
use consul_k8s.Base.Strconv.RoundTrip.{parse_int-format_int}
use consul_k8s.Base.{string_dec}
use consul_k8s.Base.Dict
use consul_k8s.ConnectInject.{Pod}
use consul_k8s.ConnectInject.Common.{port_value}
use consul_k8s.ConnectInject.Upstreams.Bounds.{IsInt32, HasInt32Ports, port_value-IsInt32}
use consul_k8s.ConnectInject.Metrics.{
  Config, annotation_port, annotation_service_metrics_port, annotation_of, out_of_ports,
  determine_and_validate_port, service_metrics_port, atoi, run_of, enable_metrics,
  enable_metrics_merging, should_run_merged_metrics_server,
}

-- What a port that is a text stands for.
IsPort : Result String → Type 0
IsPort (ok s) = (v : ℤ) × (s ≡ format_int v) × IsInt32 v
IsPort (err e) = Unit

determine_and_validate_port-IsPort :
    (pod : Pod) (annotation default_port : String) (privileged : Bool)
    → HasInt32Ports pod
    → (default_port == "") ≡ false
    → IsPort (determine_and_validate_port pod annotation default_port privileged)
unfolding determine_and_validate_port IsPort
determine_and_validate_port-IsPort pod annotation default_port privileged fits filled =
    elim (Option-cases (annotation_of pod annotation)) [
      | inr (raw, e) ↦ elim (Option-cases (port_value pod (chars raw)).0) [
        | inr (_, bad) ↦ rw (e, bad, IsPort) tt
        | inl good ↦
            elim (Bool-cases
              (out_of_ports (if privileged then 1 else 1024) (port_value pod (chars raw)).1)) [
                | inl out ↦ rw (e, good, out, IsPort) tt
                | inr within ↦
                    rw (e, good, within, IsPort)
                      (
                        (port_value pod (chars raw)).1,
                        refl,
                        port_value-IsInt32 pod (chars raw) fits,
                      )
              ]
      ]
      | inl e ↦ elim (Option-cases (port_value pod (chars default_port)).0) [
        | inr (_, bad) ↦ rw (e, filled, bad, IsPort) tt
        | inl good ↦
            rw (e, filled, good, IsPort)
              (
                (port_value pod (chars default_port)).1,
                refl,
                port_value-IsInt32 pod (chars default_port) fits,
              )
      ]
    ]

annotation_of-filled :
    (pod : Pod) (annotation raw : String)
    → annotation_of pod annotation ≡ some raw
    → (raw == "") ≡ false
annotation_of-filled pod annotation raw e =
    elim (Option-cases (Dict.lookup annotation pod.annotations)) [
      | inl l ↦ ground (arith, e, l)
      | inr (found, l) ↦ elim (Bool-cases (found == "")) [
        | inl empty ↦ ground (arith, e, l, empty)
        | inr filled ↦ ground (arith, e, l, filled)
      ]
    ]

zero_ne : ("0" == "") ≡ false
unfolding string_dec
zero_ne = refl

service_metrics_port-IsPort : (pod : Pod) → HasInt32Ports pod → IsPort (service_metrics_port pod)
unfolding service_metrics_port IsPort
service_metrics_port-IsPort pod fits = elim (Option-cases (annotation_of pod annotation_port)) [
  | inr (raw, e) ↦
      rw (e, IsPort)
        (determine_and_validate_port-IsPort pod annotation_service_metrics_port raw true fits
          (annotation_of-filled pod annotation_port raw e))
  | inl e ↦
      rw (e, IsPort)
        (determine_and_validate_port-IsPort pod annotation_service_metrics_port "0" true fits
          zero_ne)
]

-- The text of a port is read back.
atoi-format_int : (v : ℤ) → IsInt32 v → atoi (format_int v) ≡ v
atoi-format_int (pos n) fits =
    ap (λ r. r.1) (parse_int-format_int (2 ^ 63) (pos n) (omega (arith, fits)))
atoi-format_int (negsuc n) fits =
    ap (λ r. r.1) (parse_int-format_int (2 ^ 63) (negsuc n) (omega (arith, fits)))

run_of-true :
    (enabled merging : Result Bool) (port : Result String)
    → run_of enabled merging port ≡ ok true
    → (s : String) × (enabled ≡ ok true)
      × (merging ≡ ok true)
      × (port ≡ ok s)
      × (is_positive (atoi s) ≡ true)
run_of-true (err e) merging port h = absurd (ground (arith, h))
run_of-true (ok enabled) (err e) port h = absurd (ground (arith, h))
run_of-true (ok enabled) (ok merging) (err e) h = absurd (ground (arith, h))
run_of-true (ok enabled) (ok merging) (ok s) h =
    (s, ground (arith, h), ground (arith, h), refl, ground (arith, h))

-- A positive port.
positive-port :
    (v : ℤ) → is_positive v ≡ true → IsInt32 v → (n : ℕ) × (v ≡ pos (suc n)) × (suc n < 2 ^ 31)
positive-port (pos zero) h fits = absurd (ground (arith, h))
positive-port (pos (suc n)) h fits = (n, refl, fits)
positive-port (negsuc n) h fits = absurd (ground (arith, h))

-- A merged metrics server runs if and only if metrics and their merging are enabled, both without an
-- error, and the service's metrics port is a positive number: that ShouldRunMergedMetricsServer reads the
-- port back from its text, without its error, never loses it. The ports of the pod's containers are of
-- 32 bits.
pub should_run_merged_metrics_server-port :
    (parse_error : String → String) (c : Config) (pod : Pod)
    → HasInt32Ports pod
    → (should_run_merged_metrics_server parse_error c pod ≡ ok true) ↔ (
        (n : ℕ) × (enable_metrics parse_error c pod ≡ ok true)
        × (enable_metrics_merging parse_error c pod ≡ ok true)
        × (service_metrics_port pod ≡ ok (format_int (pos (suc n))))
        × (suc n < 2 ^ 31))
unfolding should_run_merged_metrics_server IsPort
should_run_merged_metrics_server-port parse_error c pod fits = (
  λ runs.
      let (s, enabled, merging, at, positive) =
        run_of-true (enable_metrics parse_error c pod) (enable_metrics_merging parse_error c pod)
          (service_metrics_port pod) runs in
      let (v, written, small) = subst IsPort at (service_metrics_port-IsPort pod fits) in
      let (n, same, bound) =
        positive-port v
          (ap is_positive (sym (atoi-format_int v small))
            ∙ ap (λ x. is_positive (atoi x)) (sym written)
            ∙ positive)
          small in
      (n, enabled, merging, at ∙ ap ok written ∙ ap (λ x. ok (format_int x)) same, bound),
  λ (n, enabled, merging, at, small).
      rw
        (
          should_run_merged_metrics_server,
          enabled,
          merging,
          at,
          atoi-format_int (pos (suc n)) small,
        )
        refl,
)
