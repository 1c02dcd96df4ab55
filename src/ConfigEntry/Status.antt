-- ===== src/ConfigEntry/Status.antt =====
-- Conditions and finalizers of a custom resource: control-plane/api/v1alpha1/status.go, and the
-- methods that each kind repeats, here those of servicesplitter_types.go.
use consul_k8s.Base.{ℕ, String, Option, none, some, List, [], ◌∷◌, ◌++◌}
use consul_k8s.Base.{◌==◌, if◌then◌else◌}
use consul_k8s.ConfigEntry.{Condition, ConditionStatus, is_unknown, Object}

abbrev pub condition_synced : String
condition_synced = "Synced"

pub get_condition : String → List Condition → Option Condition
get_condition kind [] = none
get_condition kind (c ∷ cs) = if c.kind == kind then some c else get_condition kind cs

pub without : String → List String → List String
without name [] = []
without name (f ∷ fs) = let rest = without name fs in if f == name then rest else f ∷ rest

module _ {Spec : Type 0} where
  unfoldable pub set_synced_condition :
      ℕ → ConditionStatus → String → String → Object Spec → Object Spec
  set_synced_condition now status reason message o = record o {
    conditions =
        record {
          kind = condition_synced;
          status = status;
          last_transition_time = now;
          reason = reason;
          message = message;
        }
        ∷ [];
  }

  unfoldable pub synced_condition_status : Object Spec → ConditionStatus
  unfolding get_condition
  synced_condition_status o = elim (get_condition condition_synced o.conditions) [
    | none ↦ is_unknown
    | some c ↦ c.status
  ]

  unfoldable pub add_finalizer : String → Object Spec → Object Spec
  add_finalizer name o = record o { finalizers = o.finalizers ++ name ∷ [] }

  unfoldable pub remove_finalizer : String → Object Spec → Object Spec
  unfolding without
  remove_finalizer name o = record o { finalizers = without name o.finalizers }
