-- ===== src/Tests/Webhook.antt =====
-- Tests of control-plane/api/common/configentry_webhook.go.
use consul_k8s.Base.{
  ◌≡◌, refl, String, ◌<>◌, true, false, none, some, List, [], ◌∷◌, ok, string_dec,
}
use consul_k8s.Base.{◌==◌, if◌then◌else◌}
use consul_k8s.ConfigEntry.Webhook.{ConsulMeta, Kind, Texts, patched, update, validate_config_entry}
use consul_k8s.ConfigEntry.Webhook.Unique.{has_unique_names, create_all, create_all_unique}

-- A namespace, a name, and a namespace in the spec that has a default.
abbrev Resource : Type 0
Resource = String × String × String

abbrev set_default : ConsulMeta → Resource → Resource
set_default meta (ns, name, spec) =
    (ns, name, if spec == "" then meta.destination_namespace else spec)

abbrev kind : Kind Resource
kind = record {
  kube_kind = "servicedefaults";
  kubernetes_name = λ r. r.1;
  validate = λ meta r. if r.1 == "bad" then some "invalid" else none;
  default_namespace_fields = set_default;
  marshal = λ r. ok r.2;
}

abbrev texts : Texts String
texts = record { create_patch = λ before after. ok (before <> "->" <> after); quote = λ s. s }

abbrev single : ConsulMeta
single = record {
  partitions_enabled = false;
  partition = "";
  namespaces_enabled = true;
  destination_namespace = "all";
  mirroring = false;
  prefix = "";
}

abbrev requests : List Resource
requests = ("a", "web", "") ∷ ("b", "web", "") ∷ ("b", "api", "x") ∷ ("c", "bad", "") ∷ []

-- The second name is taken, and the last resource is invalid.
admitted : create_all kind texts single requests [] ≡ ("b", "api", "x") ∷ ("a", "web", "all") ∷ []
unfolding validate_config_entry string_dec
admitted = refl

-- An update is not held against the others.
updated :
    validate_config_entry kind texts update (ok (("a", "web", "") ∷ [])) ("b", "web", "") single
    ≡ patched "valid servicedefaults request" "->all"
unfolding validate_config_entry string_dec
updated = refl

create_all_unique_example : has_unique_names kind (create_all kind texts single requests []) ≡ true
create_all_unique_example = create_all_unique kind texts single requests [] refl refl
