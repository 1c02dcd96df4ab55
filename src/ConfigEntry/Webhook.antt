-- ===== src/ConfigEntry/Webhook.antt =====
-- control-plane/api/common/configentry_webhook.go: `ValidateConfigEntry`, which the validating webhook
-- of each kind of config entry calls, and `DefaultingPatches`.
pub mod Unique
use consul_k8s.Base.{
  ℕ, String, ◌<>◌, Bool, true, false, not, ◌&&◌, Option, none, some, List, [], ◌∷◌, map,
}
use consul_k8s.Base.{◌==◌, if◌then◌else◌, contains, Result, ok, err}

-- `common.ConsulMeta`
pub record ConsulMeta : Type 0 where
  pub partitions_enabled : Bool
  pub partition : String
  pub namespaces_enabled : Bool
  pub destination_namespace : String
  pub mirroring : Bool
  pub prefix : String

-- What the webhook asks of a kind of resource, the methods of `ConfigEntryResource`, which set the
-- fields of a resource by returning it, and `json.Marshal` of it.
pub record Kind (R : Type 0) : Type 0 where
  pub kube_kind : String
  pub kubernetes_name : R → String
  pub validate : ConsulMeta → R → Option String
  pub default_namespace_fields : ConsulMeta → R → R
  pub marshal : R → Result String

-- `jsonpatch.CreatePatch` and the verb %q.
pub record Texts (P : Type 0) : Type 0 where
  pub create_patch : String → String → Result P
  pub quote : String → String

-- `admission.Response`: an error with its status, or a message and patches.
pub data Response (P : Type 0) : Type 0 where
  errored : ℕ → String → Response P
  patched : String → P → Response P

pub data Operation : Type 0 where
  create update delete connect : Operation

abbrev pub is_create : Operation → Bool
is_create create = true
is_create _ = false

module _ {R : Type 0} (K : Kind R) where
  -- The loop over the list.
  unfoldable pub has_name : String → List R → Bool
  has_name name [] = false
  has_name name (item ∷ items) =
      let rest = has_name name items in if K.kubernetes_name item == name then true else rest

module _ {R P : Type 0} (K : Kind R) (t : Texts P) where
  unfoldable pub defaulting_patches : ConsulMeta → R → Result P
  defaulting_patches meta entry = elim (K.marshal entry) [
    | err e ↦ err ("marshalling input: " <> e)
    | ok before ↦ elim (K.marshal (K.default_namespace_fields meta entry)) [
      | err e ↦ err ("marshalling after defaulting: " <> e)
      | ok after ↦ elim (t.create_patch before after) [
        | err e ↦ err ("creating patches: " <> e)
        | ok patches ↦ ok patches
      ]
    ]
  ]

  abbrev pub already_defined : R → String
  already_defined entry =
      K.kube_kind
      <> " resource with name "
      <> t.quote (K.kubernetes_name entry)
      <> " is already defined – all "
      <> K.kube_kind
      <> " resources must have unique names across namespaces"

  -- The check of a creation: `none`, or the response.
  unfoldable pub check_name : Result (List R) → R → Option (Response P)
  unfolding has_name
  check_name listed entry = elim listed [
    | err e ↦ some (errored 500 e)
    | ok items ↦
        if has_name K (K.kubernetes_name entry) items
        then some (errored 400 (already_defined entry))
        else none
  ]

  -- DefaultingPatches sets the fields through the pointer, so that what follows reads them set.
  unfoldable pub validate_config_entry : Operation → Result (List R) → R → ConsulMeta → Response P
  unfolding defaulting_patches check_name
  validate_config_entry op listed entry meta = elim (defaulting_patches meta entry) [
    | err e ↦ errored 500 e
    | ok patches ↦
        (let defaulted = K.default_namespace_fields meta entry in
          let single_consul_dest_ns = not (meta.namespaces_enabled && meta.mirroring) in
          let refused : Option (Response P) =
            if is_create op && single_consul_dest_ns then check_name listed defaulted else none in
          elim refused [
            | some r ↦ r
            | none ↦ elim (K.validate meta defaulted) [
              | some e ↦ errored 400 e
              | none ↦ patched ("valid " <> K.kube_kind <> " request") patches
            ]
          ])
  ]
