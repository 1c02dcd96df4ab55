-- ===== src/ConfigEntry/Webhook/Unique.antt =====
-- What the webhook admits (control-plane/api/common/configentry_webhook.go).
use consul_k8s.Base.{◌≡◌, Bool, true, false, not, ◌&&◌, List, [], ◌∷◌, arith}
use consul_k8s.Base.{if◌then◌else◌, inl, inr, Bool-cases, ok, Result-cases}
use consul_k8s.ConfigEntry.Webhook.{
  ConsulMeta, Kind, Texts, Response, errored, patched, create, defaulting_patches, has_name,
  check_name, validate_config_entry,
}

abbrev pub is_patched : {P : Type 0} → Response P → Bool
is_patched (errored code e) = false
is_patched (patched message patches) = true

-- No two resources, of whatever namespaces, have the same name.
abbrev pub has_unique_names : {R : Type 0} → Kind R → List R → Bool
has_unique_names K [] = true
has_unique_names K (item ∷ items) =
    not (has_name K (K.kubernetes_name item) items) && has_unique_names K items

module _ {R P : Type 0} (K : Kind R) (t : Texts P) (meta : ConsulMeta) where
  -- The cluster after requests to create resources: an admitted one is stored with its patches.
  abbrev pub create_all : List R → List R → List R
  create_all [] cluster = cluster
  create_all (entry ∷ more) cluster = create_all more (
      if is_patched (validate_config_entry K t create (ok cluster) entry meta)
      then K.default_namespace_fields meta entry ∷ cluster
      else cluster)

  -- A resource that is admitted has a name that is new.
  admitted-new :
      (entry : R) (cluster : List R)
      → (meta.namespaces_enabled && meta.mirroring) ≡ false
      → is_patched (validate_config_entry K t create (ok cluster) entry meta) ≡ true
      → has_name K (K.kubernetes_name (K.default_namespace_fields meta entry)) cluster ≡ false
  unfolding validate_config_entry check_name
  admitted-new entry cluster single h = elim (Result-cases (defaulting_patches K t meta entry)) [
    | inr (e, failed) ↦ absurd (ground (arith, failed, h))
    | inl (patches, made) ↦ ground (arith, made, single, h)
  ]

-- If all resources go to one Consul namespace, then from a cluster whose resources of a kind have
-- different names, requests to create more of them, in any order and from any namespaces, leave a
-- cluster whose resources have different names.
pub create_all_unique :
    {R P : Type 0} (K : Kind R) (t : Texts P) (meta : ConsulMeta) (requests cluster : List R)
    → (meta.namespaces_enabled && meta.mirroring) ≡ false
    → has_unique_names K cluster ≡ true
    → has_unique_names K (create_all K t meta requests cluster) ≡ true
create_all_unique K t meta [] cluster single unique = unique
create_all_unique K t meta (entry ∷ more) cluster single unique =
    elim (Bool-cases (is_patched (validate_config_entry K t create (ok cluster) entry meta))) [
      | inr e ↦ rw e (create_all_unique K t meta more cluster single unique)
      | inl e ↦ rw e (
          create_all_unique K t meta more (K.default_namespace_fields meta entry ∷ cluster) single
            (rw (admitted-new K t meta entry cluster single e) unique))
    ]
