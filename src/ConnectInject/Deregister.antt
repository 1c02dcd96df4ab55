-- ===== src/ConnectInject/Deregister.antt =====
-- The deregistration of control-plane/connect-inject/controllers/endpoints/endpoints_controller.go:
-- `deregisterService`, `deleteACLTokensForServiceInstance` and what they call.
pub mod Instances
pub mod Query
pub mod Tokens
use consul_k8s.Base.{String, ◌<>◌, Bool, true, false, not, ◌&&◌, Option, none, some, List, [], ◌∷◌}
use consul_k8s.Base.{◌==◌, if◌then◌else◌, contains, get_or, Result, ok, err}
use consul_k8s.Base.Strings.{trim_prefix}
use consul_k8s.Base.Dict
use consul_k8s.Base.Dict.{Dict}
use consul_k8s.Namespaces.{wildcard_namespace}

abbrev pub consul_node_name : String
consul_node_name = "k8s-service-mesh"

abbrev pub meta_key_pod_name : String
meta_key_pod_name = "pod-name"

abbrev pub token_meta_pod_name_key : String
token_meta_pod_name_key = "pod"

-- `api.AgentService`, as the catalog lists it for a node.
pub record ServiceInstance : Type 0 where
  pub id : String
  pub service : String
  pub namespace : String
  pub address : String
  pub meta : Dict String

-- `api.CatalogDeregistration`
pub record Deregistration : Type 0 where
  pub node : String
  pub service_id : String
  pub namespace : String

-- `api.ACLTokenListEntry`; a service identity is its name.
pub record Token : Type 0 where
  pub accessor_id : String
  pub auth_method : String
  pub service_identities : List String
  pub description : String

-- The client of Consul. `node_service_list` takes the node, the filter and the namespace of the query.
pub record ConsulApi (S : Type 0) : Type 0 where
  pub node_service_list : S → String → String → String → Result (List ServiceInstance)
  pub deregister : S → Deregistration → S × Option String
  pub token_list : S → String → Result (List Token)
  pub token_delete : S → String → String → S × Option String

-- The verb %q, the submatch of the expression .*({.+}) and `json.Unmarshal` of a map of texts.
pub record Texts : Type 0 where
  pub quote : String → String
  pub submatch : String → Option String
  pub unmarshal : String → Result (Dict String)

pub record Settings : Type 0 where
  pub enable_consul_namespaces : Bool
  pub auth_method : String

unfoldable pub get_token_meta_from_description : Texts → String → Result (Dict String)
get_token_meta_from_description t description = elim (t.submatch description) [
  | none ↦ err ("failed to extract token metadata from description: " <> description)
  | some json ↦ elim (t.unmarshal json) [
    | err e ↦ err ("failed to unmarshal token metadata '" <> json <> "': " <> e)
    | ok meta ↦ ok meta
  ]
]

-- The filter of `serviceInstancesForK8SServiceNameAndNamespace`.
abbrev pub filter : Texts → String → String → String
filter t name namespace =
    "Meta["
    <> t.quote "k8s-service-name"
    <> "] == "
    <> t.quote name
    <> " and Meta["
    <> t.quote "k8s-namespace"
    <> "] == "
    <> t.quote namespace
    <> " and Meta["
    <> t.quote "managed-by"
    <> "] == "
    <> t.quote "consul-k8s-endpoints-controller"

-- An identity of its own, made by the auth method for this service.
abbrev pub is_owned : Settings → ServiceInstance → Token → Bool
is_owned c svc token = elim token.service_identities [
  | [] ↦ false
  | name ∷ others ↦ elim others [
    | [] ↦ token.auth_method == c.auth_method && name == svc.service
    | _ ∷ _ ↦ false
  ]
]

-- The addresses that stay, or none: then every instance goes.
abbrev pub is_selected : Option (List String) → ServiceInstance → Bool
is_selected none svc = true
is_selected (some addresses) svc = not (contains addresses svc.address)

module _ {S : Type 0} (api : ConsulApi S) (t : Texts) (c : Settings) where
  unfoldable pub service_instances : S → String → String → Result (List ServiceInstance)
  service_instances w name namespace =
      api.node_service_list w consul_node_name (filter t name namespace)
        (if c.enable_consul_namespaces then wildcard_namespace else "")

  -- The loop over the tokens.
  unfoldable pub delete_tokens :
      ServiceInstance → String → String → List Token → S → S × Option String
  unfolding get_token_meta_from_description
  delete_tokens svc k8s_ns pod_name [] w = (w, none)
  delete_tokens svc k8s_ns pod_name (token ∷ more) w =
      if is_owned c svc token
      then elim (get_token_meta_from_description t token.description) [
        | err e ↦ (w, some ("failed to parse token metadata: " <> e))
        | ok meta ↦
            if trim_prefix (get_or (Dict.lookup token_meta_pod_name_key meta) "") (k8s_ns <> "/")
              == pod_name
            then (let (w', e) = api.token_delete w token.accessor_id svc.namespace in
                elim e [
                  | some e' ↦ (w', some ("failed to delete token from Consul: " <> e'))
                  | none ↦ delete_tokens svc k8s_ns pod_name more w'
                ])
            else delete_tokens svc k8s_ns pod_name more w
      ]
      else delete_tokens svc k8s_ns pod_name more w

  unfoldable pub delete_acl_tokens_for_service_instance :
      ServiceInstance → String → String → S → S × Option String
  unfolding delete_tokens
  delete_acl_tokens_for_service_instance svc k8s_ns pod_name w =
      if pod_name == "" then (w, none) else elim (api.token_list w svc.namespace) [
        | err e ↦ (w, some ("failed to get a list of tokens from Consul: " <> e))
        | ok tokens ↦ delete_tokens svc k8s_ns pod_name tokens w
      ]

  -- One round of the loop over the instances.
  unfoldable pub deregister_instance :
      String → Option (List String) → ServiceInstance → S → S × Option String
  unfolding delete_acl_tokens_for_service_instance
  deregister_instance k8s_ns addresses svc w =
      if is_selected addresses svc
      then (let (w', e) =
            api.deregister w (record {
              node = consul_node_name;
              service_id = svc.id;
              namespace = svc.namespace;
            }) in
          elim e [
            | some e' ↦ (w', some e')
            | none ↦
                if not (c.auth_method == "")
                then delete_acl_tokens_for_service_instance svc k8s_ns
                    (get_or (Dict.lookup meta_key_pod_name svc.meta) "") w'
                else (w', none)
          ])
      else (w, none)

  unfoldable pub deregister_each :
      String → Option (List String) → List ServiceInstance → S → S × Option String
  unfolding deregister_instance
  deregister_each k8s_ns addresses [] w = (w, none)
  deregister_each k8s_ns addresses (svc ∷ more) w =
      let (w', e) = deregister_instance k8s_ns addresses svc w in
      elim e [ some e' ↦ (w', some e') | none ↦ deregister_each k8s_ns addresses more w' ]

  unfoldable pub deregister_service : String → String → Option (List String) → S → S × Option String
  unfolding service_instances deregister_each
  deregister_service name namespace addresses w = elim (service_instances w name namespace) [
    | err e ↦ (w, some e)
    | ok svcs ↦ deregister_each namespace addresses svcs w
  ]
