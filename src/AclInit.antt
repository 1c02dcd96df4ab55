-- ===== src/AclInit.antt =====
-- control-plane/subcommand/server-acl-init/create_or_update.go, and `untilSucceeds` of command.go there:
-- the policies, roles, binding rules and tokens that the command makes in Consul.
pub mod Policies
pub mod Roles
pub mod AuthMethods
use consul_k8s.Base.{
  ℕ, zero, suc, String, ◌<>◌, Bool, true, false, not, ◌&&◌, ◌||◌, Option, none, some, List, [], ◌∷◌,
}
use consul_k8s.Base.{◌==◌, if◌then◌else◌, Result, ok, err, contains_text}

-- `api.ACLPolicy` and `api.ACLPolicyListEntry`
pub record Policy : Type 0 where
  pub id : String
  pub name : String
  pub description : String
  pub rules : String
  pub datacenters : List String

-- `api.ACLRole`, with the names of its policies.
pub record Role : Type 0 where
  pub name : String
  pub description : String
  pub policies : List String

-- `api.ACLBindingRule`
pub record BindingRule : Type 0 where
  pub id : String
  pub description : String
  pub auth_method : String
  pub selector : String
  pub bind_type : String
  pub bind_name : String
  pub namespace : String

-- `api.ACLToken`
pub record Token : Type 0 where
  pub secret_id : String
  pub description : String
  pub policies : List String
  pub local : Bool

-- The clients of Consul and of Kubernetes. `binding_rule_list` takes the auth method and the namespace of
-- the query; a binding rule is written with the datacenter of the options; a secret is its token.
pub record Clients (S : Type 0) : Type 0 where
  pub policy_create : S → Policy → S × Option String
  pub policy_list : S → Result (List Policy)
  pub policy_update : S → Policy → S × Option String
  pub role_read_by_name : S → String → Result (Option Role)
  pub role_update : S → Role → S × Option String
  pub role_create : S → Role → S × Option String
  pub binding_rule_list : S → String → String → Result (List BindingRule)
  pub binding_rule_create : S → BindingRule → String → S × Option String
  pub binding_rule_update : S → BindingRule → String → S × Option String
  pub token_read_self : S → String → Result String
  pub token_create : S → Token → S × Result String
  pub secret_get : S → String → Result String
  pub secret_create : S → String → String → S × Option String

-- The flags of `Command` that are read here, the verb %q, and how often each operation is tried again
-- before the command times out.
pub record Command : Type 0 where
  pub federation : Bool
  pub enable_namespaces : Bool
  pub enable_inject_k8s_ns_mirroring : Bool
  pub consul_inject_destination_namespace : String
  pub sync_catalog : Bool
  pub resource_prefix : String
  pub quote : String → String
  pub retries : String → ℕ

abbrev pub with_prefix : Command → String → String
with_prefix c resource = c.resource_prefix <> "-" <> resource

-- Names are unique across datacenters.
abbrev pub scoped_name : Command → Bool → String → String → String
scoped_name c primary dc name = if c.federation && not primary then name <> "-" <> dc else name

abbrev pub policy_for : String → String → List String → Policy
policy_for name rules datacenters = record {
  id = "";
  name = name;
  description = name <> " Token Policy";
  rules = rules;
  datacenters = datacenters;
}

abbrev pub is_policy_exists_err : Command → String → String → Bool
is_policy_exists_err c e name =
    contains_text e "Unexpected response code: 500"
    && contains_text e ("Invalid Policy: A Policy with Name " <> c.quote name <> " already exists")

-- The identifier of the last listed policy with this name and description.
unfoldable pub matching_id : Policy → List Policy → String → String
matching_id p [] id = id
matching_id p (q ∷ more) id =
    matching_id p more (if q.name == p.name && q.description == p.description then q.id else id)

unfoldable pub matching_rule_id : BindingRule → List BindingRule → String → String
matching_rule_id r [] id = id
matching_rule_id r (q ∷ more) id =
    matching_rule_id r more
      (if q.bind_name == r.bind_name && q.description == r.description then q.id else id)

-- The loop of `untilSucceeds`, with the number of retries that are left.
unfoldable pub attempts : {S : Type 0} → ℕ → (S → S × Option String) → S → S × Option String
attempts zero op w =
    let (w', e) = op w in
    elim e [ none ↦ (w', none) | some _ ↦ (w', some "reached command timeout") ]
attempts (suc n) op w =
    let (w', e) = op w in elim e [ none ↦ (w', none) | some _ ↦ attempts n op w' ]

-- `if err != nil { return err }`
infixl 5 ◌then_do◌
abbrev pub ◌then_do◌ :
    {S : Type 0} → S × Option String → (S → S × Option String) → S × Option String
(w, some e) then_do next = (w, some e)
(w, none) then_do next = next w

module _ {S : Type 0} (api : Clients S) (c : Command) where
  unfoldable pub until_succeeds : String → (S → S × Option String) → S → S × Option String
  unfolding attempts
  until_succeeds name op w = attempts (c.retries name) op w

  -- The update of a policy that is there.
  unfoldable pub update_acl_policy : Policy → S → S × Option String
  unfolding matching_id
  update_acl_policy p w = elim (api.policy_list w) [
    | err e ↦ (w, some e)
    | ok listed ↦
        (let id = matching_id p listed p.id in
          if id == ""
          then (
            w,
            some (
                "policy found with name "
                <> c.quote p.name
                <> " but not with expected description "
                <> c.quote p.description
                <> "; if this policy was created manually it must be renamed to something else because this name is reserved by consul-k8s"),
          )
          else api.policy_update w (record p { id = id }))
  ]

  unfoldable pub create_or_update_acl_policy : Policy → S → S × Option String
  unfolding update_acl_policy
  create_or_update_acl_policy p w =
      let (w', failed) = api.policy_create w p in
      elim failed [
        | none ↦ (w', none)
        | some e ↦
            if is_policy_exists_err c e p.name
            then if c.enable_namespaces || c.sync_catalog
              then update_acl_policy p w'
              else (w', none)
            else (w', some e)
      ]

  -- One attempt of `updateOrCreateACLRole`.
  unfoldable pub put_acl_role : Role → S → S × Option String
  put_acl_role role w = elim (api.role_read_by_name w role.name) [
    | err e ↦ (w, some e)
    | ok (some found) ↦ api.role_update w found
    | ok none ↦ api.role_create w role
  ]

  unfoldable pub update_or_create_acl_role : Role → S → S × Option String
  unfolding until_succeeds put_acl_role
  update_or_create_acl_role role w =
      until_succeeds ("update or create acl role for " <> role.name) (put_acl_role role) w

  -- What is written when the rules of the auth method are known.
  unfoldable pub put_binding_rule :
      String → BindingRule → String → List BindingRule → S → S × Option String
  unfolding until_succeeds matching_rule_id
  put_binding_rule auth_method abr dc existing w =
      let id = matching_rule_id abr existing abr.id in
      if id == ""
      then until_succeeds ("creating acl binding rule for " <> auth_method)
          (λ w'. api.binding_rule_create w' (record abr { id = id }) dc) w
      else until_succeeds ("updating acl binding rule for " <> auth_method)
          (λ w'. api.binding_rule_update w' (record abr { id = id }) dc) w

  -- A list that cannot be read is read again until the command times out; no call of this command is
  -- made between.
  unfoldable pub create_or_update_binding_rule :
      String → BindingRule → String → String → S → S × Option String
  unfolding put_binding_rule
  create_or_update_binding_rule auth_method abr ns dc w =
      elim (api.binding_rule_list w auth_method ns) [
        | err _ ↦ (w, some "reached command timeout")
        | ok existing ↦ put_binding_rule auth_method abr dc existing w
      ]

  unfoldable pub create_connect_binding_rule : String → BindingRule → S → S × Option String
  unfolding create_or_update_binding_rule
  create_connect_binding_rule auth_method abr w =
      let ns = c.consul_inject_destination_namespace in
      if c.enable_namespaces && not c.enable_inject_k8s_ns_mirroring
      then create_or_update_binding_rule auth_method (record abr { namespace = ns }) ns "" w
      else create_or_update_binding_rule auth_method abr "" "" w

  abbrev pub role_of : String → String → List String → Role
  role_of name service_account policies = record {
    name = name;
    description = "ACL Role for " <> service_account;
    policies = policies;
  }

  abbrev pub binding_rule_of : String → String → String → BindingRule
  binding_rule_of name service_account auth_method = record {
    id = "";
    description = "Binding Rule for " <> service_account;
    auth_method = auth_method;
    selector = "serviceaccount.name==" <> c.quote service_account;
    bind_type = "role";
    bind_name = name;
    namespace = "";
  }

  unfoldable pub add_role_and_binding_rule :
      String → String → String → List String → Bool → Bool → String → String → S → S × Option String
  unfolding update_or_create_acl_role create_or_update_binding_rule
  add_role_and_binding_rule component account auth_method policies global primary primary_dc dc w =
      let name = scoped_name c primary dc (with_prefix c (component <> "-acl-role")) in
      update_or_create_acl_role (role_of name account policies) w
      then_do create_or_update_binding_rule auth_method (binding_rule_of name account auth_method)
          "" (if global && not (dc == primary_dc) then primary_dc else "")

  unfoldable pub create_acl_policy_role_and_binding_rule :
      String → String → String → String → Bool → Bool → String → String → S → S × Option String
  unfolding until_succeeds create_or_update_acl_policy add_role_and_binding_rule
  create_acl_policy_role_and_binding_rule component rules dc primary_dc global primary auth_method
        account w =
      let name = scoped_name c primary dc (component <> "-policy") in
      let datacenters = if not global && not (dc == "") then dc ∷ [] else [] in
      until_succeeds ("creating " <> name <> " policy")
        (create_or_update_acl_policy (policy_for name rules datacenters)) w
      then_do add_role_and_binding_rule component account auth_method (name ∷ []) global primary
          primary_dc dc

  -- The token is created with a retry, and its secret identifier is what is written.
  abbrev pub token_attempts : ℕ → Token → S → S × Result String
  token_attempts zero token w =
      let (w', r) = api.token_create w token in
      elim r [ ok id ↦ (w', ok id) | err _ ↦ (w', err "reached command timeout") ]
  token_attempts (suc n) token w =
      let (w', r) = api.token_create w token in
      elim r [ ok id ↦ (w', ok id) | err _ ↦ token_attempts n token w' ]

  unfoldable pub create_token : String → String → Token → S → S × Option String
  unfolding until_succeeds
  create_token secret_name policy_name token w =
      let (w', r) =
        token_attempts (c.retries ("creating token for policy " <> policy_name)) token w in
      elim r [
        | err e ↦ (w', some e)
        | ok secret_id ↦
            if token.secret_id == ""
            then until_succeeds ("writing Secret for token " <> policy_name)
                (λ w''. api.secret_create w'' secret_name secret_id) w'
            else (w', none)
      ]

  -- The token is there: as a secret of Kubernetes, or in Consul under the identifier that is given.
  abbrev pub has_token : String → String → S → Bool
  has_token secret_name secret_id w =
      let found =
        if secret_id == "" then api.secret_get w secret_name else api.token_read_self w secret_id in
      elim found [ ok _ ↦ true | err _ ↦ false ]

  unfoldable pub create_acl :
      String → String → Bool → String → Bool → String → S → S × Option String
  unfolding until_succeeds create_or_update_acl_policy create_token
  create_acl name rules local dc primary secret_id w =
      let policy_name = scoped_name c primary dc (name <> "-token") in
      let secret_name = with_prefix c (name <> "-acl-token") in
      let datacenters = if local && not (dc == "") then dc ∷ [] else [] in
      let token : Token = record {
        secret_id = secret_id;
        description = policy_name <> " Token";
        policies = policy_name ∷ [];
        local = local;
      } in
      until_succeeds ("creating " <> policy_name <> " policy")
        (create_or_update_acl_policy (policy_for policy_name rules datacenters)) w
      then_do (λ w'.
          if has_token secret_name secret_id w'
          then (w', none)
          else create_token secret_name policy_name token w')

  abbrev pub create_local_acl : String → String → String → Bool → S → S × Option String
  create_local_acl name rules dc primary = create_acl name rules true dc primary ""

  abbrev pub create_global_acl : String → String → String → Bool → S → S × Option String
  create_global_acl name rules dc primary = create_acl name rules false dc primary ""

  abbrev pub create_acl_with_secret_id :
      String → String → String → Bool → String → Bool → S → S × Option String
  create_acl_with_secret_id name rules dc primary secret_id local =
      create_acl name rules local dc primary secret_id
