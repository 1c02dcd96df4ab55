-- ===== src/AclInit/AuthMethods.antt =====
-- control-plane/subcommand/server-acl-init/connect_inject.go: the auth method by which pods log in to
-- Consul, and its binding rule. A read that fails is tried again until the command times out.
use consul_k8s.Base.{String, ◌<>◌, Bool, true, not, ◌&&◌, Option, none, some, List, [], ◌∷◌}
use consul_k8s.Base.{◌==◌, if◌then◌else◌, Result, ok, err}
use consul_k8s.Namespaces.{NamespaceApi, ensure_exists}
use consul_k8s.AclInit.{
  BindingRule, Clients, Command, with_prefix, ◌then_do◌, until_succeeds,
  create_connect_binding_rule,
}

-- `apiv1.Secret`, with the two entries that are read.
pub record Secret : Type 0 where
  pub kind : String
  pub ca_cert : String
  pub token : String

-- `api.ACLAuthMethod`, with its `Config`. The prefix is there if namespaces are mapped.
pub record AuthMethod : Type 0 where
  pub name : String
  pub description : String
  pub kind : String
  pub host : String
  pub ca_cert : String
  pub jwt : String
  pub mirroring_prefix : Option String

-- The calls that only the auth method needs. A service account is the names of its secrets; an auth
-- method is created in a namespace.
pub record AuthClients (S : Type 0) : Type 0 where
  pub service_account : S → String → Result (List String)
  pub secret : S → String → Result Secret
  pub auth_method_create : S → AuthMethod → String → S × Option String

-- The flags of `Command` that are read here only.
pub record AuthFlags : Type 0 where
  pub auth_method_host : String
  pub mirroring_prefix : String
  pub binding_rule_selector : String

-- The loop over the names of the secrets: the first one of the type of tokens, or the error of the last
-- read.
unfoldable pub find_secret :
    (String → Result Secret) → List String → Option String → Result (Option Secret)
find_secret read [] none = ok none
find_secret read [] (some e) = err e
find_secret read (name ∷ more) e = elim (read name) [
  | err _ ↦ find_secret read more (some "reached command timeout")
  | ok s ↦
      let rest = find_secret read more none in
      if s.kind == "kubernetes.io/service-account-token" then ok (some s) else rest
]

abbrev pub secret_names : Command → List String → List String
secret_names c [] = with_prefix c "auth-method" ∷ []
secret_names c (name ∷ more) = name ∷ more

module _ {S : Type 0} (api : Clients S) (auth : AuthClients S) (namespaces : NamespaceApi S)
    (c : Command) (flags : AuthFlags) where
  unfoldable pub create_auth_method_tmpl : String → Bool → S → Result AuthMethod
  unfolding find_secret
  create_auth_method_tmpl name use_ns w =
      let account = with_prefix c "auth-method" in
      elim (auth.service_account w account) [
        | err _ ↦ err "reached command timeout"
        | ok secrets ↦ elim (find_secret (auth.secret w) (secret_names c secrets) none) [
          | err e ↦ err e
          | ok none ↦ err (
              "found no secret of type 'kubernetes.io/service-account-token' associated with the "
              <> account <> " service account")
          | ok (some s) ↦ ok (record {
            name = name;
            description = "Kubernetes Auth Method";
            kind = "kubernetes";
            host =
                if flags.auth_method_host == ""
                then "https://kubernetes.default.svc"
                else flags.auth_method_host;
            ca_cert = s.ca_cert;
            jwt = s.token;
            mirroring_prefix =
                if use_ns && c.enable_namespaces && c.enable_inject_k8s_ns_mirroring
                then some flags.mirroring_prefix
                else none;
          })
        ]
      ]

  abbrev pub ensure_destination : S → S × Option String
  ensure_destination w =
      let (w', _, e) =
        ensure_exists namespaces c.consul_inject_destination_namespace "cross-namespace-policy" w in
      (w', e)

  abbrev pub inject_binding_rule : String → BindingRule
  inject_binding_rule name = record {
    id = "";
    description = "Kubernetes binding rule";
    auth_method = name;
    selector = flags.binding_rule_selector;
    bind_type = "service";
    bind_name = "${serviceaccount.name}";
    namespace = "";
  }

  -- The namespace comes first, unless it is the default one or namespaces are mirrored.
  unfoldable pub configure_connect_inject_auth_method : String → S → S × Option String
  unfolding create_auth_method_tmpl until_succeeds create_connect_binding_rule
  configure_connect_inject_auth_method name w = elim (create_auth_method_tmpl name true w) [
    | err e ↦ (w, some e)
    | ok method ↦
        let destination = c.consul_inject_destination_namespace in
        let in_destination = c.enable_namespaces && not c.enable_inject_k8s_ns_mirroring in
        (if in_destination && not (destination == "default")
          then until_succeeds api c ("checking or creating namespace " <> destination)
              ensure_destination w
          else (w, none))
        then_do until_succeeds api c ("creating auth method " <> method.name)
            (λ w'. auth.auth_method_create w' method (if in_destination then destination else ""))
        then_do create_connect_binding_rule api c name (inject_binding_rule name)
  ]
