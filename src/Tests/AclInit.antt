-- ===== src/Tests/AclInit.antt =====
-- Tests of control-plane/subcommand/server-acl-init over a Consul that is kept in memory.
use mathlib.Core.Path.{subst}
use consul_k8s.Base.{◌≡◌, ◌≢◌, refl, String, true, false, Option, none, some, List, [], ◌∷◌, arith}
use consul_k8s.Base.{◌==◌, if◌then◌else◌, ok, err, string_dec, All}
use consul_k8s.AclInit.{Policy, Role, Clients, Command, policy_for, create_or_update_acl_policy}
use consul_k8s.AclInit.Policies.{IsPolicyStore, create_or_update_acl_policy-keeps}

-- Policies, of two with one identifier the first, and roles. Every name is taken.
abbrev Consul : Type 0
Consul = List Policy × List Role

abbrev find_policy : List Policy → String → Option Policy
find_policy [] i = none
find_policy (p ∷ more) i = if i == p.id then some p else find_policy more i

abbrev view : Consul → String → Option Policy
view (ps, _) i = find_policy ps i

abbrev first_policy : List Policy → List Policy
first_policy [] = []
first_policy (p ∷ _) = p ∷ []

abbrev first_role : List Role → Option Role
first_role [] = none
first_role (r ∷ _) = some r

abbrev clients : Clients Consul
clients = record {
  policy_create = λ w p. (w, some "Unexpected response code: 500");
  policy_list = λ w. ok (first_policy w.0);
  policy_update = λ w p. ((p ∷ w.0, w.1), none);
  role_read_by_name = λ w name. ok (first_role w.1);
  role_update = λ w r. ((w.0, r ∷ w.1), none);
  role_create = λ w r. ((w.0, r ∷ w.1), none);
  binding_rule_list = λ w auth_method ns. ok [];
  binding_rule_create = λ w r dc. (w, none);
  binding_rule_update = λ w r dc. (w, none);
  token_read_self = λ w id. err "no token";
  token_create = λ w t. (w, ok "secret");
  secret_get = λ w name. err "no secret";
  secret_create = λ w name id. (w, none);
}

abbrev command : Command
command = record {
  federation = false;
  enable_namespaces = true;
  enable_inject_k8s_ns_mirroring = false;
  consul_inject_destination_namespace = "default";
  sync_catalog = false;
  resource_prefix = "consul";
  quote = λ s. s;
  retries = λ s. 2;
}

view-first : (ps : List Policy) → All (λ p. find_policy ps (Policy.id p) ≡ some p) (first_policy ps)
view-first [] = tt
view-first (p ∷ ps) = (ground arith, tt)

view-update :
    (ps : List Policy) (p : Policy) (i : String)
    → i ≢ p.id
    → find_policy (p ∷ ps) i ≡ find_policy ps i
view-update ps p i differ = ground (arith, differ)

clients-IsPolicyStore : IsPolicyStore clients view
clients-IsPolicyStore = record {
  view-listed = λ w ps e.
      subst (All (λ p. find_policy w.0 (Policy.id p) ≡ some p)) (ground (arith, e))
        (view-first w.0);
  view-create = λ w p q i e. e;
  view-update = λ w p i differ. view-update w.0 p i differ;
}

-- A policy that was made by hand.
abbrev manual : Policy
manual = record {
  id = "1";
  name = "sync-policy";
  description = "by hand";
  rules = "";
  datacenters = [];
}

create_or_update_acl_policy-keeps_example :
    view
      (create_or_update_acl_policy clients command
        (policy_for "sync-policy" "rules" [])
        (manual ∷ [], [])).0
      "1"
    ≡ some manual
unfolding string_dec
create_or_update_acl_policy-keeps_example =
    create_or_update_acl_policy-keeps clients command view clients-IsPolicyStore
      (policy_for "sync-policy" "rules" []) manual "1" (manual ∷ [], []) refl refl refl

abbrev old : Role
old = record { name = "sync-acl-role"; description = "old"; policies = [] }

abbrev new : Role
new = record { name = "sync-acl-role"; description = "new"; policies = "sync-policy" ∷ [] }
