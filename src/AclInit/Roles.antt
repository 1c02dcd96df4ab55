-- ===== src/AclInit/Roles.antt =====
-- What the update of an ACL role does (control-plane/subcommand/server-acl-init/create_or_update.go).
use consul_k8s.Base.{◌≢◌, String, none, List, ok}
use consul_k8s.AclInit.{Role, Clients, Command}

-- Consul does not lose a role by the update of one.
pub record KeepsRoles {S : Type 0} (api : Clients S) : Type 0 where
  pub read-update :
      (w : S) (r : Role) (name : String)
      → api.role_read_by_name w name ≢ ok none
      → api.role_read_by_name (api.role_update w r).0 name ≢ ok none

module _ {S : Type 0} (api : Clients S) (c : Command) (k : KeepsRoles api) (role : Role)
    (description : String) (policies : List String) where
  abbrev other : Role
  other = record role { description = description; policies = policies }
