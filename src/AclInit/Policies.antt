-- ===== src/AclInit/Policies.antt =====
-- Which ACL policies the command leaves alone
-- (control-plane/subcommand/server-acl-init/create_or_update.go).
use consul_k8s.Base.{
  ◌≡◌, ◌≢◌, ◌⊎◌, inl, inr, refl, sym, ap, ◌∙◌, String, Bool, true, false, ◌&&◌, Option, some, List,
  [], ◌∷◌, arith,
}
use consul_k8s.Base.{◌==◌, Bool-cases, ok, Result-cases, All}
use consul_k8s.AclInit.{
  Policy, Clients, Command, matching_id, update_acl_policy, create_or_update_acl_policy,
}

-- What the command relies on of the policies of Consul: `view` tells a policy by its identifier. The list
-- has policies that are there, under their identifiers; a new policy takes none away, and an update
-- writes the policy with its identifier only.
pub record IsPolicyStore {S : Type 0} (api : Clients S) (view : S → String → Option Policy)
    : Type 0 where
  pub view-listed :
      (w : S) (ps : List Policy)
      → api.policy_list w ≡ ok ps
      → All (λ p. view w (Policy.id p) ≡ some p) ps
  pub view-create :
      (w : S) (p q : Policy) (i : String)
      → view w i ≡ some q
      → view (api.policy_create w p).0 i ≡ some q
  pub view-update :
      (w : S) (p : Policy) (i : String) → i ≢ p.id → view (api.policy_update w p).0 i ≡ view w i

-- The policy is of the command: it has the name and the description.
abbrev pub is_own : Policy → Policy → Bool
is_own p q = q.name == p.name && q.description == p.description

-- The identifier that is found is the one before the loop, or of a listed policy that is the command's.
matching_id-own :
    {S : Type 0} (view : S → String → Option Policy) (w : S) (p : Policy) (ps : List Policy)
    (id : String)
    → All (λ q. view w (Policy.id q) ≡ some q) ps
    → (matching_id p ps id ≡ id)
      ⊎ ((q : Policy) × (view w (matching_id p ps id) ≡ some q) × (is_own p q ≡ true))
unfolding matching_id
matching_id-own view w p [] id listed = inl refl
matching_id-own view w p (q ∷ more) id (here, listed) = elim (Bool-cases (is_own p q)) [
  | inl own ↦ rw own (elim (matching_id-own view w p more q.id listed) [
    | inl e ↦ inr (q, ap (view w) e ∙ here, own)
    | inr found ↦ inr found
  ])
  | inr other ↦ rw other (matching_id-own view w p more id listed)
]

module _ {S : Type 0} (api : Clients S) (c : Command) (view : S → String → Option Policy)
    (l : IsPolicyStore api view) where
  update_acl_policy-keeps :
      (p q : Policy) (i : String) (w : S)
      → p.id ≡ ""
      → view w i ≡ some q
      → is_own p q ≡ false
      → view (update_acl_policy api c p w).0 i ≡ some q
  unfolding update_acl_policy
  update_acl_policy-keeps p q i w fresh there foreign = elim (Result-cases (api.policy_list w)) [
    | inr (e, failed) ↦ rw (update_acl_policy, failed) there
    | inl (ps, listed) ↦
        (let id = matching_id p ps p.id in
          let updated = record p { id = id } in
          elim (Bool-cases (id == "")) [
            | inl none_found ↦ rw (update_acl_policy, listed, none_found) there
            | inr named ↦
                rw (update_acl_policy, listed, named)
                  (l.view-update w updated i (λ same.
                      elim (matching_id-own view w p ps p.id (l.view-listed w ps listed)) [
                        | inl e ↦ ground (arith, named, e, fresh)
                        | inr (found, at, own) ↦
                            ground (arith, sym there ∙ ap (view w) same ∙ at, own, foreign)
                      ])
                    ∙ there)
          ])
  ]

  -- createOrUpdateACLPolicy never changes a policy that has another name or another description than the
  -- policy it is given, whichever calls of Consul fail.
  pub create_or_update_acl_policy-keeps :
      (p q : Policy) (i : String) (w : S)
      → p.id ≡ ""
      → view w i ≡ some q
      → is_own p q ≡ false
      → view (create_or_update_acl_policy api c p w).0 i ≡ some q
  unfolding create_or_update_acl_policy
  create_or_update_acl_policy-keeps p q i w fresh there foreign =
      let w' = (api.policy_create w p).0 in
      ground (
        arith,
        l.view-create w p q i there,
        update_acl_policy-keeps p q i w' fresh (l.view-create w p q i there) foreign,
      )
