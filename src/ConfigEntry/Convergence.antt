-- ===== src/ConfigEntry/Convergence.antt =====
-- A reconcile without an error leaves Consul as the custom resource wants it, and the next one
-- writes nothing (control-plane/controller/configentry_controller.go).
use consul_k8s.Base.{◌≡◌, ◌⊎◌, inl, inr, String, true, false, none, arith}
use consul_k8s.Base.{contains, ok, Bool-cases, Result-cases}
use consul_k8s.Base.{ap, ◌∙◌}
use consul_k8s.Base.Dict
use consul_k8s.Namespaces.{ensure_exists}
use consul_k8s.ConfigEntry.{Object, EntryKind, Config, found, Setting, World}
use consul_k8s.ConfigEntry.Reconcile.{
  finalizer_name, datacenter_key, owner, create_entry, reconcile_absent, update_entry,
  reconcile_present, reconcile_live, reconcile_kept, reconcile_entry,
}
use consul_k8s.ConfigEntry.Plan.{
  entry_of, namespace_of, lookup_entry, plan, keep, perform, reconcile_entry_of_found,
  reconcile_entry-consul,
}

-- What a kind of resource promises of the entries that it makes.
pub record IsLawfulKind (K : EntryKind) : Type 0 where
  pub name-to_consul :
      (dc : String) (o : Object K.Spec) → K.get_name (K.to_consul dc o) ≡ K.consul_name o
  pub owner-to_consul :
      (dc : String) (o : Object K.Spec)
      → Dict.get datacenter_key (K.get_meta (K.to_consul dc o)) ≡ dc
  pub matches-to_consul :
      (dc : String) (o : Object K.Spec) → K.matches_consul o (K.to_consul dc o) ≡ true

-- Consul stores an entry as it was written.
pub record IsLawfulStore {K : EntryKind} (E : Setting K) : Type 0 where
  pub get-set :
      (s : E.Consul) (e : K.Entry) (ns : String)
      → (E.entry_api.set s e ns).1 ≡ none
      → E.entry_api.get (E.entry_api.set s e ns).0 K.consul_kind (K.get_name e) ns ≡ ok e

module _ {K : EntryKind} (E : Setting K) (c : Config) where
  -- Consul has an entry under the object's name that this datacenter owns and that matches it.
  pub record IsSynced (o : Object K.Spec) (s : E.Consul) : Type 0 where
    pub stored : K.Entry
    pub stored_here : lookup_entry E c o s ≡ ok stored
    pub owned : owner E c stored ≡ c.datacenter_name
    pub matches : K.matches_consul o stored ≡ true

  -- Two reads of one resource, between which only its status has changed.
  pub record IsSameResource (o o' : Object K.Spec) : Type 0 where
    pub same_key : (s : E.Consul) → lookup_entry E c o' s ≡ lookup_entry E c o s
    pub same_spec : (e : K.Entry) → K.matches_consul o' e ≡ K.matches_consul o e
    pub same_deleting : o'.deleting ≡ o.deleting
    pub same_finalizers : o'.finalizers ≡ o.finalizers

  perform-IsSynced :
      (o o' : Object K.Spec) (s : E.Consul)
      → o'.deleting ≡ false
      → IsSameResource o o'
      → IsSynced o s
      → perform E c o' (plan E c o' (lookup_entry E c o' s)) s ≡ s
  perform-IsSynced o o' s live r y =
      let settled : plan E c o' (lookup_entry E c o' s) ≡ keep =
        rw (r.same_key s, y.stored_here) (ground (arith, r.same_spec y.stored)) in
      ap (λ p. perform E c o' p s) settled

  -- The state after a write of the object's entry that Consul accepted.
  abbrev IsWritten : Object K.Spec → E.Consul → Type 0
  IsWritten o s' =
      (s : E.Consul) × ((E.entry_api.set s (entry_of E c o) (namespace_of E c o)).1 ≡ none)
      × (s' ≡ (E.entry_api.set s (entry_of E c o) (namespace_of E c o)).0)

  module _ (LK : IsLawfulKind K) (LS : IsLawfulStore E) where
    IsWritten-IsSynced : (o : Object K.Spec) (s' : E.Consul) → IsWritten o s' → IsSynced o s'
    IsWritten-IsSynced o s' (s, accepted, same) = record {
      stored = entry_of E c o;
      stored_here = rw same (
          rw (LK.name-to_consul c.datacenter_name o) at
            (LS.get-set s (entry_of E c o) (namespace_of E c o) accepted));
      owned = LK.owner-to_consul c.datacenter_name o;
      matches = LK.matches-to_consul c.datacenter_name o;
    }

    create_entry-IsWritten :
        (o : Object K.Spec) (w : World E)
        → (create_entry E c (entry_of E c o) o w).1 ≡ none
        → IsWritten o (create_entry E c (entry_of E c o) o w).0.consul
    unfolding create_entry
    create_entry-IsWritten o w done = (w.consul, ground arith, ground arith)

    update_entry-IsWritten :
        (o : Object K.Spec) (w : World E)
        → (update_entry E c (entry_of E c o) o w).1 ≡ none
        → IsWritten o (update_entry E c (entry_of E c o) o w).0.consul
    unfolding update_entry
    update_entry-IsWritten o w done = (w.consul, ground arith, ground arith)

    reconcile_absent-IsWritten :
        (o : Object K.Spec) (w : World E)
        → (reconcile_absent E c (entry_of E c o) o w).1 ≡ none
        → IsWritten o (reconcile_absent E c (entry_of E c o) o w).0.consul
    unfolding reconcile_absent
    reconcile_absent-IsWritten o w done = elim (Bool-cases c.enable_consul_namespaces) [
      | inl on ↦
          let (s, created, answer) =
            ensure_exists E.namespace_api (namespace_of E c o) c.cross_ns_acl_policy w.consul in
          let w' : World E = record w { consul = s } in
          let same : reconcile_absent E c (entry_of E c o) o w
              ≡ create_entry E c (entry_of E c o) o w' =
            ground arith in
          rw same (create_entry-IsWritten o w' (rw same at done))
      | inr off ↦
          let same : reconcile_absent E c (entry_of E c o) o w
              ≡ create_entry E c (entry_of E c o) o w =
            ground arith in
          rw same (create_entry-IsWritten o w (rw same at done))
    ]

    reconcile_present_cases :
        (o : Object K.Spec) (w : World E) (stored : K.Entry)
        → let w' = reconcile_present E c (entry_of E c o) stored o w in
          w'.1 ≡ none
          → (w' ≡ update_entry E c (entry_of E c o) o w)
            ⊎ ((owner E c stored ≡ c.datacenter_name)
                × (K.matches_consul o stored ≡ true)
                × (w'.0.consul ≡ w.consul))
    unfolding reconcile_present
    reconcile_present_cases o w stored done = ground arith

    reconcile_present-IsSynced :
        (o : Object K.Spec) (w : World E) (stored : K.Entry)
        → lookup_entry E c o w.consul ≡ ok stored
        → (reconcile_present E c (entry_of E c o) stored o w).1 ≡ none
        → IsSynced o (reconcile_present E c (entry_of E c o) stored o w).0.consul
    reconcile_present-IsSynced o w stored seen done =
        elim (reconcile_present_cases o w stored done) [
          | inl same ↦
              rw same (IsWritten-IsSynced o _ (update_entry-IsWritten o w (rw same at done)))
          | inr (mine, equal, kept) ↦
              rw kept
                (record { stored = stored; stored_here = seen; owned = mine; matches = equal })
        ]

    reconcile_live-IsSynced :
        (o : Object K.Spec) (w : World E)
        → (reconcile_live E c (entry_of E c o) o w).1 ≡ none
        → IsSynced o (reconcile_live E c (entry_of E c o) o w).0.consul
    unfolding reconcile_live
    reconcile_live-IsSynced o w done = elim (Result-cases (lookup_entry E c o w.consul)) [
      | inl (stored, seen) ↦
          rw (seen, reconcile_live)
            (reconcile_present-IsSynced o w stored seen (rw (seen, reconcile_live) at done))
      | inr (e, seen) ↦
          let same : reconcile_live E c (entry_of E c o) o w
              ≡ reconcile_absent E c (entry_of E c o) o w =
            ground arith in
          rw same (IsWritten-IsSynced o _ (reconcile_absent-IsWritten o w (rw same at done)))
    ]

    -- A reconcile of an object that carries the finalizer and is not being deleted, if it returns
    -- no error, leaves in Consul an entry of this datacenter that matches the object.
    pub reconcile_entry-IsSynced :
        (name ns : String) (o : Object K.Spec) (w : World E)
        → E.kube_api.get w.kube name ns ≡ found o
        → E.server_state ≡ none
        → E.new_client ≡ none
        → o.deleting ≡ false
        → contains o.finalizers finalizer_name ≡ true
        → (reconcile_entry E c name ns w).1 ≡ none
        → IsSynced o (reconcile_entry E c name ns w).0.consul
    unfolding reconcile_kept
    reconcile_entry-IsSynced name ns o w here server client live ours done =
        let same : reconcile_entry E c name ns w ≡ reconcile_live E c (entry_of E c o) o w =
          ground (arith, reconcile_entry_of_found E c name ns o w here server client) in
        rw same (reconcile_live-IsSynced o w (rw same at done))

    -- After such a reconcile, further ones of the same resource leave Consul alone, whatever the
    -- first has written to its status.
    pub reconcile_entry_again :
        (name ns : String) (o o' : Object K.Spec) (w w' : World E)
        → E.kube_api.get w.kube name ns ≡ found o
        → E.server_state ≡ none
        → E.new_client ≡ none
        → o.deleting ≡ false
        → contains o.finalizers finalizer_name ≡ true
        → (reconcile_entry E c name ns w).1 ≡ none
        → IsSameResource o o'
        → E.kube_api.get w'.kube name ns ≡ found o'
        → w'.consul ≡ (reconcile_entry E c name ns w).0.consul
        → (reconcile_entry E c name ns w').0.consul ≡ w'.consul
    reconcile_entry_again name ns o o' w w' here server client live ours done r here' same =
        let synced = reconcile_entry-IsSynced name ns o w here server client live ours done in
        reconcile_entry-consul E c name ns o' w' here' server client (rw r.same_finalizers ours)
        ∙ perform-IsSynced o o' w'.consul (rw r.same_deleting live) r (rw same synced)
