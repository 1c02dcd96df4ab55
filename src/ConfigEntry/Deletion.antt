-- ===== src/ConfigEntry/Deletion.antt =====
-- The finalizer goes only when Consul has no entry left to remove
-- (control-plane/controller/configentry_controller.go).
use consul_k8s.Base.{◌≡◌, ◌≢◌, refl, ◌⊎◌, inl, inr, String, ◌<>◌, true, false, none, some, arith}
use consul_k8s.Base.{contains, Option, ok, err, Bool-cases, Result-cases, string_dec, ap, ◌∙◌}
use consul_k8s.ConfigEntry.{Object, EntryKind, Config, found, is_false, Setting, World}
use consul_k8s.ConfigEntry.Status.{remove_finalizer, set_synced_condition}
use consul_k8s.ConfigEntry.Reconcile.{
  finalizer_name, is_not_found_err, owner, finish_deletion, reconcile_deleted, reconcile_entry,
  consul_agent_error,
}
use consul_k8s.ConfigEntry.Plan.{entry_of, namespace_of, lookup_entry, reconcile_entry_of_found}

module _ {K : EntryKind} (E : Setting K) (c : Config) where
  -- Consul says that it has no such entry.
  abbrev pub IsAbsent : Object K.Spec → E.Consul → Type 0
  IsAbsent o s = (e : String) × (lookup_entry E c o s ≡ err e) × (is_not_found_err e ≡ true)

  -- Consul has an entry that another datacenter owns.
  abbrev pub IsForeign : Object K.Spec → E.Consul → Type 0
  IsForeign o s =
      (stored : K.Entry) × (lookup_entry E c o s ≡ ok stored)
      × (owner E c stored ≢ c.datacenter_name)

  -- Consul has an entry of this datacenter, and its deletion gives the state and the error.
  abbrev pub IsOwned : Object K.Spec → E.Consul → Type 0
  IsOwned o s =
      (stored : K.Entry) × (lookup_entry E c o s ≡ ok stored)
      × (owner E c stored ≡ c.datacenter_name)

  abbrev pub delete_entry : Object K.Spec → E.Consul → E.Consul × Option String
  delete_entry o s = E.entry_api.delete s K.consul_kind (K.consul_name o) (namespace_of E c o)

  -- What an object that is being deleted has come to when nothing failed.
  pub record Released (o : Object K.Spec) (w w' : World E) : Type 0 where
    pub entry_gone :
        ((IsAbsent o w.consul ⊎ IsForeign o w.consul) × (w'.consul ≡ w.consul))
        ⊎ (IsOwned o w.consul
            × ((delete_entry o w.consul).1 ≡ none)
            × (w'.consul ≡ (delete_entry o w.consul).0))
    pub finalizer_gone : w'.kube ≡ (E.kube_api.update w.kube (remove_finalizer finalizer_name o)).0

  -- The end of a deletion leaves Consul alone, and sends the object without its finalizer.
  finish_deletion_lem :
      (o : Object K.Spec) (w : World E)
      → ((finish_deletion E c o w).0.consul ≡ w.consul)
        × ((finish_deletion E c o w).0.kube
            ≡ (E.kube_api.update w.kube (remove_finalizer finalizer_name o)).0)
  unfolding finish_deletion
  finish_deletion_lem o w = ground arith

  finish_deletion-Released :
      (o : Object K.Spec) (w w' : World E)
      → w'.kube ≡ w.kube
      → ((IsAbsent o w.consul ⊎ IsForeign o w.consul) × (w'.consul ≡ w.consul))
        ⊎ (IsOwned o w.consul
            × ((delete_entry o w.consul).1 ≡ none)
            × (w'.consul ≡ (delete_entry o w.consul).0))
      → Released o w (finish_deletion E c o w').0
  finish_deletion-Released o w w' same gone = record {
    entry_gone = rw (finish_deletion_lem o w').0 gone;
    finalizer_gone =
        (finish_deletion_lem o w').1
        ∙ ap (λ k. (E.kube_api.update k (remove_finalizer finalizer_name o)).0) same;
  }

  absent-Released :
      (o : Object K.Spec) (w : World E) (e : String)
      → contains o.finalizers finalizer_name ≡ true
      → lookup_entry E c o w.consul ≡ err e
      → (reconcile_deleted E c (entry_of E c o) o w).1 ≡ none
      → Released o w (reconcile_deleted E c (entry_of E c o) o w).0
  unfolding reconcile_deleted
  absent-Released o w e ours seen done = elim (Bool-cases (is_not_found_err e)) [
    | inl absent ↦
        rw (ours, reconcile_deleted)
          (rw seen
            (rw absent (finish_deletion-Released o w w refl (inl (inl (e, seen, absent), refl)))))
    | inr present ↦ absurd (ground arith)
  ]

  present-Released :
      (o : Object K.Spec) (w : World E) (stored : K.Entry)
      → contains o.finalizers finalizer_name ≡ true
      → lookup_entry E c o w.consul ≡ ok stored
      → (reconcile_deleted E c (entry_of E c o) o w).1 ≡ none
      → Released o w (reconcile_deleted E c (entry_of E c o) o w).0
  unfolding reconcile_deleted
  present-Released o w stored ours seen done =
      elim (string_dec (owner E c stored) c.datacenter_name) [
        | yes mine ↦
            let deleted : (delete_entry o w.consul).1 ≡ none = ground arith in
            let w' : World E = record w { consul = (delete_entry o w.consul).0 } in
            let same : reconcile_deleted E c (entry_of E c o) o w ≡ finish_deletion E c o w' =
              ground arith in
            rw same
              (finish_deletion-Released o w w' refl (inr ((stored, seen, mine), deleted, refl)))
        | no other ↦
            let same : reconcile_deleted E c (entry_of E c o) o w ≡ finish_deletion E c o w =
              ground arith in
            rw same (finish_deletion-Released o w w refl (inl (inr (stored, seen, other), refl)))
      ]

  -- A deletion that returns no error has removed the finalizer, and it has done so because the read of
  -- the entry failed with a text that contains 404, because the entry belongs to another datacenter and was left alone, or
  -- because the entry belonged to this datacenter and was deleted.
  pub reconcile_entry-Released :
      (name ns : String) (o : Object K.Spec) (w : World E)
      → E.kube_api.get w.kube name ns ≡ found o
      → E.server_state ≡ none
      → E.new_client ≡ none
      → o.deleting ≡ true
      → contains o.finalizers finalizer_name ≡ true
      → (reconcile_entry E c name ns w).1 ≡ none
      → Released o w (reconcile_entry E c name ns w).0
  reconcile_entry-Released name ns o w here server client deleting ours done =
      let same : reconcile_entry E c name ns w ≡ reconcile_deleted E c (entry_of E c o) o w =
        ground (arith, reconcile_entry_of_found E c name ns o w here server client) in
      let done' = rw same at done in
      rw same (elim (Result-cases (lookup_entry E c o w.consul)) [
        | inl (stored, seen) ↦ present-Released o w stored ours seen done'
        | inr (e, seen) ↦ absent-Released o w e ours seen done'
      ])

  -- Consul did not answer, or failed to delete an entry of this datacenter.
  abbrev pub IsStuck : Object K.Spec → E.Consul → Type 0
  IsStuck o s =
      ((e : String) × (lookup_entry E c o s ≡ err e) × (is_not_found_err e ≡ false))
      ⊎ (IsOwned o s × ((e : String) × ((delete_entry o s).1 ≡ some e)))

  -- At most the status of the object was sent, with its finalizers as they were.
  abbrev pub IsHeld : Object K.Spec → World E → World E → Type 0
  IsHeld o w w' =
      (w'.kube ≡ w.kube)
      ⊎ ((o' : Object K.Spec) × (o'.finalizers ≡ o.finalizers)
          × (w'.kube ≡ (E.kube_api.update_status w.kube o').0))

  reconcile_deleted-IsHeld :
      (o : Object K.Spec) (w : World E)
      → contains o.finalizers finalizer_name ≡ true
      → IsStuck o w.consul
      → ((reconcile_deleted E c (entry_of E c o) o w).1 ≢ none)
        × IsHeld o w (reconcile_deleted E c (entry_of E c o) o w).0
  unfolding reconcile_deleted set_synced_condition
  reconcile_deleted-IsHeld o w ours (inl (e, seen, real)) = (ground arith, inl (ground arith))
  reconcile_deleted-IsHeld o w ours (inr ((stored, seen, mine), (e, stuck))) = (
    ground arith,
    inr (
      set_synced_condition E.now is_false consul_agent_error
          ("deleting config entry from consul: " <> e) o,
      ground arith,
      ground arith,
    ),
  )

  -- A deletion that cannot read the entry, or cannot delete one of this datacenter, returns an
  -- error and keeps the finalizer.
  pub reconcile_entry-IsHeld :
      (name ns : String) (o : Object K.Spec) (w : World E)
      → E.kube_api.get w.kube name ns ≡ found o
      → E.server_state ≡ none
      → E.new_client ≡ none
      → o.deleting ≡ true
      → contains o.finalizers finalizer_name ≡ true
      → IsStuck o w.consul
      → ((reconcile_entry E c name ns w).1 ≢ none) × IsHeld o w (reconcile_entry E c name ns w).0
  reconcile_entry-IsHeld name ns o w here server client deleting ours stuck =
      let same : reconcile_entry E c name ns w ≡ reconcile_deleted E c (entry_of E c o) o w =
        ground (arith, reconcile_entry_of_found E c name ns o w here server client) in
      rw same (reconcile_deleted-IsHeld o w ours stuck)
