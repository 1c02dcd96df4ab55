-- ===== src/ConfigEntry/Plan.antt =====
-- What a reconcile does to Consul, as a table of decisions, and that the controller follows it
-- (control-plane/controller/configentry_controller.go).
use consul_k8s.Base.{◌≡◌, String, true, ◌&&◌, none, some, arith}
use consul_k8s.Base.{◌==◌, if◌then◌else◌, contains, Result, ok, err, inl, inr, Result-cases}
use consul_k8s.Namespaces.{ensure_exists}
use consul_k8s.ConfigEntry.{Object, EntryKind, Config, found, Setting, World}
use consul_k8s.ConfigEntry.Reconcile.{
  finalizer_name, is_not_found_err, owner, wants_migration, entry_namespace, finish_deletion,
  reconcile_deleted, create_entry, reconcile_absent, update_entry, reconcile_present,
  reconcile_live, reconcile_kept, reconcile_entry,
}

pub data Plan : Type 0 where
  keep create overwrite remove : Plan

module _ {K : EntryKind} (E : Setting K) (c : Config) where
  -- The table for an object that is being deleted, by the answer of Consul.
  abbrev pub plan_deleted : Object K.Spec → Result K.Entry → Plan
  plan_deleted o (err e) = keep
  plan_deleted o (ok stored) =
      if contains o.finalizers finalizer_name && owner E c stored == c.datacenter_name
      then remove
      else keep

  -- The table for any other object: an entry that another datacenter owns, or nobody, is written
  -- only to take it over unchanged.
  abbrev pub plan_kept : Object K.Spec → Result K.Entry → Plan
  plan_kept o (err e) = if is_not_found_err e then create else keep
  plan_kept o (ok stored) =
      if owner E c stored == c.datacenter_name
      then if K.matches_consul o stored then keep else overwrite
      else if wants_migration E c o && K.matches_consul o stored
      then overwrite
      else keep

  abbrev pub plan : Object K.Spec → Result K.Entry → Plan
  plan o answer = if o.deleting then plan_deleted o answer else plan_kept o answer

  abbrev pub entry_of : Object K.Spec → K.Entry
  entry_of o = K.to_consul c.datacenter_name o

  abbrev pub namespace_of : Object K.Spec → String
  namespace_of o = entry_namespace E c (entry_of o) o

  abbrev pub lookup_entry : Object K.Spec → E.Consul → Result K.Entry
  lookup_entry o s = E.entry_api.get s K.consul_kind (K.consul_name o) (namespace_of o)

  abbrev pub put_entry : Object K.Spec → E.Consul → E.Consul
  put_entry o s = (E.entry_api.set s (entry_of o) (namespace_of o)).0

  -- The namespace comes first, and without it the entry is not written.
  abbrev pub create_in : Object K.Spec → E.Consul → E.Consul
  create_in o s =
      if c.enable_consul_namespaces
      then (let (s', created, answer) =
            ensure_exists E.namespace_api (namespace_of o) c.cross_ns_acl_policy s in
          elim answer [ none ↦ put_entry o s' | some e ↦ s' ])
      else put_entry o s

  abbrev pub perform : Object K.Spec → Plan → E.Consul → E.Consul
  perform o keep s = s
  perform o create s = create_in o s
  perform o overwrite s = put_entry o s
  perform o remove s = (E.entry_api.delete s K.consul_kind (K.consul_name o) (namespace_of o)).0

  reconcile_deleted-consul :
      (o : Object K.Spec) (w : World E)
      → (reconcile_deleted E c (entry_of o) o w).0.consul
        ≡ perform o (plan_deleted o (lookup_entry o w.consul)) w.consul
  unfolding reconcile_deleted finish_deletion
  reconcile_deleted-consul o w = ground arith

  reconcile_absent-consul :
      (o : Object K.Spec) (w : World E)
      → (reconcile_absent E c (entry_of o) o w).0.consul ≡ create_in o w.consul
  unfolding reconcile_absent create_entry
  reconcile_absent-consul o w = ground arith

  reconcile_present-consul :
      (o : Object K.Spec) (w : World E) (stored : K.Entry)
      → (reconcile_present E c (entry_of o) stored o w).0.consul
        ≡ perform o (plan_kept o (ok stored)) w.consul
  unfolding reconcile_present update_entry
  reconcile_present-consul o w stored = ground arith

  reconcile_live-consul :
      (o : Object K.Spec) (w : World E)
      → (reconcile_live E c (entry_of o) o w).0.consul
        ≡ perform o (plan_kept o (lookup_entry o w.consul)) w.consul
  unfolding reconcile_live
  reconcile_live-consul o w = elim (Result-cases (lookup_entry o w.consul)) [
    | inl (stored, e) ↦ rw (e, reconcile_live) (reconcile_present-consul o w stored)
    | inr (text, e) ↦ rw (e, reconcile_live) (ground (arith, reconcile_absent-consul o w))
  ]

  pub reconcile_entry_of_found :
      (name ns : String) (o : Object K.Spec) (w : World E)
      → E.kube_api.get w.kube name ns ≡ found o
      → E.server_state ≡ none
      → E.new_client ≡ none
      → reconcile_entry E c name ns w ≡ (
          if o.deleting
          then reconcile_deleted E c (entry_of o) o w
          else reconcile_kept E c (entry_of o) o w)
  unfolding reconcile_entry
  reconcile_entry_of_found name ns o w e server client = ground arith

  -- For an object that is there and carries the finalizer, with Consul in reach, a reconcile does
  -- to Consul what the table says, and nothing else.
  pub reconcile_entry-consul :
      (name ns : String) (o : Object K.Spec) (w : World E)
      → E.kube_api.get w.kube name ns ≡ found o
      → E.server_state ≡ none
      → E.new_client ≡ none
      → contains o.finalizers finalizer_name ≡ true
      → (reconcile_entry E c name ns w).0.consul
        ≡ perform o (plan o (lookup_entry o w.consul)) w.consul
  unfolding reconcile_kept
  reconcile_entry-consul name ns o w e server client ours =
      rw (reconcile_entry_of_found name ns o w e server client)
        (ground (arith, reconcile_deleted-consul o w, reconcile_live-consul o w))
