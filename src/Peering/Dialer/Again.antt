-- ===== src/Peering/Dialer/Again.antt =====
-- A reconcile of a dialer without an error leaves nothing for the next one to do in Consul
-- (control-plane/connect-inject/controllers/peering/peering_dialer_controller.go).
use consul_k8s.Base.{
  ◌≡◌, ◌⊎◌, inl, inr, sym, ◌∙◌, ap, ℕ, Option, String, true, false, none, some, arith,
}
use consul_k8s.Base.{ok, Result-cases, Option-cases}
use consul_k8s.Base.Dict
use consul_k8s.Peering.{
  Setting, World, Resource, KubeSecret, found, finalizer_name, get_secret, set_synced_condition,
  write_status,
}
use consul_k8s.Peering.Version.{version_annotation_updated, record_version, record_version_done}
use consul_k8s.Peering.Dialer.{
  spec_status_secrets_different, synced, update_status, establish_peering, reconcile_established,
  reconcile_token, reconcile_secrets, reconcile_present, reconcile,
}
use consul_k8s.Peering.Dialer.Plan.{
  leave, is_behind, plan, plan_secrets, perform, reconcile_establishes, update_status-consul,
}

-- Kubernetes answers with what was written, names do not change, a status update leaves the secrets
-- alone, and Consul has a peering that was established.
pub record IsLawfulStore (E : Setting) : Type 0 where
  pub named :
      (k : E.Kube) (name namespace : String) (o : Resource)
      → E.resources.get k name namespace ≡ found o
      → (o.name ≡ name) × (o.namespace ≡ namespace)
  pub get-update_status :
      (k : E.Kube) (o : Resource)
      → (E.resources.update_status k o).1 ≡ none
      → E.resources.get (E.resources.update_status k o).0 o.name o.namespace ≡ found o
  pub secret-update_status :
      (k : E.Kube) (o : Resource) (name namespace : String)
      → E.secrets.get (E.resources.update_status k o).0 name namespace
        ≡ E.secrets.get k name namespace
  pub read-establish :
      (c : E.Consul) (name token : String)
      → (E.peerings.establish c name token).1 ≡ none
      → E.peerings.read (E.peerings.establish c name token).0 name ≡ ok true

module _ (E : Setting) where
  -- The resource as a status update leaves it, with a status that is up to date.
  abbrev recorded : String → Option ℕ → Resource → Resource
  recorded version latest o = record (synced E version o) { latest_peering_version = latest }

  record IsRecorded (name namespace version : String) (o : Resource) (k : E.Kube) (w' : World E)
      : Type 0 where
    pub latest : Option ℕ
    pub now_there : E.resources.get w'.kube name namespace ≡ found (recorded version latest o)
    pub version_seen : version_annotation_updated E.quote (recorded version latest o) ≡ ok false
    pub same_secrets : (n ns : String) → E.secrets.get w'.kube n ns ≡ E.secrets.get k n ns

  update_status_done :
      (L : IsLawfulStore E) (name namespace version : String) (o : Resource) (w : World E)
      → E.resources.get w.kube name namespace ≡ found o
      → (update_status E name namespace version w).1 ≡ none
      → IsRecorded name namespace version o w.kube (update_status E name namespace version w).0
  unfolding update_status write_status set_synced_condition
  update_status_done L name namespace version o w there done =
      elim (Result-cases (record_version E.quote (synced E version o))) [
        | inl (o', e) ↦
            let (latest, same, seen) = record_version_done E.quote (synced E version o) o' e in
            let at : update_status E name namespace version w
                ≡ write_status E (recorded version latest o) w =
              rw (there, e, same, update_status) in
            let d : (write_status E (recorded version latest o) w).1 ≡ none =
              sym (ap (λ r. r.1) at) ∙ done in
            let (n, ns) = L.named w.kube name namespace o there in
            rw at (record {
              latest = latest;
              now_there =
                  rw (sym n, sym ns) (L.get-update_status w.kube (recorded version latest o) d);
              version_seen = rw (sym same) seen;
              same_secrets = λ n ns. L.secret-update_status w.kube (recorded version latest o) n ns;
            })
        | inr (t, e) ↦ ground (arith, done, there, e)
      ]

  reconcile_secrets-cases :
      (name namespace : String) (o : Resource) (w : World E)
      → (reconcile_secrets E name namespace o w).1 ≡ none
      → ((reconcile_secrets E name namespace o w).0 ≡ w)
        ⊎ ((spec : KubeSecret) × (get_secret E o.secret.name o.namespace w ≡ ok (some spec))
            × (reconcile_secrets E name namespace o w
                ≡ establish_peering E name namespace spec o w))
  unfolding reconcile_secrets reconcile_token reconcile_established
  reconcile_secrets-cases name namespace o w done =
      elim (Result-cases (get_secret E o.secret.name o.namespace w)) [
        | inl (none, e) ↦ ground (arith, done, e)
        | inl (some spec, e) ↦ ground (arith, done, e)
        | inr (t, e) ↦ ground (arith, done, e)
      ]

  establish_peering_done :
      (L : IsLawfulStore E) (name namespace : String) (spec : KubeSecret) (o : Resource)
      (w : World E)
      → E.resources.get w.kube name namespace ≡ found o
      → (establish_peering E name namespace spec o w).1 ≡ none
      → IsRecorded name namespace spec.resource_version o w.kube
          (establish_peering E name namespace spec o w).0
        × (E.peerings.read (establish_peering E name namespace spec o w).0.consul o.name ≡ ok true)
  unfolding establish_peering
  establish_peering_done L name namespace spec o w there done =
      let token = Dict.get o.secret.key spec.«data» in
      let c = (E.peerings.establish w.consul o.name token).0 in
      elim (Option-cases (E.peerings.establish w.consul o.name token).1) [
        | inl up ↦
            let w1 : World E = record w { consul = c } in
            let at : establish_peering E name namespace spec o w
                ≡ update_status E name namespace spec.resource_version w1 =
              rw (up, establish_peering) in
            rw at (
              update_status_done L name namespace spec.resource_version o w1 there
                  (sym (ap (λ r. r.1) at) ∙ done),
              rw (update_status-consul E name namespace spec.resource_version w1)
                  (L.read-establish w.consul o.name token up),
            )
        | inr (t, e) ↦ ground (arith, done, e)
      ]

  plan_recorded :
      (name namespace : String) (spec : KubeSecret) (o : Resource) (w w' : World E)
      (R : IsRecorded name namespace spec.resource_version o w.kube w')
      → get_secret E o.secret.name o.namespace w ≡ ok (some spec)
      → E.peerings.read w'.consul o.name ≡ ok true
      → plan_secrets E (recorded spec.resource_version R.latest o) w' ≡ leave
  unfolding get_secret spec_status_secrets_different set_synced_condition
  plan_recorded name namespace spec o w w' R seen there =
      let same : get_secret E o.secret.name o.namespace w' ≡ ok (some spec) =
        ground (arith, R.same_secrets o.secret.name o.namespace, seen) in
      rw (same, plan_secrets) (rw (same, there, is_behind) (ground (arith, R.version_seen)))

  plan_live : (o : Resource) (w : World E) → o.deleting ≡ false → plan E o w ≡ plan_secrets E o w
  plan_live o w live = ground (arith, live)

  again_established :
      (L : IsLawfulStore E) (name namespace : String) (spec : KubeSecret) (o : Resource)
      (w : World E)
      → E.resources.get w.kube name namespace ≡ found o
      → E.server_state ≡ none
      → E.new_client ≡ none
      → o.deleting ≡ false
      → E.contains_finalizer o.finalizers finalizer_name ≡ true
      → get_secret E o.secret.name o.namespace w ≡ ok (some spec)
      → (establish_peering E name namespace spec o w).1 ≡ none
      → (reconcile E name namespace (establish_peering E name namespace spec o w).0).0.consul
        ≡ (establish_peering E name namespace spec o w).0.consul
  unfolding set_synced_condition
  again_established L name namespace spec o w there up client live kept seen done =
      let w' = (establish_peering E name namespace spec o w).0 in
      let (R, peering) = establish_peering_done L name namespace spec o w there done in
      let now = recorded spec.resource_version R.latest o in
      let settled : plan E now w' ≡ leave =
        plan_live now w' live ∙ plan_recorded name namespace spec o w w' R seen peering in
      reconcile_establishes E name namespace now w' R.now_there
        (L.named w.kube name namespace o there).0 up client (ground (arith, live, kept))
      ∙ ap (λ a. perform E a now w'.consul) settled

  -- After a reconcile without an error of a dialer that is not being deleted and has the finalizer,
  -- a second reconcile changes nothing in Consul.
  pub reconcile_again :
      (L : IsLawfulStore E) (name namespace : String) (o : Resource) (w : World E)
      → E.resources.get w.kube name namespace ≡ found o
      → o.deleting ≡ false
      → E.contains_finalizer o.finalizers finalizer_name ≡ true
      → (reconcile E name namespace w).1 ≡ none
      → (reconcile E name namespace (reconcile E name namespace w).0).0.consul
        ≡ (reconcile E name namespace w).0.consul
  unfolding reconcile reconcile_present set_synced_condition
  reconcile_again L name namespace o w there live kept done = elim (Option-cases E.server_state) [
    | inr (t, e) ↦ ground (arith, done, there, e)
    | inl up ↦ elim (Option-cases E.new_client) [
      | inr (t, e) ↦ ground (arith, done, there, up, e)
      | inl client ↦
          let at : reconcile E name namespace w ≡ reconcile_secrets E name namespace o w =
            rw (there, up, client, reconcile) (rw (live, reconcile_present) (rw kept)) in
          elim (reconcile_secrets-cases name namespace o w (sym (ap (λ r. r.1) at) ∙ done)) [
            | inl idle ↦ ap (λ v. (reconcile E name namespace v).0.consul) (ap (λ r. r.0) at ∙ idle)
            | inr (spec, seen, called) ↦ rw (at ∙ called) (
                again_established L name namespace spec o w there up client live kept seen
                  (sym (ap (λ r. r.1) (at ∙ called)) ∙ done))
          ]
    ]
  ]
