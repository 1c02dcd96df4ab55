-- ===== src/Catalog/K8sSink/Retry.antt =====
-- The write through `svc.Spec` in `crudList` marks an update as done before it is sent.
use consul_k8s.Base.{◌≡◌, refl, ap, String, Bool, true, false, some, none, [], ◌∷◌, arith}
use consul_k8s.Base.Dict
use consul_k8s.Base.Dict.{Dict, NodupKeys, lookup-insert, lookup-cons}
use consul_k8s.Catalog.K8sSink.{
  K8sSink, Decision, outdated, classify, changes, crud_list, redirect, updated,
}
use consul_k8s.Catalog.K8sSink.Changes.{classify-redirect, changes_frame}

abbrev is_outdated : Decision → Bool
is_outdated (outdated svc) = true
is_outdated _ = false

redirect-is_outdated :
    (n dns : String) (s : K8sSink)
    → is_outdated (classify (redirect n dns (classify s n dns) s) n dns) ≡ false
unfolding classify
redirect-is_outdated n dns s = grind (arith, lookup-insert)

classify-changes_absent :
    (n dns : String) (src : Dict String) (s : K8sSink)
    → Dict.lookup n src ≡ none
    → classify (changes src s).0 n dns ≡ classify s n dns
unfolding changes
classify-changes_absent n dns [] s e = refl
classify-changes_absent n dns ((name, dns') ∷ rest) s e = ground (
  arith,
  lookup-cons n name dns' rest,
  classify-changes_absent n dns rest (redirect name dns' (classify s name dns') s),
  classify-redirect n dns name dns' s,
)

changes-is_outdated :
    (n dns : String) (src : Dict String) (s : K8sSink)
    → NodupKeys src
    → Dict.lookup n src ≡ some dns
    → is_outdated (classify (changes src s).0 n dns) ≡ false
unfolding changes
changes-is_outdated n dns [] s u e = absurd (ground (arith, Dict.lookup-nil {V = String} n))
changes-is_outdated n dns ((name, dns') ∷ rest) s (fresh, u) e =
    let s' = redirect name dns' (classify s name dns') s in
    ground (
      arith,
      lookup-cons n name dns' rest,
      changes-is_outdated n dns rest s' u,
      classify-changes_absent n dns rest s',
      redirect-is_outdated n dns s,
    )

not_outdated :
    (name dns : String) (d : Decision) (s : K8sSink)
    → is_outdated d ≡ false
    → (redirect name dns d s ≡ s) × (updated dns d ≡ [])
not_outdated name dns (outdated svc) s h = cc
not_outdated name dns _ s h = (refl, refl)

update_of_not_outdated :
    (src : Dict String) (s : K8sSink)
    → NodupKeys src
    → ((n dns : String) → Dict.lookup n src ≡ some dns → is_outdated (classify s n dns) ≡ false)
    → (changes src s).2 ≡ []
unfolding changes
update_of_not_outdated [] s u h = refl
update_of_not_outdated ((name, dns) ∷ rest) s (fresh, u) h =
    let (same, none_here) =
      not_outdated name dns (classify s name dns) s
        (h name dns (ground (arith, lookup-cons name name dns rest))) in
    let ih =
      update_of_not_outdated rest s u
        λ n dns' e. h n dns' (ground (arith, lookup-cons n name dns rest)) in
    rw (same, none_here, ih)

-- Computing the lists a second time, with no event between, lists no update, whatever became of
-- the calls that the first lists asked for.
pub crud_list_again :
    (s : K8sSink) → NodupKeys s.source_services → (crud_list (crud_list s).0).1.update ≡ []
unfolding crud_list
crud_list_again s u =
    let t = (changes s.source_services s).0 in
    let same : t.source_services ≡ s.source_services =
      ap (λ (k : K8sSink). k.source_services) (changes_frame s.source_services s) in
    update_of_not_outdated t.source_services t (rw same u)
      λ n dns e. changes-is_outdated n dns s.source_services s u (rw same at e)
