-- ===== src/Catalog/K8sSink/Changes.antt =====
-- What `crudList` computes (control-plane/catalog/to-k8s/sink.go), one service name at a time.
use consul_k8s.Base.{
  ◌⊎◌, sym, ◌≡◌, ◌≢◌, refl, ◌∙◌, inl, inr, String, true, not, ◌&&◌, Option, none, some,
}
use consul_k8s.Base.{List, [], ◌∷◌, ◌++◌, map, arith, ◌==◌, if◌then◌else◌, contains, is_some}
use consul_k8s.Base.Dict
use consul_k8s.Base.Dict.{Dict, NodupKeys, lookup-insert}
use consul_k8s.Catalog.K8sSink.{Service, K8sSink, Decision, matching, outdated, missing}
use consul_k8s.Catalog.K8sSink.{external, new_service, classify, redirect, updated, created}
use consul_k8s.Catalog.K8sSink.{changes, stale}

abbrev pub names : List Service → List String
names = map (λ svc. svc.name)

-- Each Consul-made service is held under its own name.
abbrev pub IsNamed : K8sSink → Type 0
IsNamed s =
    (k : String) (svc : Service) → Dict.lookup k s.service_map_consul ≡ some svc → svc.name ≡ k

redirect-has :
    (k name dns : String) (s : K8sSink)
    → Dict.has k (redirect name dns (classify s name dns) s).service_map_consul
      ≡ Dict.has k s.service_map_consul
unfolding classify
redirect-has k name dns s = grind (arith, lookup-insert)

pub changes_frame :
    (src : Dict String) (s : K8sSink)
    → (changes src s).0 ≡ record s { service_map_consul = (changes src s).0.service_map_consul }
unfolding changes
changes_frame [] s = refl
changes_frame ((name, dns) ∷ rest) s =
    ground (arith, changes_frame rest (redirect name dns (classify s name dns) s))

-- The loop writes to services that are held already, and holds no other.
pub changes-has :
    (k : String) (src : Dict String) (s : K8sSink)
    → Dict.has k (changes src s).0.service_map_consul ≡ Dict.has k s.service_map_consul
unfolding changes
changes-has k [] s = refl
changes-has k ((name, dns) ∷ rest) s =
    changes-has k rest (redirect name dns (classify s name dns) s) ∙ redirect-has k name dns s

-- The names to create are those of Consul that no service in Kubernetes has.
pub contains-create :
    (n : String) (src : Dict String) (s : K8sSink)
    → contains (names (changes src s).1) n
      ≡ (Dict.has n src && not (Dict.has n s.service_map_consul) && not (Dict.has n s.service_map))
unfolding changes
contains-create n [] s = rw Dict.lookup-nil
contains-create n ((name, dns) ∷ rest) s = ground (
  arith,
  contains-create n rest (redirect name dns (classify s name dns) s),
  redirect-has n name dns s,
  Dict.lookup-cons n name dns rest,
)

pub contains-stale :
    (n : String) (held : Dict Service) (source : Dict String)
    → contains (stale held source) n ≡ (Dict.has n held && not (Dict.has n source))
unfolding stale
contains-stale n [] source = rw Dict.lookup-nil
contains-stale n ((name, svc) ∷ rest) source =
    ground (arith, contains-stale n rest source, Dict.lookup-cons n name svc rest)

-- What a name holds after services were updated in turn, each under its own name: an update needs a
-- service that is there.
abbrev pub replaced : String → Option Service → List Service → Option Service
replaced n old [] = old
replaced n old (svc ∷ svcs) =
    replaced n (if n == svc.name && is_some old then some svc else old) svcs

-- What a name holds after services were created in turn: a creation needs a name that is free.
abbrev pub added : String → Option Service → List Service → Option Service
added n old [] = old
added n old (svc ∷ svcs) =
    added n (if n == svc.name && not (is_some old) then some svc else old) svcs

-- The service that the sink would write over the one it holds under a name.
abbrev pub outcome : Decision → String → Option Service → Option Service
outcome (outdated svc) dns (some _) = some (record svc { spec = external dns })
outcome _ dns old = old

redirect-IsNamed :
    (name dns : String) (s : K8sSink)
    → IsNamed s
    → IsNamed (redirect name dns (classify s name dns) s)
unfolding classify
redirect-IsNamed name dns s h k svc e = grind (arith, h k svc, h name, lookup-insert)

pub classify-redirect :
    (n dns' name dns : String) (s : K8sSink)
    → n ≢ name
    → classify (redirect name dns (classify s name dns) s) n dns' ≡ classify s n dns'
unfolding classify
classify-redirect n dns' name dns s differ = grind (arith, lookup-insert)

replaced-updated :
    (n name dns : String) (s : K8sSink) (old : Option Service) (l : List Service)
    → IsNamed s
    → replaced n old (updated dns (classify s name dns) ++ l)
      ≡ replaced n (if n == name then outcome (classify s name dns) dns old else old) l
unfolding classify
replaced-updated n name dns s old l h = grind (arith, h name)

pub replaced-update_absent :
    (n : String) (src : Dict String) (s : K8sSink) (old : Option Service)
    → IsNamed s
    → Dict.lookup n src ≡ none
    → replaced n old (changes src s).2 ≡ old
unfolding changes
replaced-update_absent n [] s old h e = refl
replaced-update_absent n ((name, dns) ∷ rest) s old h e =
    let s' = redirect name dns (classify s name dns) s in
    let keep = replaced-update_absent n rest s' old (redirect-IsNamed name dns s h) in
    replaced-updated n name dns s old (changes rest s').2 h
    ∙ ground (arith, Dict.lookup-cons n name dns rest)

pub replaced-update :
    (n dns : String) (src : Dict String) (s : K8sSink) (old : Option Service)
    → IsNamed s
    → NodupKeys src
    → Dict.lookup n src ≡ some dns
    → replaced n old (changes src s).2 ≡ outcome (classify s n dns) dns old
unfolding changes
replaced-update n dns [] s old h u e = absurd (ground (arith, Dict.lookup-nil {V = String} n))
replaced-update n dns ((name, dns') ∷ rest) s old h (fresh, u) e =
    let s' = redirect name dns' (classify s name dns') s in
    let named = redirect-IsNamed name dns' s h in
    replaced-updated n name dns' s old (changes rest s').2 h
    ∙ ground (
      arith,
      Dict.lookup-cons n name dns' rest,
      replaced-update n dns rest s' old named u,
      replaced-update_absent n rest s' (outcome (classify s name dns') dns' old) named,
      classify-redirect n dns name dns' s,
    )

-- The service that the sink would create under a name.
abbrev pub creation : Decision → String → String → Option Service → Option Service
creation missing name dns none = some (new_service name dns)
creation _ name dns old = old

added-created :
    (n name dns : String) (d : Decision) (old : Option Service) (l : List Service)
    → added n old (created name dns d ++ l)
      ≡ added n (if n == name then creation d name dns old else old) l
added-created n name dns matching old l = ground arith
added-created n name dns d old l = ground arith

pub added-create_absent :
    (n : String) (src : Dict String) (s : K8sSink) (old : Option Service)
    → Dict.lookup n src ≡ none
    → added n old (changes src s).1 ≡ old
unfolding changes
added-create_absent n [] s old e = refl
added-create_absent n ((name, dns) ∷ rest) s old e =
    let s' = redirect name dns (classify s name dns) s in
    added-created n name dns (classify s name dns) old (changes rest s').1
    ∙ ground (arith, Dict.lookup-cons n name dns rest, added-create_absent n rest s' old)

pub added-create :
    (n dns : String) (src : Dict String) (s : K8sSink) (old : Option Service)
    → NodupKeys src
    → Dict.lookup n src ≡ some dns
    → added n old (changes src s).1 ≡ creation (classify s n dns) n dns old
unfolding changes
added-create n dns [] s old u e = absurd (ground (arith, Dict.lookup-nil {V = String} n))
added-create n dns ((name, dns') ∷ rest) s old (fresh, u) e =
    let d = classify s name dns' in
    let s' = redirect name dns' d s in
    added-created n name dns' d old (changes rest s').1
    ∙ ground (
      arith,
      Dict.lookup-cons n name dns' rest,
      added-create n dns rest s' old u,
      added-create_absent n rest s' (creation d name dns' old),
      classify-redirect n dns name dns' s,
    )

contains-updated :
    (n name dns : String) (s : K8sSink) (l : List Service)
    → IsNamed s
    → contains (names (updated dns (classify s name dns) ++ l)) n ≡ true
    → (Dict.has n s.service_map_consul ≡ true) ⊎ (contains (names l) n ≡ true)
unfolding classify
contains-updated n name dns s l h e = grind (arith, h name)

-- Only services that the sink holds as its own are updated.
pub contains-update :
    (n : String) (src : Dict String) (s : K8sSink)
    → IsNamed s
    → contains (names (changes src s).2) n ≡ true
    → Dict.has n s.service_map_consul ≡ true
unfolding changes
contains-update n [] s h e = cc
contains-update n ((name, dns) ∷ rest) s h e =
    let s' = redirect name dns (classify s name dns) s in
    elim (contains-updated n name dns s (changes rest s').2 h e) [
      | inl held ↦ held
      | inr later ↦
          sym (redirect-has n name dns s)
          ∙ contains-update n rest s' (redirect-IsNamed name dns s h) later
    ]
