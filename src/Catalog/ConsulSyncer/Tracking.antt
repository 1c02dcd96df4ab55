-- ===== src/Catalog/ConsulSyncer/Tracking.antt =====
-- What `Sync` records (control-plane/catalog/to-consul/syncer.go).
use mathlib.Core.Logic.{if_pos, if_neg}
use consul_k8s.Base.{
  string_dec, ◌≡◌, refl, ap, ◌∙◌, String, Bool, false, ◌&&◌, ◌||◌, Option, none, some, arith,
}
use consul_k8s.Base.{List, [], ◌∷◌, ◌==◌, if◌then◌else◌, get_or}
use consul_k8s.Base.Dict
use consul_k8s.Base.Dict.{Dict, NodupKeys, lookup, insert, lookup-insert, insert-NodupKeys}
use consul_k8s.Base.Nested.{
  lookup2, insert2, lookup2-insert2, has_member, add_member, has_member-add_member,
}
use consul_k8s.Catalog.ConsulSyncer.{Registration, ConsulSyncer, track, sync}

-- The last registration of an identifier in a namespace.
abbrev pub latest : String → String → Option Registration → List Registration → Option Registration
latest ns id old [] = old
latest ns id old (r ∷ rs) =
    latest ns id (if ns == r.namespace && id == r.id then some r else old) rs

-- Some registration is for a service of that name in the namespace.
abbrev pub offers : String → String → List Registration → Bool
offers ns name [] = false
offers ns name (r ∷ rs) = (ns == r.namespace && name == r.service) || offers ns name rs

track-latest :
    (ns id : String) (rs : List Registration) (s : ConsulSyncer)
    → lookup2 ns id (track rs s).namespaces ≡ latest ns id (lookup2 ns id s.namespaces) rs
unfolding track
track-latest ns id [] s = refl
track-latest ns id (r ∷ rs) s =
    track-latest ns id rs _
    ∙ ap (λ old. latest ns id old rs) (lookup2-insert2 ns id r.namespace r.id r s.namespaces)

track-offers :
    (ns name : String) (rs : List Registration) (s : ConsulSyncer)
    → has_member ns name (track rs s).service_names
      ≡ (offers ns name rs || has_member ns name s.service_names)
unfolding track
track-offers ns name [] s = refl
track-offers ns name (r ∷ rs) s =
    track-offers ns name rs _
    ∙ ground (arith, has_member-add_member ns name r.namespace r.service s.service_names)

-- The registrations of one namespace, each under its own identifier, none twice.
abbrev pub AreKeyed : String → Dict Registration → Type 0
AreKeyed ns [] = Unit
AreKeyed ns ((id, r) ∷ rs) =
    (r.namespace ≡ ns) × (r.id ≡ id) × (lookup id rs ≡ none) × AreKeyed ns rs

abbrev pub AreTracked : Dict (Dict Registration) → Type 0
AreTracked [] = Unit
AreTracked ((ns, rs) ∷ rest) = AreKeyed ns rs × (lookup ns rest ≡ none) × AreTracked rest

insert-AreKeyed :
    (r : Registration) (rs : Dict Registration)
    → AreKeyed r.namespace rs
    → AreKeyed r.namespace (insert r.id r rs)
unfolding insert
insert-AreKeyed r [] h = (refl, refl, Dict.lookup-nil r.id, tt)
insert-AreKeyed r ((id, r') ∷ rs) h =
    ground (arith, insert-AreKeyed r rs, lookup-insert id r.id r rs)

lookup-AreKeyed :
    (ns : String) (m : Dict (Dict Registration))
    → AreTracked m
    → AreKeyed ns (get_or (lookup ns m) [])
unfolding lookup
lookup-AreKeyed ns [] h = tt
lookup-AreKeyed ns ((ns', rs) ∷ rest) h = elim (string_dec ns ns') [
  | yes same ↦ rw (if_pos _ same) (rw same h.0)
  | no other ↦ rw (if_neg _ other) (lookup-AreKeyed ns rest h.2)
]

insert-AreTracked :
    (ns : String) (rs : Dict Registration) (m : Dict (Dict Registration))
    → AreKeyed ns rs
    → AreTracked m
    → AreTracked (insert ns rs m)
unfolding insert
insert-AreTracked ns rs [] k h = (k, Dict.lookup-nil ns, tt)
insert-AreTracked ns rs ((ns', rs') ∷ rest) k h = elim (string_dec ns ns') [
  | yes same ↦ rw (if_pos _ same) (k, rw same h.1, h.2)
  | no other ↦
      rw (if_neg _ other)
        (h.0, ground (arith, lookup-insert ns' ns rs rest, h.1), insert-AreTracked ns rs rest k h.2)
]

track-AreTracked :
    (rs : List Registration) (s : ConsulSyncer)
    → AreTracked s.namespaces
    → AreTracked (track rs s).namespaces
unfolding track insert2
track-AreTracked [] s h = h
track-AreTracked (r ∷ rs) s h = track-AreTracked rs _ (
    insert-AreTracked r.namespace _ s.namespaces
      (insert-AreKeyed r _ (lookup-AreKeyed r.namespace s.namespaces h)) h)

-- The maps that `Sync` leaves hold each registration under its own namespace and identifier.
pub sync-AreTracked :
    (rs : List Registration) (s : ConsulSyncer) → AreTracked (sync rs s).namespaces
unfolding sync
sync-AreTracked rs s = track-AreTracked rs _ tt

track-NodupKeys :
    (rs : List Registration) (s : ConsulSyncer)
    → NodupKeys s.service_names
    → NodupKeys (track rs s).service_names
unfolding track add_member
track-NodupKeys [] s u = u
track-NodupKeys (r ∷ rs) s u =
    track-NodupKeys rs _ (insert-NodupKeys r.namespace _ s.service_names u)

pub sync-NodupKeys :
    (rs : List Registration) (s : ConsulSyncer) → NodupKeys (sync rs s).service_names
unfolding sync
sync-NodupKeys rs s = track-NodupKeys rs _ tt

-- After `Sync` the syncer tracks, in each namespace, the last registration of each identifier and
-- the names of all services, and nothing else, whatever it tracked before.
pub sync-tracks :
    (ns id name : String) (rs : List Registration) (s : ConsulSyncer)
    → (lookup2 ns id (sync rs s).namespaces ≡ latest ns id none rs)
      × (has_member ns name (sync rs s).service_names ≡ offers ns name rs)
unfolding sync lookup
sync-tracks ns id name rs s = (track-latest ns id rs _, track-offers ns name rs _ ∙ ground arith)
