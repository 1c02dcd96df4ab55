-- ===== src/Tests/Source.antt =====
-- Tests of the service source of control-plane/catalog/to-k8s.
use consul_k8s.Base.{◌≡◌, refl, ◌<>◌, String, List, [], ◌∷◌, string_dec}
use consul_k8s.Base.Dict
use consul_k8s.Base.Dict.{Dict, NodupKeys, lookup}
use consul_k8s.Catalog.Source.{Source, select}
use consul_k8s.Catalog.Source.Selection.{wanted, lookup-select}

abbrev source : Source
source = record { domain = "consul"; prefix = "c-"; consul_k8s_tag = "k8s" }

abbrev listed : Dict (List String)
listed = ("web", "v1" ∷ []) ∷ ("api", "v1" ∷ "k8s" ∷ []) ∷ []

selected : select source listed [] ≡ ("c-web", "web.service.consul") ∷ []
unfolding select Dict.insert string_dec
selected = refl

listed-NodupKeys : NodupKeys listed
unfolding lookup string_dec
listed-NodupKeys = (refl, (refl, tt))

lookup-select_example :
    lookup (source.prefix <> "web") (select source listed []) ≡ wanted source "web" listed
lookup-select_example = lookup-select source "web" listed listed-NodupKeys
