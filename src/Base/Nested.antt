-- ===== src/Base/Nested.antt =====
-- Go maps of maps and maps of sets. A missing inner map reads as an empty one, and the code makes
-- it before the first write. A set is a list that holds its members.
use Prim.Native.String.{String}
use mathlib.Core.Path.{◌≡◌}
use mathlib.Core.Bool.{Bool, ◌&&◌, ◌||◌}
use mathlib.Core.Option.{Option, some}
use mathlib.Core.List.{List, [], ◌∷◌}
use native.Mathlib.Omega.{arith}
use consul_k8s.Base.Tests.{if◌then◌else◌, get_or}
use consul_k8s.Base.Equality.{◌==◌, contains}
use consul_k8s.Base.Dict.{Dict, lookup, insert, lookup-insert}

module _ {ℓ} {V : Type ℓ} where
  -- `m[a][b]`
  abbrev pub lookup2 : String → String → Dict (Dict V) → Option V
  lookup2 a b m = lookup b (get_or (lookup a m) [])

  -- `m[a][b] = v`
  unfoldable pub insert2 : String → String → V → Dict (Dict V) → Dict (Dict V)
  insert2 a b v m = insert a (insert b v (get_or (lookup a m) [])) m

  pub lookup2-insert2 :
      (i j a b : String) (v : V) (m : Dict (Dict V))
      → lookup2 i j (insert2 a b v m) ≡ (if i == a && j == b then some v else lookup2 i j m)
  unfolding insert2
  lookup2-insert2 i j a b v m = ground (
    arith,
    lookup-insert i a (insert b v (get_or (lookup a m) [])) m,
    lookup-insert j b v (get_or (lookup a m) []),
  )

-- `m[a].Contains(x)`, with `m[a]` there.
abbrev pub has_member : String → String → Dict (List String) → Bool
has_member a x m = contains (get_or (lookup a m) []) x

-- `m[a].Add(x)`
unfoldable pub add_member : String → String → Dict (List String) → Dict (List String)
add_member a x m =
    let set = get_or (lookup a m) [] in insert a (if contains set x then set else x ∷ set) m

pub has_member-add_member :
    (i y a x : String) (m : Dict (List String))
    → has_member i y (add_member a x m) ≡ ((i == a && y == x) || has_member i y m)
unfolding add_member
has_member-add_member i y a x m =
    let set = get_or (lookup a m) [] in
    ground (arith, lookup-insert i a (if contains set x then set else x ∷ set) m)
