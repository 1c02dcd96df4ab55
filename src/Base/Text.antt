-- ===== src/Base/Text.antt =====
-- `strings.ToLower`, on the letters of ASCII: any other character stays. The names that go through
-- it are DNS labels.
use Prim.Native.Char.{Char, code}
use Prim.Native.String.{String}
use consul_k8s.Base.Tests.{nat_eq, if◌then◌else◌}

-- The character at the place of `c` in the first text, from the second text.
pick : Char → String → String → Char
pick c (String.◌∷◌ u us) (String.◌∷◌ l ls) = if nat_eq (code c) (code u) then l else pick c us ls
pick c _ _ = c

unfoldable pub to_lower : String → String
unfolding pick
to_lower String.[] = ""
to_lower (String.◌∷◌ c s) =
    String.◌∷◌ (pick c "ABCDEFGHIJKLMNOPQRSTUVWXYZ" "abcdefghijklmnopqrstuvwxyz") (to_lower s)
