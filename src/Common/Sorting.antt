-- ===== src/Common/Sorting.antt =====
-- `slices.Sort` and `strings.Join` on texts. Go orders texts by their bytes, and in UTF-8 this is the
-- order by code points.
use Prim.Native.Char.{code}
use Prim.Native.String.{String}
use mathlib.Core.Bool.{Bool, true, false}
use mathlib.Core.List.{List, [], ◌∷◌}
use k8s_mtp.Common.Tests.{ltb, nat_eq, if◌then◌else◌}
use k8s_mtp.Common.Texts.{◌<>◌}

unfoldable pub text_le : String → String → Bool
text_le String.[] t = true
text_le (String.◌∷◌ c s) String.[] = false
text_le (String.◌∷◌ c s) (String.◌∷◌ d t) =
    let rest = text_le s t in
    if ltb (code c) (code d) then true else if nat_eq (code c) (code d) then rest else false

unfoldable pub insert_sorted : String → List String → List String
unfolding text_le
insert_sorted a [] = a ∷ []
insert_sorted a (x ∷ xs) = if text_le a x then a ∷ x ∷ xs else x ∷ insert_sorted a xs

unfoldable pub sort : List String → List String
unfolding insert_sorted
sort [] = []
sort (x ∷ xs) = insert_sorted x (sort xs)

unfoldable pub join : String → List String → String
join sep [] = ""
join sep (x ∷ []) = x
join sep (x ∷ y ∷ ys) = x <> (sep <> join sep (y ∷ ys))
