-- ===== src/Storage/Volumes.antt =====
-- The type Volumes of storage/types/volume.go: the size on each device. Maps are values, so
-- DeepCopy is the identity.
pub mod Sizes
use resource_extend.Base.{String, List, [], ◌∷◌, if◌then◌else◌}
use resource_extend.Base.Int.{ℤ, pos, eqb_ℤ}
use resource_extend.Base.Word.{add64, sub64}
use resource_extend.Base.Dict.{Dict, insert, count_of}

abbrev pub Volumes : Type 0
Volumes = Dict ℤ

unfoldable pub add : Volumes → Volumes → Volumes
add v [] = v
add v ((key, value) ∷ v1) = add (insert key (add64 (count_of key v) value) v) v1

unfoldable pub sub : Volumes → Volumes → Volumes
sub v [] = v
sub v ((key, value) ∷ v1) = sub (insert key (sub64 (count_of key v) value) v) v1

-- The key and the size of whichever entry a `range` gives first.
unfoldable pub get_device : Volumes → String
get_device [] = ""
get_device ((key, size) ∷ v) = key

unfoldable pub get_size : Volumes → ℤ
get_size [] = pos 0
get_size ((key, size) ∷ v) = size

unfoldable pub total_from : ℤ → Volumes → ℤ
total_from res [] = res
total_from res ((key, size) ∷ v) = total_from (add64 res size) v

unfoldable pub total : Volumes → ℤ
unfolding total_from
total v = total_from (pos 0) v

-- NodeResource.RemoveEmpty
unfoldable pub remove_empty : Volumes → Volumes
remove_empty [] = []
remove_empty ((key, size) ∷ v) =
    if eqb_ℤ size (pos 0) then remove_empty v else (key, size) ∷ remove_empty v
