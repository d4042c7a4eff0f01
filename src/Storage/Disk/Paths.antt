-- ===== src/Storage/Disk/Paths.antt =====
-- GetDiskByPath of storage/types/disk.go. A disk that is found is named by its place in the list,
-- which stands for its pointer.
pub mod Deepest
use Prim.Native.String.{String}
use Prim.Native.Char.{code}
use resource_extend.Base.{
  ℕ, suc, Bool, true, false, ◌&&◌, ◌||◌, ◌==◌, leb, List, [], ◌∷◌, Option, none, some,
  if◌then◌else◌,
}
use resource_extend.Base.Dict.{◌=s◌}
use resource_extend.Storage.Disk.{Disk, Disks}

-- `strings.TrimSuffix(s, "/")`
unfoldable pub trim_slash : String → String
trim_slash String.[] = String.[]
trim_slash (String.◌∷◌ c s) =
    if String.◌∷◌ c s =s "/" then String.[] else String.◌∷◌ c (trim_slash s)

-- `strings.Count(s, "/")`
unfoldable pub count_slashes : String → ℕ
count_slashes String.[] = 0
count_slashes (String.◌∷◌ c s) = if code c == 0x2f then suc (count_slashes s) else count_slashes s

-- `strings.HasPrefix(path, mount) && path[len(mount)] == '/'`, for two different texts.
unfoldable pub goes_below : String → String → Bool
goes_below String.[] mount = false
goes_below (String.◌∷◌ c path) String.[] = code c == 0x2f
goes_below (String.◌∷◌ c path) (String.◌∷◌ d mount) = (code c == code d) && goes_below path mount

unfoldable pub mount_covers : String → String → Bool
unfolding goes_below
mount_covers path mount = (path =s mount) || goes_below path mount

unfoldable pub depth_of : String → ℕ
unfolding trim_slash count_slashes
depth_of mount = suc (count_slashes (trim_slash mount))

-- `depth >= bestDepth`; the depth starts at -1, below any other.
unfoldable pub is_at_least : ℕ → Option (ℕ × ℕ) → Bool
is_at_least depth none = true
is_at_least depth (some (disk, best_depth)) = leb best_depth depth

unfoldable pub better : String → ℕ → String → Option (ℕ × ℕ) → Option (ℕ × ℕ)
unfolding is_at_least mount_covers depth_of
better path disk mount best =
    if is_at_least (depth_of mount) best && mount_covers path (trim_slash mount)
    then some (disk, depth_of mount)
    else best

-- The inner loop, over the mounts of a disk.
unfoldable pub best_mount : String → ℕ → List String → Option (ℕ × ℕ) → Option (ℕ × ℕ)
unfolding better
best_mount path disk [] best = best
best_mount path disk (mount ∷ mounts) best =
    best_mount path disk mounts (better path disk mount best)

-- The outer loop, over the disks from a place on.
unfoldable pub best_disk : String → ℕ → Disks → Option (ℕ × ℕ) → Option (ℕ × ℕ)
unfolding best_mount
best_disk path i [] best = best
best_disk path i (disk ∷ d) best = best_disk path (suc i) d (best_mount path i disk.mounts best)

abbrev pub place : Option (ℕ × ℕ) → Option ℕ
place none = none
place (some (disk, depth)) = some disk

unfoldable pub get_disk_by_path : String → Disks → Option ℕ
unfolding best_disk trim_slash
get_disk_by_path path d = place (best_disk (trim_slash path) 0 d none)
