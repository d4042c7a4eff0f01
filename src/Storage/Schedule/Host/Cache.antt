-- ===== src/Storage/Schedule/Host/Cache.antt =====
-- A lookup of a disk by its path always answers, and changes only what the host keeps of lookups.
use resource_extend.Base.{ℕ, String, ◌≡◌, refl, inl, inr, Option, Option-cases}
use resource_extend.Base.Dict.{Dict, lookup, insert}
use resource_extend.Errors.{ok}
use resource_extend.Storage.Disk.Paths
use resource_extend.Storage.Schedule.Host.{Host, get_disk_by_path}

-- A lookup of a path answers, and changes nothing but what is kept.
pub record IsFound (path : String) (h : Host) : Type 0 where
  pub place : Option ℕ
  pub kept : Dict (Option ℕ)
  pub answer : get_disk_by_path path h ≡ (ok place, record h { disk_by_path = kept })

pub get_disk_by_path-IsFound : (path : String) (h : Host) → IsFound path h
unfolding get_disk_by_path
get_disk_by_path-IsFound path h = elim (Option-cases (lookup path h.disk_by_path)) [
  | inl e ↦ record {
    place = Paths.get_disk_by_path path h.disks;
    kept = insert path (Paths.get_disk_by_path path h.disks) h.disk_by_path;
    answer = rw (e, get_disk_by_path) refl;
  }
  | inr (found, e) ↦ record {
    place = found;
    kept = h.disk_by_path;
    answer = rw (e, get_disk_by_path) refl;
  }
]
