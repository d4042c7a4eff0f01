-- ===== src/Storage/Schedule/Plans/Heap.antt =====
-- What the heap of volumes holds in all, through its sort and its pushes.
use resource_extend.Base.{◌≡◌, refl, sym, ◌∙◌, ap, List, [], ◌∷◌, inl, inr, All, arith, Bool-cases}
use resource_extend.Base.Int.{ℤ, pos, ◌≤ℤ◌}
use resource_extend.Base.Word.{
  add64, InRange, add64-InRange, add64-zero_left, add64_assoc, add64_comm,
}
use resource_extend.Storage.Schedule.Host.{Volume, sort_volumes, insert_volume, less}
use resource_extend.Storage.Schedule.Plans.{push_all}

-- What the volumes have in all, as `int64` adds it.
abbrev pub volumes_size : List Volume → ℤ
volumes_size [] = pos 0
volumes_size (v ∷ vs) = add64 v.size (volumes_size vs)

-- A size that is representable and not negative.
abbrev pub IsSize : ℤ → Type 0
IsSize a = (pos 0 ≤ℤ a) × InRange a

abbrev pub HasSize : Volume → Type 0
HasSize v = IsSize v.size

pub volumes_size-InRange : (vs : List Volume) → InRange (volumes_size vs)
volumes_size-InRange [] = omega arith
volumes_size-InRange (v ∷ vs) = add64-InRange _ _

pub add64_left_comm : (a b c : ℤ) → add64 a (add64 b c) ≡ add64 b (add64 a c)
add64_left_comm a b c = rw (← add64_assoc a b c, add64_comm a b, add64_assoc b a c) refl

insert_volume-size :
    (v : Volume) (vs : List Volume)
    → volumes_size (insert_volume v vs) ≡ add64 v.size (volumes_size vs)
unfolding insert_volume
insert_volume-size v [] = refl
insert_volume-size v (v1 ∷ vs) = elim (Bool-cases (less v1 v)) [
  | inl e ↦
      rw (e, insert_volume, insert_volume-size v vs)
        (add64_left_comm v1.size v.size (volumes_size vs))
  | inr e ↦ rw (e, insert_volume) refl
]

insert_volume-All :
    (v : Volume) (vs : List Volume) → HasSize v → All HasSize vs → All HasSize (insert_volume v vs)
unfolding insert_volume
insert_volume-All v [] h hs = (h, tt)
insert_volume-All v (v1 ∷ vs) h hs = elim (Bool-cases (less v1 v)) [
  | inl e ↦ rw (e, insert_volume) (hs.0, insert_volume-All v vs h (hs.1))
  | inr e ↦ rw (e, insert_volume) (h, hs)
]

pub sort_volumes-size : (vs : List Volume) → volumes_size (sort_volumes vs) ≡ volumes_size vs
unfolding sort_volumes
sort_volumes-size [] = refl
sort_volumes-size (v ∷ vs) =
    insert_volume-size v (sort_volumes vs) ∙ ap (add64 v.size) (sort_volumes-size vs)

pub sort_volumes-All : (vs : List Volume) → All HasSize vs → All HasSize (sort_volumes vs)
unfolding sort_volumes
sort_volumes-All [] hs = tt
sort_volumes-All (v ∷ vs) hs =
    insert_volume-All v (sort_volumes vs) (hs.0) (sort_volumes-All vs (hs.1))

pub push_all-size :
    (vs vh : List Volume)
    → volumes_size (push_all vs vh) ≡ add64 (volumes_size vs) (volumes_size vh)
unfolding push_all
push_all-size [] vh = sym (add64-zero_left _ (volumes_size-InRange vh))
push_all-size (v ∷ vs) vh =
    let left = volumes_size vs in
    let right = volumes_size vh in
    rw
      (
        push_all-size vs (insert_volume v vh),
        insert_volume-size v vh,
        add64_assoc v.size left right,
      )
      (add64_left_comm left v.size right)

pub push_all-All :
    (vs vh : List Volume) → All HasSize vs → All HasSize vh → All HasSize (push_all vs vh)
unfolding push_all
push_all-All [] vh hs hh = hh
push_all-All (v ∷ vs) vh hs hh =
    push_all-All vs (insert_volume v vh) (hs.1) (insert_volume-All v vh (hs.0) hh)
