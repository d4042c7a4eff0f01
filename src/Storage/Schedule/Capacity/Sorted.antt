-- ===== src/Storage/Schedule/Capacity/Sorted.antt =====
-- The volumes of a new host are sorted by size.
use resource_extend.Base.{
  ℕ, zero, suc, true, false, ◌≡◌, List, [], ◌∷◌, inl, inr, some, All, get_elem?, arith, Bool-cases,
}
use resource_extend.Base.Int.{ℤ, ◌≤ℤ◌}
use resource_extend.Storage.Node.{NodeResource}
use resource_extend.Storage.Schedule.Host.{
  Volume, insert_volume, sort_volumes, volumes_in_use, new_host, less,
}
use resource_extend.Storage.Schedule.Capacity.Smallest.{IsSortedBySize}

abbrev AreAtLeast : ℤ → List Volume → Type 0
AreAtLeast n vs = All (λ (w : Volume). n ≤ℤ w.size) vs

abbrev IsChain : List Volume → Type 0
IsChain [] = Unit {0}
IsChain (v ∷ vs) = AreAtLeast v.size vs × IsChain vs

AreAtLeast-lower : (n m : ℤ) (vs : List Volume) → n ≤ℤ m → AreAtLeast m vs → AreAtLeast n vs
AreAtLeast-lower n m [] h hs = tt
AreAtLeast-lower n m (v ∷ vs) h hs =
    let first = hs.0 in (omega arith, AreAtLeast-lower n m vs h (hs.1))

AreAtLeast-get :
    (n : ℤ) (vs : List Volume) (i : ℕ) (w : Volume)
    → AreAtLeast n vs
    → get_elem? vs i ≡ some w
    → n ≤ℤ w.size
AreAtLeast-get n [] i w hs g = absurd (cc g)
AreAtLeast-get n (v ∷ vs) zero w hs g = let first = hs.0 in ground arith
AreAtLeast-get n (v ∷ vs) (suc i) w hs g = AreAtLeast-get n vs i w (hs.1) g

AreAtLeast-insert :
    (n : ℤ) (v : Volume) (vs : List Volume)
    → n ≤ℤ v.size
    → AreAtLeast n vs
    → AreAtLeast n (insert_volume v vs)
unfolding insert_volume
AreAtLeast-insert n v [] h hs = (h, tt)
AreAtLeast-insert n v (v1 ∷ vs) h hs = elim (Bool-cases (less v1 v)) [
  | inl e ↦ rw (e, insert_volume) (hs.0, AreAtLeast-insert n v vs h (hs.1))
  | inr e ↦ rw (e, insert_volume) (h, hs)
]

less-size : (v w : Volume) → less v w ≡ true → v.size ≤ℤ w.size
unfolding less
less-size v w h = ground arith

less-size_false : (v w : Volume) → less v w ≡ false → w.size ≤ℤ v.size
unfolding less
less-size_false v w h = ground arith

insert_volume-IsChain : (v : Volume) (vs : List Volume) → IsChain vs → IsChain (insert_volume v vs)
unfolding insert_volume
insert_volume-IsChain v [] h = (tt, tt)
insert_volume-IsChain v (v1 ∷ vs) h = elim (Bool-cases (less v1 v)) [
  | inl e ↦
      rw (e, insert_volume)
        (AreAtLeast-insert v1.size v vs (less-size v1 v e) (h.0), insert_volume-IsChain v vs (h.1))
  | inr e ↦
      let low = less-size_false v1 v e in
      rw (e, insert_volume) ((low, AreAtLeast-lower v.size v1.size vs low (h.0)), h)
]

sort_volumes-IsChain : (vs : List Volume) → IsChain (sort_volumes vs)
unfolding sort_volumes
sort_volumes-IsChain [] = tt
sort_volumes-IsChain (v ∷ vs) = insert_volume-IsChain v (sort_volumes vs) (sort_volumes-IsChain vs)

IsChain-IsSortedBySize : (vs : List Volume) → IsChain vs → IsSortedBySize vs
IsChain-IsSortedBySize [] h a b v w le g k = absurd (cc g)
IsChain-IsSortedBySize (x ∷ vs) h zero zero v w le g k = ground arith
IsChain-IsSortedBySize (x ∷ vs) h zero (suc b) v w le g k =
    let low = AreAtLeast-get x.size vs b w (h.0) k in ground arith
IsChain-IsSortedBySize (x ∷ vs) h (suc a) zero v w le g k = absurd (omega arith)
IsChain-IsSortedBySize (x ∷ vs) h (suc a) (suc b) v w le g k =
    IsChain-IsSortedBySize vs (h.1) a b v w (omega arith) g k

pub new_host-IsSortedBySize :
    (capacity usage : NodeResource) (n : ℕ)
    → IsSortedBySize (new_host capacity usage n).unused_volumes
unfolding new_host
new_host-IsSortedBySize capacity usage n =
    IsChain-IsSortedBySize _
      (sort_volumes-IsChain (volumes_in_use false usage.volumes capacity.volumes))
