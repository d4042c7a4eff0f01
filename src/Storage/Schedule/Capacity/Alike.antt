-- ===== src/Storage/Schedule/Capacity/Alike.antt =====
-- Two runs of `promote` whose evaluations are alike in what its loop tests stay alike.
use resource_extend.Base.{
  ℕ, zero, suc, ◌+◌, ◌≡◌, refl, ◌∙◌, ap, inl, inr, List, [], ◌∷◌, ◌++◌, Option, none, some, length,
  arith, Bool-cases, Option-cases,
}
use resource_extend.Base.Int.{ℤ}
use resource_extend.Storage.Binding.{VolumeBindings}
use resource_extend.Storage.Schedule.Host.{Volume, Host}
use resource_extend.Storage.Schedule.Capacity.Promote.{
  remove_at, search_size, promote_one, wants_more, promote_loop, promote, min_normal_request_size,
}

-- What is left has one volume less.
abbrev Shortens : ℕ → Option (Volume × List Volume) → Type 0
Shortens n none = Unit {0}
Shortens n (some (v, rest)) = n ≡ suc (length rest)

remove_at-Shortens : (p : ℕ) (vs : List Volume) → Shortens (length vs) (remove_at p vs)
unfolding remove_at
remove_at-Shortens p [] = tt
remove_at-Shortens zero (w ∷ vs) = refl
remove_at-Shortens (suc p) (w ∷ vs) = elim (Option-cases (remove_at p vs)) [
  | inl e ↦ rw (e, remove_at) tt
  | inr ((v, rest), e) ↦
      let ih : Shortens (length vs) (some (v, rest)) = rw e at (remove_at-Shortens p vs) in
      rw (e, remove_at) (ap suc ih)
]

-- Two hosts that have as many volumes, and make as many plans at most.
pub record IsKept (h h1 : Host) : Type 0 where
  pub count_eq : h1.max_deploy_count ≡ h.max_deploy_count
  pub volumes_eq :
      length h1.unused_volumes + length h1.used_volumes
      ≡ length h.unused_volumes + length h.used_volumes

abbrev pub Keeps : Host → Option Host → Type 0
Keeps h none = Unit {0}
Keeps h (some h1) = IsKept h h1 × (length h.unused_volumes ≡ suc (length h1.unused_volumes))

length_snoc : (vs : List Volume) (v : Volume) → length (vs ++ v ∷ []) ≡ suc (length vs)
length_snoc [] v = refl
length_snoc (w ∷ vs) v = ap suc (length_snoc vs v)

pub promote_one-Keeps : (size : ℤ) (h : Host) → Keeps h (promote_one size h)
unfolding promote_one
promote_one-Keeps size h =
    let p = search_size h.unused_volumes size in
    elim (Option-cases (remove_at p h.unused_volumes)) [
      | inl e ↦ rw (e, promote_one, Keeps) tt
      | inr ((v, rest), e) ↦
          let short : Shortens (length h.unused_volumes) (some (v, rest)) =
            rw e at (remove_at-Shortens p h.unused_volumes) in
          rw (e, promote_one, Keeps)
            (
              record { count_eq = refl; volumes_eq = omega (arith, length_snoc h.used_volumes v) },
              short,
            )
    ]

-- The loops of two evaluations, with a relation between what they find that decides the loop's test.
module _ {ℓ κ μ} {R : Type ℓ} {S : Type κ} (counts : R → ℕ × ℕ) (counts1 : S → ℕ × ℕ)
    (evaluate : Host → R) (evaluate1 : Host → S) (start : Host) (IsAlike : Host → R → S → Type μ)
    (evaluate-IsAlike : (h : Host) → IsKept start h → IsAlike h (evaluate h) (evaluate1 h))
    (wants_same : (h : Host) (r : R) (s : S)
      → IsAlike h r s
      → wants_more (counts r) h ≡ wants_more (counts1 s) h) where
  abbrev pub AreAlike : R × Host → S × Host → Type μ
  AreAlike (r, h) (s, h1) = IsKept start h × (h1 ≡ h) × IsAlike h r s

  promote_loop-AreAlike :
      (rounds : ℕ) (size : ℤ) (r : R) (s : S) (h : Host)
      → IsKept start h
      → IsAlike h r s
      → AreAlike
          (promote_loop counts evaluate rounds size r h)
          (promote_loop counts1 evaluate1 rounds size s h)
  unfolding promote_loop
  promote_loop-AreAlike zero size r s h k a = (k, refl, a)
  promote_loop-AreAlike (suc rounds) size r s h k a = elim (Bool-cases (wants_more (counts1 s) h)) [
    | inl e ↦ elim (Option-cases (promote_one size h)) [
      | inl none_left ↦ rw (wants_same h r s a, e, none_left, promote_loop) (k, refl, a)
      | inr (h1, one) ↦
          let kept : Keeps h (some h1) = rw one at (promote_one-Keeps size h) in
          let k1 : IsKept start h1 = record {
            count_eq = kept.0.count_eq ∙ k.count_eq;
            volumes_eq = kept.0.volumes_eq ∙ k.volumes_eq;
          } in
          rw (wants_same h r s a, e, one, promote_loop)
            (promote_loop-AreAlike rounds size (evaluate h1) (evaluate1 h1) h1 k1
              (evaluate-IsAlike h1 k1))
    ]
    | inr e ↦ rw (wants_same h r s a, e, promote_loop) (k, refl, a)
  ]

  pub promote-AreAlike :
      (normal : VolumeBindings)
      → AreAlike (promote counts evaluate normal start) (promote counts1 evaluate1 normal start)
  unfolding promote
  promote-AreAlike normal =
      let k : IsKept start start = record { count_eq = refl; volumes_eq = refl } in
      promote_loop-AreAlike (length start.unused_volumes) (min_normal_request_size normal)
        (evaluate start) (evaluate1 start) start k (evaluate-IsAlike start k)
