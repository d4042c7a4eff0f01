-- ===== src/Storage/Schedule/Classes.antt =====
-- The classes of volume bindings (classifyVolumeBindings of storage/schedule/schedule.go).
use resource_extend.Base.{
  ℕ, suc, ◌+◌, Bool, true, false, inl, inr, Bool-cases, ◌≡◌, refl, [], ◌∷◌, ◌++◌, arith, All,
  if◌then◌else◌,
}
use resource_extend.Base.Int.{◌≤ℤ◌, leb_ℤ}
use resource_extend.Storage.Binding.{
  VolumeBinding, VolumeBindings, require_schedule, require_schedule_monopoly,
  require_schedule_unlimited_quota,
}
use resource_extend.Storage.Schedule.{
  RequestClasses, no_requests, classify_one, classify_loop, classify_volume_bindings,
  insert_by_size, sort_by_size,
}

-- How many bindings pass a test.
abbrev pub count_if : (VolumeBinding → Bool) → VolumeBindings → ℕ
count_if test [] = 0
count_if test (b ∷ bs) = if test b then suc (count_if test bs) else count_if test bs

-- The same for all classes together.
abbrev pub count_all : (VolumeBinding → Bool) → RequestClasses → ℕ
count_all test c =
    count_if test c.normal
    + count_if test c.mono
    + count_if test c.unlimited
    + count_if test c.mount

abbrev pub IsMono : VolumeBinding → Type 0
IsMono b = require_schedule_monopoly b ≡ true

abbrev pub IsUnlimited : VolumeBinding → Type 0
IsUnlimited b = (require_schedule_monopoly b ≡ false) × (require_schedule_unlimited_quota b ≡ true)

abbrev pub IsNormal : VolumeBinding → Type 0
IsNormal b =
    (require_schedule_monopoly b ≡ false)
    × (require_schedule_unlimited_quota b ≡ false)
    × (require_schedule b ≡ true)

abbrev pub IsMount : VolumeBinding → Type 0
IsMount b = require_schedule b ≡ false

-- Each binding stands in its own class.
pub record AreSplit (c : RequestClasses) : Type 0 where
  pub normal : All IsNormal c.normal
  pub mono : All IsMono c.mono
  pub unlimited : All IsUnlimited c.unlimited
  pub mount : All IsMount c.mount

-- Sizes do not decrease along the list.
abbrev pub IsSortedBySize : VolumeBindings → Type 0
IsSortedBySize [] = Unit {0}
IsSortedBySize (b ∷ bs) = All (λ b1. b.size_in_bytes ≤ℤ b1.size_in_bytes) bs × IsSortedBySize bs

count_if-append :
    (test : VolumeBinding → Bool) (bs cs : VolumeBindings)
    → count_if test (bs ++ cs) ≡ count_if test bs + count_if test cs
count_if-append test [] cs = omega arith
count_if-append test (b ∷ bs) cs = ground (arith, count_if-append test bs cs)

All-append {ℓ} :
    (P : VolumeBinding → Type ℓ) (bs : VolumeBindings) (b : VolumeBinding)
    → All P bs
    → P b
    → All P (bs ++ b ∷ [])
All-append P [] b h p = (p, tt)
All-append P (c ∷ bs) b h p = (h.0, All-append P bs b h.1 p)

count_all-classify_one :
    (test : VolumeBinding → Bool) (b : VolumeBinding) (c : RequestClasses)
    → count_all test (classify_one b c)
      ≡ (if test b then suc (count_all test c) else count_all test c)
unfolding classify_one
count_all-classify_one test b c = ground (
  arith,
  count_if-append test c.normal (b ∷ []),
  count_if-append test c.mono (b ∷ []),
  count_if-append test c.unlimited (b ∷ []),
  count_if-append test c.mount (b ∷ []),
)

count_all-classify_loop :
    (test : VolumeBinding → Bool) (c : RequestClasses) (bs : VolumeBindings)
    → count_all test (classify_loop c bs) ≡ count_all test c + count_if test bs
unfolding classify_loop
count_all-classify_loop test c [] = omega arith
count_all-classify_loop test c (b ∷ bs) =
    ground
      (arith, count_all-classify_loop test (classify_one b c) bs, count_all-classify_one test b c)

count_if-insert_by_size :
    (test : VolumeBinding → Bool) (b : VolumeBinding) (bs : VolumeBindings)
    → count_if test (insert_by_size b bs) ≡ count_if test (b ∷ bs)
unfolding insert_by_size
count_if-insert_by_size test b [] = refl
count_if-insert_by_size test b (c ∷ bs) = ground (arith, count_if-insert_by_size test b bs)

count_if-sort_by_size :
    (test : VolumeBinding → Bool) (bs : VolumeBindings)
    → count_if test (sort_by_size bs) ≡ count_if test bs
unfolding sort_by_size
count_if-sort_by_size test [] = refl
count_if-sort_by_size test (b ∷ bs) =
    ground (arith, count_if-insert_by_size test b (sort_by_size bs), count_if-sort_by_size test bs)

-- No binding is lost or doubled: whatever is asked of bindings, as many of the classes answer it as
-- of the list that was classified.
pub classify_volume_bindings-count :
    (test : VolumeBinding → Bool) (bs : VolumeBindings)
    → count_all test (classify_volume_bindings bs) ≡ count_if test bs
unfolding classify_volume_bindings
classify_volume_bindings-count test bs =
    let c = classify_loop no_requests bs in
    omega (
      arith,
      count_all-classify_loop test no_requests bs,
      count_if-sort_by_size test c.mono,
      count_if-sort_by_size test c.normal,
    )

classify_one-AreSplit :
    (b : VolumeBinding) (c : RequestClasses) → AreSplit c → AreSplit (classify_one b c)
unfolding classify_one
classify_one-AreSplit b c h = elim (Bool-cases (require_schedule_monopoly b)) [
  | inl m ↦ rw m (record {
    normal = h.normal;
    mono = All-append IsMono c.mono b h.mono m;
    unlimited = h.unlimited;
    mount = h.mount;
  })
  | inr m ↦ elim (Bool-cases (require_schedule_unlimited_quota b)) [
    | inl u ↦
        rw (m, u)
          (record {
            normal = h.normal;
            mono = h.mono;
            unlimited = All-append IsUnlimited c.unlimited b h.unlimited (m, u);
            mount = h.mount;
          })
    | inr u ↦ elim (Bool-cases (require_schedule b)) [
      | inl s ↦
          rw (m, u, s)
            (record {
              normal = All-append IsNormal c.normal b h.normal (m, u, s);
              mono = h.mono;
              unlimited = h.unlimited;
              mount = h.mount;
            })
      | inr s ↦
          rw (m, u, s)
            (record {
              normal = h.normal;
              mono = h.mono;
              unlimited = h.unlimited;
              mount = All-append IsMount c.mount b h.mount s;
            })
    ]
  ]
]

classify_loop-AreSplit :
    (c : RequestClasses) (bs : VolumeBindings) → AreSplit c → AreSplit (classify_loop c bs)
unfolding classify_loop
classify_loop-AreSplit c [] h = h
classify_loop-AreSplit c (b ∷ bs) h =
    classify_loop-AreSplit (classify_one b c) bs (classify_one-AreSplit b c h)

All-insert_by_size {ℓ} :
    (P : VolumeBinding → Type ℓ) (b : VolumeBinding) (bs : VolumeBindings)
    → P b
    → All P bs
    → All P (insert_by_size b bs)
unfolding insert_by_size
All-insert_by_size P b [] p h = (p, tt)
All-insert_by_size P b (c ∷ bs) p h = elim (Bool-cases (leb_ℤ b.size_in_bytes c.size_in_bytes)) [
  | inl e ↦ rw e (p, h)
  | inr e ↦ rw e (h.0, All-insert_by_size P b bs p h.1)
]

All-sort_by_size {ℓ} :
    (P : VolumeBinding → Type ℓ) (bs : VolumeBindings) → All P bs → All P (sort_by_size bs)
unfolding sort_by_size
All-sort_by_size P [] h = tt
All-sort_by_size P (b ∷ bs) h =
    All-insert_by_size P b (sort_by_size bs) h.0 (All-sort_by_size P bs h.1)

All-larger :
    (b c : VolumeBinding) (bs : VolumeBindings)
    → b.size_in_bytes ≤ℤ c.size_in_bytes
    → All (λ (b1 : VolumeBinding). c.size_in_bytes ≤ℤ b1.size_in_bytes) bs
    → All (λ (b1 : VolumeBinding). b.size_in_bytes ≤ℤ b1.size_in_bytes) bs
All-larger b c [] h hs = tt
All-larger b c (d ∷ bs) h hs = (omega (arith, hs.0), All-larger b c bs h hs.1)

insert_by_size-IsSortedBySize :
    (b : VolumeBinding) (bs : VolumeBindings)
    → IsSortedBySize bs
    → IsSortedBySize (insert_by_size b bs)
unfolding insert_by_size
insert_by_size-IsSortedBySize b [] h = (tt, tt)
insert_by_size-IsSortedBySize b (c ∷ bs) h =
    elim (Bool-cases (leb_ℤ b.size_in_bytes c.size_in_bytes)) [
      | inl e ↦
          let le : b.size_in_bytes ≤ℤ c.size_in_bytes = ground arith in
          rw e ((le, All-larger b c bs le h.0), h)
      | inr e ↦
          let le : c.size_in_bytes ≤ℤ b.size_in_bytes = ground arith in
          rw e (
            All-insert_by_size (λ b1. c.size_in_bytes ≤ℤ b1.size_in_bytes) b bs le h.0,
            insert_by_size-IsSortedBySize b bs h.1,
          )
    ]

sort_by_size-IsSortedBySize : (bs : VolumeBindings) → IsSortedBySize (sort_by_size bs)
unfolding sort_by_size
sort_by_size-IsSortedBySize [] = tt
sort_by_size-IsSortedBySize (b ∷ bs) =
    insert_by_size-IsSortedBySize b (sort_by_size bs) (sort_by_size-IsSortedBySize bs)

-- Each class holds the bindings of its kind and no other, and the two classes that the scheduler
-- allocates in order, normal and mono, are sorted by size.
pub classify_volume_bindings-AreSplit :
    (bs : VolumeBindings)
    → let c = classify_volume_bindings bs in
      AreSplit c × IsSortedBySize c.normal × IsSortedBySize c.mono
unfolding classify_volume_bindings
classify_volume_bindings-AreSplit bs =
    let c = classify_loop no_requests bs in
    let split =
      classify_loop-AreSplit no_requests bs
        (record { normal = tt; mono = tt; unlimited = tt; mount = tt }) in
    (
      record {
        normal = All-sort_by_size IsNormal c.normal split.normal;
        mono = All-sort_by_size IsMono c.mono split.mono;
        unlimited = split.unlimited;
        mount = split.mount;
      },
      sort_by_size-IsSortedBySize c.normal,
      sort_by_size-IsSortedBySize c.mono,
    )
