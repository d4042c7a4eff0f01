-- ===== src/Storage/Schedule/Quota.antt =====
-- The closed form `quotaHeadroom` of storage/schedule/schedule.go against the passes that it counts.
use native.Mathlib.Nat.{mul-zero, suc-mul}
use resource_extend.Base.{
  ℕ, zero, suc, ◌*◌, ◌≤◌, ◌<◌, Bool, true, ◌&&◌, ◌≡◌, ◌↔◌, inl, inr, some, arith, Bool-cases, refl,
}
use resource_extend.Base.Int.{ℤ, pos, negsuc, pos_part, ◌≤ℤ◌, ltb_ℤ, quo, -ℤ_parts, ◌-ℤ◌, one_sign}
use resource_extend.Base.Quotient.{le-quo}
use resource_extend.Base.Word.{InRange, sub64, sub64-eq, sub64-InRange}
use resource_extend.Storage.Disk.{Rates, Disk, sub_rates}
use resource_extend.Storage.Disk.Quota.{RatesInRange}
use resource_extend.Storage.Binding.{VolumeBinding}
use resource_extend.Storage.Schedule.{
  is_disk_iops_quota_qualified, decrease_iops_quota, quota_headroom, bound_by, max_int,
}

-- The enumeration: `n` times in a row the disk qualifies for the request and gives it its quota.
unfoldable pub passes : ℕ → Disk → VolumeBinding → Bool
unfolding is_disk_iops_quota_qualified decrease_iops_quota
passes zero disk req = true
passes (suc n) disk req =
    is_disk_iops_quota_qualified (some disk) req && passes n (decrease_iops_quota disk req) req

abbrev pub IsNonnegative : Rates → Type 0
IsNonnegative r =
    (pos 0 ≤ℤ r.read_iops)
    × (pos 0 ≤ℤ r.write_iops)
    × (pos 0 ≤ℤ r.read_bps)
    × (pos 0 ≤ℤ r.write_bps)

-- Each rate holds the other `n` times.
abbrev pub Holds : ℕ → Rates → Rates → Type 0
Holds n r q =
    (n * pos_part q.read_iops ≤ pos_part r.read_iops)
    × (n * pos_part q.write_iops ≤ pos_part r.write_iops)
    × (n * pos_part q.read_bps ≤ pos_part r.read_bps)
    × (n * pos_part q.write_bps ≤ pos_part r.write_bps)

le-bound_by :
    (n : ℕ) (rate sum head : ℤ)
    → 0 < n
    → pos 0 ≤ℤ sum
    → (pos n ≤ℤ bound_by rate sum head) ↔ ((n * pos_part sum ≤ pos_part rate) × (pos n ≤ℤ head))
le-bound_by n rate (pos zero) head h hs = (λ p. (omega (arith, mul-zero n), p), λ p. p.1)
le-bound_by n rate (pos (suc k)) head h hs =
    let q = le-quo n rate (pos (suc k)) h (omega arith) in
    let positive : ltb_ℤ (pos 0) (pos (suc k)) ≡ true = ground arith in
    elim (Bool-cases (ltb_ℤ (quo rate (pos (suc k))) head)) [
      | inl e ↦ rw (positive, e) (λ p. (q.0 p, ground arith), λ p. q.1 p.0)
      | inr e ↦ rw (positive, e) (λ p. (q.0 (ground arith), p), λ p. p.1)
    ]
le-bound_by n rate (negsuc k) head h hs = absurd (omega arith)

le-quota_headroom :
    (n : ℕ) (disk : Disk) (sum : VolumeBinding)
    → 0 < n
    → pos n ≤ℤ max_int
    → IsNonnegative sum.rates
    → (pos n ≤ℤ quota_headroom disk sum) ↔ Holds n disk.rates sum.rates
unfolding quota_headroom
le-quota_headroom n disk sum h hm hs =
    let a = le-bound_by n disk.read_iops sum.read_iops max_int h hs.0 in
    let h1 = bound_by disk.read_iops sum.read_iops max_int in
    let b = le-bound_by n disk.write_iops sum.write_iops h1 h hs.1 in
    let h2 = bound_by disk.write_iops sum.write_iops h1 in
    let c = le-bound_by n disk.read_bps sum.read_bps h2 h hs.2 in
    let h3 = bound_by disk.read_bps sum.read_bps h2 in
    let d = le-bound_by n disk.write_bps sum.write_bps h3 h hs.3 in
    (
      λ p.
          let p3 = d.0 p in
          let p2 = c.0 p3.1 in let p1 = b.0 p2.1 in ((a.0 p1.1).0, p1.0, p2.0, p3.0),
      λ p. d.1 (p.3, c.1 (p.2, b.1 (p.1, a.1 (p.0, hm)))),
    )

-- One rate after one pass.
rate_after :
    (n : ℕ) (a k : ℤ)
    → pos 0 ≤ℤ a
    → pos 0 ≤ℤ k
    → k ≤ℤ a
    → InRange a
    → (pos 0 ≤ℤ sub64 a k)
      × ((suc n * pos_part k ≤ pos_part a) ↔ (n * pos_part k ≤ pos_part (sub64 a k)))
rate_after n a k ha hk h r =
    let e = sub64-eq a k (omega (arith, -ℤ_parts a k, one_sign (a -ℤ k), one_sign a, one_sign k)) in
    rw e (
      omega (arith, -ℤ_parts a k, one_sign (a -ℤ k)),
      (
        λ p. omega (
          arith,
          suc-mul n (pos_part k),
          -ℤ_parts a k,
          one_sign (a -ℤ k),
          one_sign a,
          one_sign k,
        ),
        λ p. omega (
          arith,
          suc-mul n (pos_part k),
          -ℤ_parts a k,
          one_sign (a -ℤ k),
          one_sign a,
          one_sign k,
        ),
      ),
    )

Holds-zero : (r q : Rates) → Holds 0 r q
Holds-zero r q = (omega arith, omega arith, omega arith, omega arith)

-- One pass less on the rates that a pass leaves.
Holds-suc :
    (n : ℕ) (r q : Rates)
    → IsNonnegative r
    → IsNonnegative q
    → RatesInRange r
    → Holds 1 r q
    → IsNonnegative (sub_rates r q) × (Holds (suc n) r q ↔ Holds n (sub_rates r q) q)
Holds-suc n r q hr hq ir h =
    let a =
      rate_after n r.read_iops q.read_iops hr.0 hq.0
        (omega (arith, h.0, one_sign r.read_iops, one_sign q.read_iops)) ir.0 in
    let b =
      rate_after n r.write_iops q.write_iops hr.1 hq.1
        (omega (arith, h.1, one_sign r.write_iops, one_sign q.write_iops)) ir.1 in
    let c =
      rate_after n r.read_bps q.read_bps hr.2 hq.2
        (omega (arith, h.2, one_sign r.read_bps, one_sign q.read_bps)) ir.2 in
    let d =
      rate_after n r.write_bps q.write_bps hr.3 hq.3
        (omega (arith, h.3, one_sign r.write_bps, one_sign q.write_bps)) ir.3 in
    (
      (a.0, b.0, c.0, d.0),
      (
        λ p. (a.1.0 p.0, b.1.0 p.1, c.1.0 p.2, d.1.0 p.3),
        λ p. (a.1.1 p.0, b.1.1 p.1, c.1.1 p.2, d.1.1 p.3),
      ),
    )

sub_rates-RatesInRange : (r q : Rates) → RatesInRange (sub_rates r q)
sub_rates-RatesInRange r q =
    (sub64-InRange _ _, sub64-InRange _ _, sub64-InRange _ _, sub64-InRange _ _)

is_qualified_iff :
    (disk : Disk) (req : VolumeBinding)
    → IsNonnegative disk.rates
    → IsNonnegative req.rates
    → (is_disk_iops_quota_qualified (some disk) req ≡ true) ↔ Holds 1 disk.rates req.rates
unfolding is_disk_iops_quota_qualified
is_qualified_iff disk req hr hq = (λ p. ground arith, λ p. ground arith)

Holds-one : (n : ℕ) (r q : Rates) → Holds (suc n) r q → Holds 1 r q
Holds-one n r q h = (
  omega (arith, h.0, suc-mul n (pos_part q.read_iops)),
  omega (arith, h.1, suc-mul n (pos_part q.write_iops)),
  omega (arith, h.2, suc-mul n (pos_part q.read_bps)),
  omega (arith, h.3, suc-mul n (pos_part q.write_bps)),
)

passes_iff :
    (n : ℕ) (disk : Disk) (req : VolumeBinding)
    → IsNonnegative disk.rates
    → IsNonnegative req.rates
    → RatesInRange disk.rates
    → (passes n disk req ≡ true) ↔ Holds n disk.rates req.rates
unfolding passes decrease_iops_quota
passes_iff zero disk req hr hq ir = (λ p. Holds-zero disk.rates req.rates, λ p. refl)
passes_iff (suc n) disk req hr hq ir =
    let next = decrease_iops_quota disk req in
    let first = is_qualified_iff disk req hr hq in
    (
      λ p.
          let holds = first.0 (ground arith) in
          let after = Holds-suc n disk.rates req.rates hr hq ir holds in
          let again =
            passes_iff n next req after.0 hq (sub_rates-RatesInRange disk.rates req.rates) in
          after.1.1 (again.0 (ground arith)),
      λ p.
          let holds = Holds-one n disk.rates req.rates p in
          let after = Holds-suc n disk.rates req.rates hr hq ir holds in
          let again =
            passes_iff n next req after.0 hq (sub_rates-RatesInRange disk.rates req.rates) in
          ground (arith, first.1 holds, again.1 (after.1.0 p)),
    )

-- Where the rates of the disk and the sum of the requests are not negative and fit `int64`, a disk
-- passes the quota test `n` times in a row, each pass taking its quota, exactly if `n` is at most
-- `quotaHeadroom`; `n` is a positive `int`.
pub quota_headroom-passes :
    (n : ℕ) (disk : Disk) (sum : VolumeBinding)
    → 0 < n
    → pos n ≤ℤ max_int
    → IsNonnegative disk.rates
    → IsNonnegative sum.rates
    → RatesInRange disk.rates
    → (pos n ≤ℤ quota_headroom disk sum) ↔ (passes n disk sum ≡ true)
quota_headroom-passes n disk sum h hm hr hq ir =
    let head = le-quota_headroom n disk sum h hm hq in
    let all = passes_iff n disk sum hr hq ir in (λ p. all.1 (head.0 p), λ p. head.1 (all.0 p))
