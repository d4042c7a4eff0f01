-- ===== src/Storage/Disk/Quota.antt =====
-- What the operations on disks do to the rates of each device (storage/types/disk.go).
pub mod Merge
use resource_extend.Base.{
  String, ◌≡◌, refl, sym, ◌∙◌, ap, [], ◌∷◌, ◌++◌, Option, none, some, inl, inr, ◌⊎◌, arith, false,
  Bool-cases, Option-cases, if◌then◌else◌,
}
use resource_extend.Base.Word.{
  InRange, add64-zero, sub64-zero, add64-InRange, sub64-add64, add64-zero_left,
}
use text.Mathlib.TextEquality.{eq_iff}
use resource_extend.Base.Dict.{◌=s◌}
use resource_extend.Storage.Disk.{
  Rates, Disk, Disks, zero_rates, add_rates, sub_rates, negated, get_disk_by_device, change_first,
  change_disk, or_same, merge_loop, add, sub,
}
unfoldable pub use Merge.*

abbrev pub RatesInRange : Rates → Type 0
RatesInRange r =
    InRange r.read_iops × InRange r.write_iops × InRange r.read_bps × InRange r.write_bps

add_rates-zero : (r : Rates) → RatesInRange r → add_rates r zero_rates ≡ r
add_rates-zero r h = ground (
  arith,
  add64-zero r.read_iops h.0,
  add64-zero r.write_iops h.1,
  add64-zero r.read_bps h.2,
  add64-zero r.write_bps h.3,
)

add_rates-zero_left : (r : Rates) → RatesInRange r → add_rates zero_rates r ≡ r
add_rates-zero_left r h = ground (
  arith,
  add64-zero_left r.read_iops h.0,
  add64-zero_left r.write_iops h.1,
  add64-zero_left r.read_bps h.2,
  add64-zero_left r.write_bps h.3,
)

sub_rates-zero : (r : Rates) → RatesInRange r → sub_rates r zero_rates ≡ r
sub_rates-zero r h = ground (
  arith,
  sub64-zero r.read_iops h.0,
  sub64-zero r.write_iops h.1,
  sub64-zero r.read_bps h.2,
  sub64-zero r.write_bps h.3,
)

sub_rates-add_rates : (r q : Rates) → RatesInRange r → sub_rates (add_rates r q) q ≡ r
sub_rates-add_rates r q h = ground (
  arith,
  sub64-add64 r.read_iops q.read_iops h.0,
  sub64-add64 r.write_iops q.write_iops h.1,
  sub64-add64 r.read_bps q.read_bps h.2,
  sub64-add64 r.write_bps q.write_bps h.3,
)

add_rates-RatesInRange : (r q : Rates) → RatesInRange (add_rates r q)
add_rates-RatesInRange r q =
    (add64-InRange _ _, add64-InRange _ _, add64-InRange _ _, add64-InRange _ _)

append_nil : (d : Disks) → d ++ [] ≡ d
append_nil [] = refl
append_nil (disk ∷ d) = ap (disk ∷◌) (append_nil d)

outcome : (Rates → Rates → Rates) → (Disk → Disk) → Option Disk → Option Disk → Rates
outcome op fresh none none = zero_rates
outcome op fresh (some disk) none = disk.rates
outcome op fresh none (some x) = (fresh x).rates
outcome op fresh (some disk) (some x) = op disk.rates x.rates

rates_of-merge :
    (op : Rates → Rates → Rates) (fresh : Disk → Disk)
    (fresh-device : (x : Disk) → (fresh x).device ≡ x.device) (k : String) (d d1 : Disks)
    → IsDistinct d1
    → rates_of k (merge_loop op fresh d [] d1)
      ≡ outcome op fresh (get_disk_by_device k d) (get_disk_by_device k d1)
unfolding rates_of merged outcome get_disk_by_device
rates_of-merge op fresh fresh-device k d d1 h =
    ground (arith, rates_of-merge_loop op fresh fresh-device k d [] d1 h (inr refl), append_nil d)

zero_rates-RatesInRange : RatesInRange zero_rates
zero_rates-RatesInRange = (omega arith, omega arith, omega arith, omega arith)

outcome-add :
    (o o1 : Option Disk)
    → RatesInRange (rates_or o)
    → RatesInRange (rates_or o1)
    → outcome add_rates (λ disk1. disk1) o o1 ≡ add_rates (rates_or o) (rates_or o1)
unfolding outcome
outcome-add none none r r1 = sym (add_rates-zero zero_rates zero_rates-RatesInRange)
outcome-add none (some x) r r1 = sym (add_rates-zero_left x.rates r1)
outcome-add (some disk) none r r1 = sym (add_rates-zero disk.rates r)
outcome-add (some disk) (some x) r r1 = refl

outcome-sub :
    (o o1 : Option Disk)
    → RatesInRange (rates_or o)
    → outcome sub_rates negated o o1 ≡ sub_rates (rates_or o) (rates_or o1)
unfolding outcome
outcome-sub none none r = sym (sub_rates-zero zero_rates zero_rates-RatesInRange)
outcome-sub none (some x) r = refl
outcome-sub (some disk) none r = sym (sub_rates-zero disk.rates r)
outcome-sub (some disk) (some x) r = refl

-- Where `d1` has each device once and the rates are of 64 bits, `Add` adds to the rates of each
-- device, one that only one list has included, with `int64`'s wrap-around.
pub rates_of-add :
    (k : String) (d d1 : Disks)
    → IsDistinct d1
    → RatesInRange (rates_of k d)
    → RatesInRange (rates_of k d1)
    → rates_of k (add d d1) ≡ add_rates (rates_of k d) (rates_of k d1)
unfolding add rates_of
rates_of-add k d d1 h r r1 =
    rates_of-merge add_rates (λ disk1. disk1) (λ x. refl) k d d1 h ∙ outcome-add _ _ r r1

-- Where `d1` has each device once and the rates of `k` in `d` are of 64 bits, `Sub` subtracts from the
-- rates of `k`, also where only one list has the device, with `int64`'s wrap-around.
pub rates_of-sub :
    (k : String) (d d1 : Disks)
    → IsDistinct d1
    → RatesInRange (rates_of k d)
    → rates_of k (sub d d1) ≡ sub_rates (rates_of k d) (rates_of k d1)
unfolding sub rates_of
rates_of-sub k d d1 h r = rates_of-merge sub_rates negated (λ x. refl) k d d1 h ∙ outcome-sub _ _ r

-- Where `d1` has each device once and the rates of a device fit 64 bits in both lists, `Sub` after `Add`
-- of the same disks gives the device its rates back, even where the sums overflow.
pub rates_of-sub-add :
    (k : String) (d d1 : Disks)
    → IsDistinct d1
    → RatesInRange (rates_of k d)
    → RatesInRange (rates_of k d1)
    → rates_of k (sub (add d d1) d1) ≡ rates_of k d
rates_of-sub-add k d d1 h r r1 =
    let sum = rates_of-add k d d1 h r r1 in
    rates_of-sub k (add d d1) d1 h (rw sum (add_rates-RatesInRange _ _))
    ∙ rw sum (sub_rates-add_rates (rates_of k d) (rates_of k d1) r)
