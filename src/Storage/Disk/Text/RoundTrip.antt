-- ===== src/Storage/Disk/Text/RoundTrip.antt =====
-- Reading back the text of a disk (storage/types/disk.go).
use Prim.Native.String.{String}
use resource_extend.Base.{◌≤◌, false, ◌≡◌, refl, sym, ◌∙◌, ap, List, [], ◌∷◌, All}
use resource_extend.Base.Int.{ℤ, pos_part, neg_part}
use resource_extend.Base.Word.{InRange}
use resource_extend.Errors.{Result, ok}
use resource_extend.Storage.Disk.{Disk, Rates}
use resource_extend.Storage.Disk.Quota.{RatesInRange}
use resource_extend.Storage.Binding.{has_char}
use resource_extend.Storage.Binding.Text.{decimal}
use resource_extend.Storage.Disk.Text.{
  split, join, parse_int, rates_text, to_string, parse_fields, parse,
}
use resource_extend.Storage.Disk.Text.Numbers.{parse_int-decimal, decimal-has_char}
use resource_extend.Storage.Disk.Text.Parts.{
  split_one, split-append, split-join, colon_lem, comma_lem,
}

abbrev four : Rates → List String
four r = decimal r.read_iops ∷ decimal r.write_iops ∷ decimal r.read_bps ∷ decimal r.write_bps ∷ []

split-rates_text : (d : Disk) → RatesInRange d.rates → split b':' (rates_text d) ≡ four d.rates
unfolding rates_text
split-rates_text d (ri, wi, rb, wb) =
    split-append b':' ":" _ _ colon_lem (decimal-has_char d.read_iops ri)
    ∙ ap (λ r. decimal d.read_iops ∷ r)
        (split-append b':' ":" _ _ colon_lem (decimal-has_char d.write_iops wi)
          ∙ ap (λ r. decimal d.write_iops ∷ r)
              (split-append b':' ":" _ _ colon_lem (decimal-has_char d.read_bps rb)
                ∙ ap (λ r. decimal d.read_bps ∷ r)
                    (split_one b':' _ (decimal-has_char d.write_bps wb))))

decimal_injective : (a b : ℤ) → InRange a → InRange b → decimal a ≡ decimal b → a ≡ b
decimal_injective a b r q e =
    let p : ok a ≡ ok b = sym (parse_int-decimal a r) ∙ ap parse_int e ∙ parse_int-decimal b q in cc

-- The text of the rates tells them apart.
pub rates_text_injective :
    (d d1 : Disk)
    → RatesInRange d.rates
    → RatesInRange d1.rates
    → rates_text d ≡ rates_text d1
    → d.rates ≡ d1.rates
rates_text_injective d d1 r q e =
    let same : four d.rates ≡ four d1.rates =
      sym (split-rates_text d r) ∙ ap (split b':') e ∙ split-rates_text d1 q in
    let ri = decimal_injective d.read_iops d1.read_iops r.0 q.0 (cc) in
    let wi = decimal_injective d.write_iops d1.write_iops r.1 q.1 (cc) in
    let rb = decimal_injective d.read_bps d1.read_bps r.2 q.2 (cc) in
    let wb = decimal_injective d.write_bps d1.write_bps r.3 q.3 (cc) in
    (λ i. record { read_iops = ri i; write_iops = wi i; read_bps = rb i; write_bps = wb i })

-- The rates of bytes that core reads exactly: it goes through a float, so up to 2 ^ 53.
abbrev pub IsExact : ℤ → Type 0
IsExact a = (pos_part a ≤ 9007199254740992) × (neg_part a ≡ 0)

-- What the text of a disk must be made of to be read back: the device and the mounts have no colon,
-- a mount has no comma, there is a mount, the rates of operations fit `int64`, and those of bytes
-- are read exactly.
pub record IsPrintable (d : Disk) : Type 0 where
  pub device : has_char b':' d.device ≡ false
  pub first : String
  pub others : List String
  pub mounts : d.mounts ≡ first ∷ others
  pub mounts_text : has_char b':' (join "," d.mounts) ≡ false
  pub commas : All (λ m. has_char b',' m ≡ false) (first ∷ others)
  pub rates : RatesInRange d.rates
  pub read_bps : IsExact d.read_bps
  pub write_bps : IsExact d.write_bps

-- Core reads a plain number as that many bytes.
abbrev pub ReadsNumbers : (String → Result ℤ) → Type 0
ReadsNumbers parse_ram = (a : ℤ) → IsExact a → parse_ram (decimal a) ≡ ok a

module _ (parse_ram : String → Result ℤ) (reads : ReadsNumbers parse_ram) where
  split-to_string :
      (d : Disk)
      → IsPrintable d
      → split b':' (to_string d) ≡ d.device ∷ join "," d.mounts ∷ four d.rates
  unfolding to_string
  split-to_string d p =
      split-append b':' ":" _ _ colon_lem p.device
      ∙ ap (λ r. d.device ∷ r)
          (split-append b':' ":" _ _ colon_lem p.mounts_text
            ∙ ap (λ r. join "," d.mounts ∷ r) (split-rates_text d p.rates))

  -- Where core reads plain numbers: Parse reads back a disk from what String has printed of it, if
  -- the device and the mounts have no colon, the mounts no comma, there is a mount, the rates of
  -- operations fit `int64`, and those of bytes are from 0 to 2 ^ 53.
  pub parse-to_string : (d : Disk) → IsPrintable d → parse parse_ram (to_string d) ≡ ok d
  unfolding parse parse_fields
  parse-to_string d p =
      let mounts : split b',' (join "," d.mounts) ≡ d.mounts =
        rw p.mounts (split-join b',' "," p.first p.others comma_lem p.commas) in
      rw (split-to_string d p) (
        rw
          (
            parse_int-decimal d.read_iops p.rates.0,
            parse_int-decimal d.write_iops p.rates.1,
            reads d.read_bps p.read_bps,
            reads d.write_bps p.write_bps,
            mounts,
          )
          refl)
