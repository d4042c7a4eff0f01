-- ===== src/Storage/Disk/Text.antt =====
-- The text form of a disk: String and Parse of storage/types/disk.go, with what they use of the Go
-- library. The two errors of strconv.ParseInt are one here. How core reads a size is a parameter.
pub mod Numbers
pub mod Parts
pub mod RoundTrip
use Prim.Native.String.{String, ◌++◌}
use Prim.Native.Char.{code}
use resource_extend.Base.{
  ℕ, ◌+◌, ◌-◌, ◌*◌, ◌≤◌, Bool, ◌&&◌, ◌==◌, ltb, leb, List, [], ◌∷◌, Option, none, some,
  if◌then◌else◌,
}
use resource_extend.Base.Int.{ℤ, pos, negsuc}
use resource_extend.Base.Word.{half_range}
use resource_extend.Errors.{Result, ok, err, other, invalid_disk, ◌>>=◌}
use resource_extend.Storage.Disk.{Disk}
use resource_extend.Storage.Binding.Text.{decimal}

abbrev pub Fields : Type 0
Fields = List String

-- The character goes to the first part.
abbrev pub to_first : String → Fields → Fields
to_first c [] = c ∷ []
to_first c (part ∷ parts) = (c ++ part) ∷ parts

-- `strings.Split` at one character, by its code.
unfoldable pub split : ℕ → String → Fields
split n String.[] = String.[] ∷ []
split n (String.◌∷◌ c s) =
    let rest = split n s in
    if code c == n then String.[] ∷ rest else to_first (String.◌∷◌ c String.[]) rest

-- `strings.Join`
unfoldable pub join : String → Fields → String
join sep [] = ""
join sep (part ∷ []) = part
join sep (part ∷ next ∷ parts) = part ++ (sep ++ join sep (next ∷ parts))

abbrev pub is_digit : ℕ → Bool
is_digit c = leb b'0' c && leb c b'9'

-- The number that some digits go on to, after others.
unfoldable pub value : ℕ → String → Option ℕ
value acc String.[] = some acc
value acc (String.◌∷◌ c s) =
    let rest = value (acc * 10 + (code c - b'0')) s in if is_digit (code c) then rest else none

unfoldable pub unsigned : String → Option ℕ
unfolding value
unsigned String.[] = none
unsigned (String.◌∷◌ c s) = value 0 (String.◌∷◌ c s)

abbrev not_a_number : Result ℤ
not_a_number = err (other "strconv.ParseInt")

abbrev pub positive : Option ℕ → Result ℤ
positive none = not_a_number
positive (some n) = if ltb n half_range then ok (pos n) else not_a_number

abbrev pub negative : Option ℕ → Result ℤ
negative none = not_a_number
negative (some n) =
    if n == 0 then ok (pos 0) else if leb n half_range then ok (negsuc (n - 1)) else not_a_number

-- `strconv.ParseInt(s, 10, 64)`
unfoldable pub parse_int : String → Result ℤ
unfolding unsigned
parse_int String.[] = not_a_number
parse_int (String.◌∷◌ c s) =
    if code c == b'-'
    then negative (unsigned s)
    else if code c == b'+'
    then positive (unsigned s)
    else positive (unsigned (String.◌∷◌ c s))

-- Disk.String; the mounts with commas between them.
unfoldable pub rates_text : Disk → String
unfolding decimal
rates_text d =
    decimal d.read_iops
    ++ (":"
        ++ (decimal d.write_iops ++ (":" ++ (decimal d.read_bps ++ (":" ++ decimal d.write_bps)))))

unfoldable pub to_string : Disk → String
unfolding join rates_text
to_string d = d.device ++ (":" ++ (join "," d.mounts ++ (":" ++ rates_text d)))

module _ (parse_ram_in_human : String → Result ℤ) where
  unfoldable pub parse_fields : Fields → Result Disk
  unfolding split parse_int
  parse_fields (device ∷ mounts ∷ read_iops ∷ write_iops ∷ read_bps ∷ write_bps ∷ []) =
      parse_int read_iops >>= λ ri. parse_int write_iops >>= λ wi.
      parse_ram_in_human read_bps >>= λ rb. parse_ram_in_human write_bps >>= λ wb. ok (record {
        device = device;
        mounts = split b',' mounts;
        rates = record { read_iops = ri; write_iops = wi; read_bps = rb; write_bps = wb };
      })
  parse_fields _ = err invalid_disk

  -- Disk.Parse into a fresh disk.
  unfoldable pub parse : String → Result Disk
  unfolding split parse_fields
  parse s = parse_fields (split b':' s)
