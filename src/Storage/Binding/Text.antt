-- ===== src/Storage/Binding/Text.antt =====
-- The text form of a volume binding: ToString of storage/types/volume.go, and `%d` and ReplaceAll of
-- the Go library for what it uses of them.
use Prim.Native.String.{String, ◌++◌}
use Prim.Native.Char.{code}
use resource_extend.Base.{ℕ, zero, suc, ◌/◌, ◌%◌, ltb, ◌==◌, Bool, not, ◌||◌, if◌then◌else◌}
use resource_extend.Base.Int.{ℤ, pos, negsuc, eqb_ℤ}
use resource_extend.Storage.Binding.{VolumeBinding, has_char}

unfoldable pub digit : ℕ → String
digit n =
    if n == 0
    then "0"
    else if n == 1
    then "1"
    else if n == 2
    then "2"
    else if n == 3
    then "3"
    else if n == 4
    then "4"
    else if n == 5
    then "5"
    else if n == 6
    then "6"
    else if n == 7
    then "7"
    else if n == 8
    then "8"
    else "9"

-- The digits of a number, at most as many as the first argument says.
unfoldable pub digits : ℕ → ℕ → String
unfolding digit
digits zero n = ""
digits (suc room) n =
    let front = digits room (n / 10) in if ltb n 10 then digit n else front ++ digit (n % 10)

-- `%d`; an `int64` has 19 digits at most.
unfoldable pub decimal : ℤ → String
unfolding digits
decimal (pos n) = digits 20 n
decimal (negsuc n) = "-" ++ digits 20 (suc n)

-- `strings.ReplaceAll` of one character, by its code.
unfoldable pub replace_all : ℕ → String → String → String
replace_all n by String.[] = ""
replace_all n by (String.◌∷◌ c s) =
    let rest = replace_all n by s in if code c == n then by ++ rest else String.◌∷◌ c rest

unfoldable pub spell_flags : Bool → String → String
unfolding replace_all has_char
spell_flags normalize flags =
    let shown = if normalize then replace_all 0x6d "" flags else flags in
    if has_char 0x6f shown
    then replace_all 0x77 "wo" (replace_all 0x72 "ro" (replace_all 0x6f "" shown))
    else shown

abbrev colon : String → String → String
colon a b = a ++ ":" ++ b

unfoldable pub to_string : Bool → VolumeBinding → String
unfolding spell_flags decimal
to_string normalize vb =
    let front =
      colon vb.source (
        colon vb.destination (colon (spell_flags normalize vb.flags) (decimal vb.size_in_bytes))) in
    if not normalize
      || not (eqb_ℤ vb.read_iops (pos 0))
      || not (eqb_ℤ vb.write_iops (pos 0))
      || not (eqb_ℤ vb.read_bps (pos 0))
      || not (eqb_ℤ vb.write_bps (pos 0))
    then colon front (
        colon (decimal vb.read_iops)
          (colon (decimal vb.write_iops) (colon (decimal vb.read_bps) (decimal vb.write_bps))))
    else front
