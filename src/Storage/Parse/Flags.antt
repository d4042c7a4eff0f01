-- ===== src/Storage/Parse/Flags.antt =====
-- The flags of a volume binding, read and printed (storage/types/volume.go).
use Prim.Native.String.{String}
use Prim.Native.Char.{Char, code}
use resource_extend.Base.{
  ℕ, true, false, ◌==◌, ◌||◌, leb, ◌≡◌, refl, ◌∙◌, ap, inl, inr, ◌⊎◌, Bool-cases, arith,
}
use resource_extend.Base.Dict.{◌=s◌}
use resource_extend.Storage.Binding.{has_char}
use resource_extend.Storage.Binding.Text.{spell_flags, replace_all}
use resource_extend.Storage.Parse.{insert_char, sort_chars, flags_or_rw}

has_char-insert_char :
    (n : ℕ) (c : Char) (s : String) → has_char n (insert_char c s) ≡ ((code c == n) || has_char n s)
unfolding has_char insert_char
has_char-insert_char n c String.[] = refl
has_char-insert_char n c (String.◌∷◌ d s) = ground (arith, has_char-insert_char n c s)

pub has_char-sort_chars : (n : ℕ) (s : String) → has_char n (sort_chars s) ≡ has_char n s
unfolding has_char sort_chars
has_char-sort_chars n String.[] = refl
has_char-sort_chars n (String.◌∷◌ c s) =
    has_char-insert_char n c (sort_chars s) ∙ ap (λ b. (code c == n) || b) (has_char-sort_chars n s)

-- The characters are in the order of their codes.
abbrev IsSorted : String → Type 0
IsSorted String.[] = Unit {0}
IsSorted (String.◌∷◌ c String.[]) = Unit {0}
IsSorted (String.◌∷◌ c (String.◌∷◌ d s)) =
    (leb (code c) (code d) ≡ true) × IsSorted (String.◌∷◌ d s)

insert_char-IsSorted : (c : Char) (s : String) → IsSorted s → IsSorted (insert_char c s)
unfolding insert_char
insert_char-IsSorted c String.[] h = tt
insert_char-IsSorted c (String.◌∷◌ d String.[]) h = ground arith
insert_char-IsSorted c (String.◌∷◌ d (String.◌∷◌ e s)) h =
    ground (arith, insert_char-IsSorted c (String.◌∷◌ e s) h.1)

sort_chars-IsSorted : (s : String) → IsSorted (sort_chars s)
unfolding sort_chars
sort_chars-IsSorted String.[] = tt
sort_chars-IsSorted (String.◌∷◌ c s) = insert_char-IsSorted c (sort_chars s) (sort_chars-IsSorted s)

sort_chars_sorted : (s : String) → IsSorted s → sort_chars s ≡ s
unfolding sort_chars insert_char
sort_chars_sorted String.[] h = refl
sort_chars_sorted (String.◌∷◌ c String.[]) h = refl
sort_chars_sorted (String.◌∷◌ c (String.◌∷◌ d s)) h =
    rw (sort_chars_sorted (String.◌∷◌ d s) h.1) (rw h.0 refl)

abbrev pub flags_of : String → String
flags_of s = flags_or_rw (sort_chars s)

-- Flags that have been read once are read as they are.
flags_again : (s : String) → flags_of (flags_of s) ≡ flags_of s
unfolding flags_or_rw
flags_again s = elim (Bool-cases (sort_chars s =s "")) [
  | inl e ↦ rw e (unfold sort_chars insert_char in refl)
  | inr e ↦ rw e (rw (sort_chars_sorted (sort_chars s) (sort_chars-IsSorted s), e) refl)
]

-- Flags whose text is read back: ToString spells out an `o` beside one `r` or `w`.
abbrev pub IsSpellable : String → Type 0
IsSpellable flags =
    (has_char b'o' flags ≡ false)
    ⊎ (flags ≡ "or")
    ⊎ (flags ≡ "ow")
    ⊎ (flags ≡ "mor")
    ⊎ (flags ≡ "mow")

spell_flags-plain : (flags : String) → has_char b'o' flags ≡ false → spell_flags false flags ≡ flags
unfolding spell_flags
spell_flags-plain flags h = rw h refl

pub spelled :
    (s : String)
    → has_char b':' (flags_of s) ≡ false
    → IsSpellable (flags_of s)
    → (flags_of (spell_flags false (flags_of s)) ≡ flags_of s)
      × (has_char b':' (spell_flags false (flags_of s)) ≡ false)
spelled s h (inl plain) = rw (spell_flags-plain (flags_of s) plain) (flags_again s, h)
spelled s h (inr (inl e)) =
    rw e
      (unfold spell_flags flags_or_rw sort_chars insert_char has_char replace_all in (refl, refl))
spelled s h (inr (inr (inl e))) =
    rw e
      (unfold spell_flags flags_or_rw sort_chars insert_char has_char replace_all in (refl, refl))
spelled s h (inr (inr (inr (inl e)))) =
    rw e
      (unfold spell_flags flags_or_rw sort_chars insert_char has_char replace_all in (refl, refl))
spelled s h (inr (inr (inr (inr e)))) =
    rw e
      (unfold spell_flags flags_or_rw sort_chars insert_char has_char replace_all in (refl, refl))
