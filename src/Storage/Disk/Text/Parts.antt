-- ===== src/Storage/Disk/Text/Parts.antt =====
-- Taking apart texts with separators: Split after Join, as storage/types/disk.go uses them.
use Prim.Native.String.{String, ◌++◌}
use Prim.Native.Char.{Char, code}
use text.Mathlib.TextLemmas.{nil-append, cons-append}
use resource_extend.Base.{ℕ, Bool, true, false, ◌==◌, ◌≡◌, refl, ◌∙◌, ap, List, [], ◌∷◌, arith, All}
use resource_extend.Storage.Binding.{has_char}
use resource_extend.Storage.Disk.Text.{split, join}

pub split_one : (n : ℕ) (s : String) → has_char n s ≡ false → split n s ≡ s ∷ []
unfolding split has_char
split_one n String.[] h = refl
split_one n (String.◌∷◌ c s) h =
    rw (split_one n s (ground arith)) (rw cons-append (rw nil-append (ground arith)))

-- The text is one character, with the code.
pub is_separator : ℕ → String → Bool
is_separator n String.[] = false
is_separator n (String.◌∷◌ c String.[]) = code c == n
is_separator n (String.◌∷◌ c (String.◌∷◌ d s)) = false

split-separator :
    (n : ℕ) (sep t : String) → is_separator n sep ≡ true → split n (sep ++ t) ≡ "" ∷ split n t
unfolding split is_separator
split-separator n String.[] t e = absurd (cc)
split-separator n (String.◌∷◌ c String.[]) t e = rw cons-append (rw nil-append (rw e refl))
split-separator n (String.◌∷◌ c (String.◌∷◌ d s)) t e = absurd (cc)

split-cons :
    (n : ℕ) (c : Char) (s t first : String) (others : List String)
    → has_char n (String.◌∷◌ c s) ≡ false
    → (has_char n s ≡ false → split n t ≡ first ∷ others)
    → split n (String.◌∷◌ c t) ≡ String.◌∷◌ c first ∷ others
unfolding split has_char
split-cons n c s t first others h ih =
    let rest : split n t ≡ first ∷ others = ih (ground arith) in
    rw rest (rw cons-append (rw nil-append (ground arith)))

pub split-append :
    (n : ℕ) (sep s t : String)
    → is_separator n sep ≡ true
    → has_char n s ≡ false
    → split n (s ++ (sep ++ t)) ≡ s ∷ split n t
split-append n sep String.[] t e h = rw nil-append (split-separator n sep t e)
split-append n sep (String.◌∷◌ c s) t e h =
    rw cons-append (split-cons n c s (s ++ (sep ++ t)) s (split n t) h (split-append n sep s t e))

-- Split takes apart what Join has put together.
pub split-join :
    (n : ℕ) (sep part : String) (parts : List String)
    → is_separator n sep ≡ true
    → All (λ p. has_char n p ≡ false) (part ∷ parts)
    → split n (join sep (part ∷ parts)) ≡ part ∷ parts
unfolding join
split-join n sep part [] e h = split_one n part h.0
split-join n sep part (next ∷ parts) e h =
    split-append n sep part (join sep (next ∷ parts)) e h.0
    ∙ ap (λ r. part ∷ r) (split-join n sep next parts e h.1)

pub colon_lem : is_separator b':' ":" ≡ true
unfolding is_separator
colon_lem = refl

pub comma_lem : is_separator b',' "," ≡ true
unfolding is_separator
comma_lem = refl
