-- ===== src/Storage/Disk/Text/Numbers.antt =====
-- Reading back the text of a number: ParseInt after `%d`, as storage/types/disk.go uses them.
use Prim.Native.String.{String, ◌++◌}
use Prim.Native.Char.{code}
use text.Mathlib.TextLemmas.{nil-append, cons-append}
use resource_extend.Base.{
  ℕ, zero, suc, ◌+◌, ◌-◌, ◌*◌, ◌/◌, ◌%◌, ◌<◌, Bool, true, false, ◌&&◌, ◌==◌, ltb, ◌≡◌, refl, ◌∙◌,
  ap, none, some, Bool-cases, inl, inr, arith,
}
use resource_extend.Base.Int.{ℤ, pos, negsuc}
use resource_extend.Base.Word.{InRange}
use resource_extend.Errors.{ok}
use resource_extend.Storage.Binding.{has_char}
use resource_extend.Storage.Binding.Text.{decimal, digits, digit}
use resource_extend.Storage.Disk.Text.{value, is_digit, unsigned, parse_int, positive}

-- 10 ^ k
abbrev pow10 : ℕ → ℕ
pow10 zero = 1
pow10 (suc k) = 10 * pow10 k

-- The text is one digit, for the number.
is_one_digit : ℕ → String → Bool
is_one_digit n String.[] = false
is_one_digit n (String.◌∷◌ c String.[]) = is_digit (code c) && (code c == n + b'0')
is_one_digit n (String.◌∷◌ c (String.◌∷◌ d s)) = false

digit-is_one_digit : (n : ℕ) → n < 10 → is_one_digit n (digit n) ≡ true
unfolding digit is_one_digit
digit-is_one_digit zero h = refl
digit-is_one_digit (suc zero) h = refl
digit-is_one_digit (suc (suc zero)) h = refl
digit-is_one_digit (suc (suc (suc zero))) h = refl
digit-is_one_digit (suc (suc (suc (suc zero)))) h = refl
digit-is_one_digit (suc (suc (suc (suc (suc zero))))) h = refl
digit-is_one_digit (suc (suc (suc (suc (suc (suc zero)))))) h = refl
digit-is_one_digit (suc (suc (suc (suc (suc (suc (suc zero))))))) h = refl
digit-is_one_digit (suc (suc (suc (suc (suc (suc (suc (suc zero)))))))) h = refl
digit-is_one_digit (suc (suc (suc (suc (suc (suc (suc (suc (suc zero))))))))) h = refl
digit-is_one_digit (suc (suc (suc (suc (suc (suc (suc (suc (suc (suc n)))))))))) h =
    absurd (omega arith)

value-one_digit :
    (acc n : ℕ) (s : String) → is_one_digit n s ≡ true → value acc s ≡ some (acc * 10 + n)
unfolding value is_one_digit
value-one_digit acc n String.[] h = absurd (cc)
value-one_digit acc n (String.◌∷◌ c String.[]) h = ground arith
value-one_digit acc n (String.◌∷◌ c (String.◌∷◌ d s)) h = absurd (cc)

value-append :
    (acc m n : ℕ) (s t : String)
    → is_one_digit n t ≡ true
    → value acc s ≡ some m
    → value acc (s ++ t) ≡ some (m * 10 + n)
unfolding value
value-append acc m n String.[] t h e = rw nil-append (ground (arith, value-one_digit acc n t h))
value-append acc m n (String.◌∷◌ c s) t h e =
    rw cons-append (elim (Bool-cases (is_digit (code c))) [
      | inl d ↦ rw d (value-append (acc * 10 + (code c - b'0')) m n s t h (rw d at e))
      | inr d ↦ absurd (let bad : none ≡ some m = (rw d at e) in cc)
    ])

value-digits : (room n : ℕ) → n < pow10 room → value 0 (digits room n) ≡ some n
unfolding digits
value-digits zero n h = unfold value in ap some (omega arith)
value-digits (suc room) n h = elim (Bool-cases (ltb n 10)) [
  | inl e ↦
      rw e (
        value-one_digit 0 n (digit n) (digit-is_one_digit n (ground arith)) ∙ ap some (omega arith))
  | inr e ↦ rw e (
      value-append 0 (n / 10) (n % 10) (digits room (n / 10)) (digit (n % 10))
        (digit-is_one_digit (n % 10) (omega arith)) (value-digits room (n / 10) (omega arith))
      ∙ ap some (omega arith))
]

is_empty : String → Bool
is_empty String.[] = true
is_empty (String.◌∷◌ c s) = false

append_digit : (n : ℕ) (s t : String) → is_one_digit n t ≡ true → is_empty (s ++ t) ≡ false
unfolding is_empty is_one_digit
append_digit n String.[] String.[] h = absurd (cc)
append_digit n String.[] (String.◌∷◌ d t) h = rw nil-append refl
append_digit n (String.◌∷◌ c s) t h = rw cons-append refl

digits-nonempty : (room n : ℕ) → is_empty (digits (suc room) n) ≡ false
unfolding digits
digits-nonempty room n = elim (Bool-cases (ltb n 10)) [
  | inl e ↦ rw e (
      rw (← nil-append (digit n))
        (append_digit n "" (digit n) (digit-is_one_digit n (ground arith))))
  | inr e ↦ rw e (
      append_digit (n % 10) (digits room (n / 10)) (digit (n % 10))
        (digit-is_one_digit (n % 10) (omega arith)))
]

parse_int_digits :
    (n : ℕ) (s : String)
    → is_empty s ≡ false
    → value 0 s ≡ some n
    → (parse_int s ≡ positive (some n)) × (unsigned s ≡ some n)
unfolding parse_int is_empty unsigned value
parse_int_digits n String.[] e v = absurd (cc)
parse_int_digits n (String.◌∷◌ c s) e v = ground arith

-- ParseInt reads what `%d` has printed.
pub parse_int-decimal : (z : ℤ) → InRange z → parse_int (decimal z) ≡ ok z
unfolding decimal
parse_int-decimal (pos n) r =
    (parse_int_digits n (digits 20 n) (digits-nonempty 19 n) (value-digits 20 n (omega arith))).0
    ∙ ground arith
parse_int-decimal (negsuc n) r =
    let u =
      (parse_int_digits (suc n) (digits 20 (suc n)) (digits-nonempty 19 (suc n))
        (value-digits 20 (suc n) (omega arith))).1 in
    rw cons-append (rw nil-append (unfold parse_int in rw u (ground arith)))

-- A text of digits has no other character.
value-has_char : (acc n : ℕ) (s : String) → value acc s ≡ some n → has_char b':' s ≡ false
unfolding value has_char
value-has_char acc n String.[] e = refl
value-has_char acc n (String.◌∷◌ c s) e =
    ground (arith, value-has_char (acc * 10 + (code c - b'0')) n s)

pub decimal-has_char : (z : ℤ) → InRange z → has_char b':' (decimal z) ≡ false
unfolding decimal
decimal-has_char (pos n) r = value-has_char 0 n (digits 20 n) (value-digits 20 n (omega arith))
decimal-has_char (negsuc n) r = rw cons-append (
    rw nil-append (
      unfold has_char in
      value-has_char 0 (suc n) (digits 20 (suc n)) (value-digits 20 (suc n) (omega arith))))
