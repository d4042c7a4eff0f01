-- ===== src/Base/Word.antt =====
-- Go's `int64`, and `int` on a 64-bit machine: an integer that wraps around at 2 ^ 63.
use Prim.Native.Nat.{ℕ, ◌+◌, ◌-◌, ◌%◌, ◌^◌, ◌<◌, ◌≤◌}
use mathlib.Core.Path.{◌≡◌, ◌∙◌}
use native.Mathlib.Omega.{arith}
use resource_extend.Base.Tests.{ltb, if◌then◌else◌}
use resource_extend.Base.Int.{ℤ, pos, negsuc, pos_part, neg_part, ◌+ℤ◌, ◌-ℤ◌, ◌*ℤ◌, int_laws}

abbrev pub half_range : ℕ
half_range = 2 ^ 63

abbrev pub full_range : ℕ
full_range = 2 ^ 64

-- The representable values, from -2 ^ 63 up to 2 ^ 63 - 1.
abbrev pub InRange : ℤ → Type 0
InRange a = (pos_part a < half_range) × (neg_part a ≤ half_range)

-- The two's complement bit pattern of an integer, as a number.
unfoldable pub bits : ℤ → ℕ
bits (pos n) = n % full_range
bits (negsuc n) = full_range - 1 - n % full_range

unfoldable pub of_bits : ℕ → ℤ
of_bits n = if ltb n half_range then pos n else negsuc (full_range - 1 - n)

unfoldable pub wrap : ℤ → ℤ
unfolding bits of_bits
wrap a = of_bits (bits a)

unfoldable pub add64 : ℤ → ℤ → ℤ
add64 a b = wrap (a +ℤ b)

unfoldable pub sub64 : ℤ → ℤ → ℤ
sub64 a b = wrap (a -ℤ b)

unfoldable pub mul64 : ℤ → ℤ → ℤ
mul64 a b = wrap (a *ℤ b)

wrap-InRange : (a : ℤ) → InRange (wrap a)
unfolding wrap
wrap-InRange (pos n) = ground arith
wrap-InRange (negsuc n) = ground arith

wrap-eq_of_InRange : (a : ℤ) → InRange a → wrap a ≡ a
unfolding wrap
wrap-eq_of_InRange (pos n) h = ground arith
wrap-eq_of_InRange (negsuc n) h = ground arith

pub add64-eq : (a b : ℤ) → InRange (a +ℤ b) → add64 a b ≡ a +ℤ b
unfolding add64
add64-eq a b h = wrap-eq_of_InRange (a +ℤ b) h

pub sub64-eq : (a b : ℤ) → InRange (a -ℤ b) → sub64 a b ≡ a -ℤ b
unfolding sub64
sub64-eq a b h = wrap-eq_of_InRange (a -ℤ b) h

bits-wrap : (a : ℤ) → bits (wrap a) ≡ bits a
unfolding wrap
bits-wrap (pos n) = ground arith
bits-wrap (negsuc n) = ground arith

bits-+ℤ : (a b : ℤ) → bits (a +ℤ b) ≡ (bits a + bits b) % full_range
unfolding bits ◌+ℤ◌
bits-+ℤ (pos m) (pos n) = ground arith
bits-+ℤ (pos m) (negsuc n) = ground arith
bits-+ℤ (negsuc m) (pos n) = ground arith
bits-+ℤ (negsuc m) (negsuc n) = ground arith

bits--ℤ : (a b : ℤ) → bits (a -ℤ b) ≡ (bits a + full_range - bits b) % full_range
unfolding bits ◌-ℤ◌
bits--ℤ (pos m) (pos n) = ground arith
bits--ℤ (pos m) (negsuc n) = ground arith
bits--ℤ (negsuc m) (pos n) = ground arith
bits--ℤ (negsuc m) (negsuc n) = ground arith

bits-add64 : (a b : ℤ) → bits (add64 a b) ≡ (bits a + bits b) % full_range
unfolding add64
bits-add64 a b = rw bits-wrap (bits-+ℤ a b)

bits-sub64 : (a b : ℤ) → bits (sub64 a b) ≡ (bits a + full_range - bits b) % full_range
unfolding sub64
bits-sub64 a b = rw bits-wrap (bits--ℤ a b)

bits_bound : (a : ℤ) → bits a < full_range
unfolding bits
bits_bound (pos n) = ground arith
bits_bound (negsuc n) = ground arith

-- A representable integer is known by its pattern.
eq_of_bits : (a b : ℤ) → InRange a → InRange b → bits a ≡ bits b → a ≡ b
unfolding bits
eq_of_bits (pos m) (pos n) h k e = ground arith
eq_of_bits (pos m) (negsuc n) h k e = ground arith
eq_of_bits (negsuc m) (pos n) h k e = ground arith
eq_of_bits (negsuc m) (negsuc n) h k e = ground arith

pub add64-InRange : (a b : ℤ) → InRange (add64 a b)
unfolding add64
add64-InRange a b = wrap-InRange (a +ℤ b)

pub sub64-InRange : (a b : ℤ) → InRange (sub64 a b)
unfolding sub64
sub64-InRange a b = wrap-InRange (a -ℤ b)

-- Wrapping addition is a commutative group on the representable values.
pub sub64-add64 : (a b : ℤ) → InRange a → sub64 (add64 a b) b ≡ a
sub64-add64 a b h =
    eq_of_bits _ a (sub64-InRange _ b) h
      (omega (arith, bits-sub64 (add64 a b) b, bits-add64 a b, bits_bound a, bits_bound b))

pub add64-sub64 : (a b : ℤ) → InRange a → add64 (sub64 a b) b ≡ a
add64-sub64 a b h =
    eq_of_bits _ a (add64-InRange _ b) h
      (omega (arith, bits-add64 (sub64 a b) b, bits-sub64 a b, bits_bound a, bits_bound b))

pub add64_comm : (a b : ℤ) → add64 a b ≡ add64 b a
add64_comm a b =
    eq_of_bits _ _ (add64-InRange a b) (add64-InRange b a)
      (omega (arith, bits-add64 a b, bits-add64 b a))

pub add64_assoc : (a b c : ℤ) → add64 (add64 a b) c ≡ add64 a (add64 b c)
add64_assoc a b c = eq_of_bits _ _ (add64-InRange _ c) (add64-InRange a _) (
    omega
      (arith, bits-add64 (add64 a b) c, bits-add64 a b, bits-add64 a (add64 b c), bits-add64 b c))

pub sub64-sub64 : (a b c : ℤ) → sub64 (sub64 a b) c ≡ sub64 a (add64 b c)
sub64-sub64 a b c = eq_of_bits _ _ (sub64-InRange _ c) (sub64-InRange a _) (
    omega (
      arith,
      bits-sub64 (sub64 a b) c,
      bits-sub64 a b,
      bits-sub64 a (add64 b c),
      bits-add64 b c,
      bits_bound a,
      bits_bound b,
      bits_bound c,
    ))

pub add64-zero : (a : ℤ) → InRange a → add64 a (pos 0) ≡ a
add64-zero a h =
    let zero_lem : a +ℤ pos 0 ≡ a = omega int_laws in add64-eq a (pos 0) (rw zero_lem h) ∙ zero_lem

pub add64-zero_left : (a : ℤ) → InRange a → add64 (pos 0) a ≡ a
add64-zero_left a h = add64_comm (pos 0) a ∙ add64-zero a h

-- The outer two of three summands change places.
pub add64_swap : (a b c : ℤ) → add64 (add64 a b) c ≡ add64 (add64 c b) a
add64_swap a b c = eq_of_bits _ _ (add64-InRange _ c) (add64-InRange _ a) (
    omega
      (arith, bits-add64 (add64 a b) c, bits-add64 a b, bits-add64 (add64 c b) a, bits-add64 c b))

pub sub64-zero : (a : ℤ) → InRange a → sub64 a (pos 0) ≡ a
sub64-zero a h =
    let zero_lem : a -ℤ pos 0 ≡ a = omega int_laws in sub64-eq a (pos 0) (rw zero_lem h) ∙ zero_lem

pub sub64_self : (a : ℤ) → sub64 a a ≡ pos 0
sub64_self a =
    eq_of_bits _ (pos 0) (sub64-InRange a a) (omega arith)
      (rw bits-sub64 (unfold bits in omega (arith, bits_bound a)))

pub ruleset group_laws = (sub64-add64, add64-sub64, add64_assoc, sub64-sub64)
