-- ===== src/Base/Quotient.antt =====
-- When a number is at most a quotient that drops its remainder.
use native.Mathlib.Nat.{le-div_iff_mul-le, div-zero, zero-div, mul-pos}
use Prim.Native.Nat.{ℕ, suc, ◌*◌, ◌/◌, ◌≤◌, ◌<◌}
use mathlib.Core.Logic.{◌↔◌}
use native.Mathlib.Omega.{arith}
use resource_extend.Base.Int.{ℤ, pos, negsuc, pos_part, ◌≤ℤ◌, ◌<ℤ◌, quo}

pub le-quo :
    (n : ℕ) (a k : ℤ) → 0 < n → pos 0 <ℤ k → (pos n ≤ℤ quo a k) ↔ (n * pos_part k ≤ pos_part a)
unfolding quo
le-quo n (pos a) (pos k) h hk =
    let m : (n ≤ a / k) ↔ (n * k ≤ a) = le-div_iff_mul-le (omega arith) in
    rw (div-zero a, zero-div k, zero-div 0) (λ p. m.0 (ground arith), λ p. ground (arith, m.1 p))
le-quo n (negsuc a) (pos k) h hk =
    rw (div-zero (suc a), zero-div k, zero-div 0)
      (
        λ p. absurd (ground arith),
        λ p. absurd (ground (arith, mul-pos {m = n} {n = k} h (omega arith))),
      )
le-quo n a (negsuc k) h hk = absurd (omega arith)
