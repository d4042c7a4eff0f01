-- ===== src/Gpu/Alloc/Fits.antt =====
-- What fits on a node, stated on the counts alone, and that the capacity loop measures it.
use native.Mathlib.Decide.{dec_le}
use resource_extend.Base.{ℕ, ◌*◌, ◌≤◌, ◌<◌, [], ◌∷◌, arith, ◌↔◌, ◌⊎◌, inl, inr, Bool-cases}
use resource_extend.Base.Int.{ℤ, pos, pos_part, ◌≤ℤ◌, quo, leb_ℤ}
use resource_extend.Base.Quotient.{le-quo}
use resource_extend.Base.Dict.{count_of}
use resource_extend.Gpu.Types.{ProdCountMap}
use resource_extend.Gpu.Types.Valid.{IsPositive}
use resource_extend.Gpu.Alloc.{capacity_loop, min_ℤ}

-- The available counts hold the request `n` times over.
abbrev pub Fits : ℕ → ProdCountMap → ProdCountMap → Type 0
Fits n available [] = Unit {0}
Fits n available ((prod, k) ∷ req) =
    (n * pos_part k ≤ pos_part (count_of prod available)) × Fits n available req

le-min_ℤ : (n : ℕ) (a b : ℤ) → (pos n ≤ℤ min_ℤ a b) ↔ ((pos n ≤ℤ a) × (pos n ≤ℤ b))
unfolding min_ℤ
le-min_ℤ n a b = (λ p. ground arith, λ p. ground arith)

-- The loop leaves at least `n` exactly if it began with `n` and the request fits `n` times.
pub le-capacity_loop :
    (n : ℕ) (c : ℤ) (available req : ProdCountMap)
    → 0 < n
    → IsPositive req
    → (pos n ≤ℤ capacity_loop c available req) ↔ ((pos n ≤ℤ c) × Fits n available req)
unfolding capacity_loop
le-capacity_loop n c available [] h hp = (λ p. (p, tt), λ p. p.0)
le-capacity_loop n c available ((prod, k) ∷ req) h hp =
    let q = quo (count_of prod available) k in
    let m = le-min_ℤ n c q in
    let l = le-quo n (count_of prod available) k h hp.0 in
    let ih = le-capacity_loop n (min_ℤ c q) available req h hp.1 in
    elim (Bool-cases (leb_ℤ (min_ℤ c q) (pos 0))) [
      | inl stop ↦
          rw stop (λ p. absurd (ground arith), λ p. absurd (ground (arith, m.1 (p.0, l.1 p.1.0))))
      | inr go ↦ rw go (
        λ p. let u = ih.0 p in let v = m.0 u.0 in (v.0, (l.0 v.1, u.1)),
        λ p. ih.1 (m.1 (p.0, l.1 p.1.0), p.1.1),
      )
    ]

pub Fits-zero : (available req : ProdCountMap) → Fits 0 available req
Fits-zero available [] = tt
Fits-zero available ((j, k) ∷ req) = (omega arith, Fits-zero available req)

pub Fits-dec :
    (n : ℕ) (available req : ProdCountMap) → Fits n available req ⊎ ¬ Fits n available req
Fits-dec n available [] = inl tt
Fits-dec n available ((j, k) ∷ req) =
    elim (dec_le (n * pos_part k) (pos_part (count_of j available))) [
      | no h ↦ inr (λ p. h p.0)
      | yes h ↦ elim (Fits-dec n available req) [ inl f ↦ inl (h, f) | inr f ↦ inr (λ p. f p.1) ]
    ]
