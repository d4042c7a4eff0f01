-- ===== src/Gpu/Resource/Fix.antt =====
-- The comparison of a node's usage with its workloads: it reports nothing exactly where they agree.
use text.Mathlib.TextEquality.{eq_iff}
use resource_extend.Base.{
  ℕ, ◌+◌, ◌≤◌, ◌<◌, String, ◌≡◌, refl, ◌∙◌, sym, ap, List, [], ◌∷◌, ◌++◌, Option, none, some, true,
  arith, if◌then◌else◌, ◌↔◌,
}
use resource_extend.Base.Int.{
  ℤ, pos, pos_part, ◌<ℤ◌, ◌+ℤ◌, +ℤ_parts, eq_of_parts, eqb_ℤ, int_laws, one_sign,
}
use resource_extend.Base.Word.{add64-eq, half_range}
use resource_extend.Base.Dict.{lookup, erase, IsMap, lookup-erase, erase-IsMap, lookup_here}
use resource_extend.Gpu.Types.{ProdCountMap, NodeResourceInfo, count, count_from, usage_count}
use resource_extend.Gpu.Types.Valid.{IsPositive}
use resource_extend.Gpu.Resource.{Diff, diff_one, product_diffs, diffs_of}

-- The cards of a node, as a number.
abbrev pub cards : ProdCountMap → ℕ
cards [] = 0
cards ((j, n) ∷ m) = pos_part n + cards m

-- Counting positive cards that are few enough does not wrap around.
count_from-cards :
    (total : ℕ) (m : ProdCountMap)
    → IsPositive m
    → total + cards m < half_range
    → count_from (pos total) m ≡ pos (total + cards m)
unfolding count_from
count_from-cards total [] h b = ground arith
count_from-cards total ((j, n) ∷ m) h b =
    let e : pos total +ℤ n ≡ pos (total + pos_part n) =
      omega (int_laws, +ℤ_parts (pos total) n, one_sign n, one_sign (pos total +ℤ n)) in
    rw (add64-eq (pos total) n (rw e (omega arith)), e)
      (count_from-cards (total + pos_part n) m h.1 (omega arith) ∙ ap pos (omega arith))

-- Each product of a map is in another, with the same count.
abbrev pub Within : ProdCountMap → ProdCountMap → Type 0
Within usage [] = Unit {0}
Within usage ((j, n) ∷ m) = (lookup j usage ≡ some n) × Within usage m

diff_one-nil :
    (j : String) (n : ℤ) (o : Option ℤ) (rest : List Diff)
    → diff_one j n o ++ rest ≡ []
    → (o ≡ some n) × (rest ≡ [])
unfolding diff_one
diff_one-nil j n none rest h = ground arith
diff_one-nil j n (some v) rest h = ground (arith, eq_of_parts n v)

eqb_ℤ-refl : (n : ℤ) → eqb_ℤ n n ≡ true
eqb_ℤ-refl n = ground arith

product_diffs-nil : (usage m : ProdCountMap) → product_diffs usage m ≡ [] → Within usage m
unfolding product_diffs
product_diffs-nil usage [] h = tt
product_diffs-nil usage ((j, n) ∷ m) h =
    let d = diff_one-nil j n (lookup j usage) (product_diffs usage m) h in
    (d.0, product_diffs-nil usage m d.1)

Within-diffs : (usage m : ProdCountMap) → Within usage m → product_diffs usage m ≡ []
unfolding product_diffs diff_one
Within-diffs usage [] h = refl
Within-diffs usage ((j, n) ∷ m) h = rw (h.0, eqb_ℤ-refl n) (Within-diffs usage m h.1)

Within-erase :
    (j : String) (usage m : ProdCountMap)
    → IsMap usage
    → lookup j m ≡ none
    → Within usage m
    → Within (erase j usage) m
unfolding lookup
Within-erase j usage [] u h w = tt
Within-erase j usage ((i, n) ∷ m) u h w =
    ground
      (arith, Within-erase j usage m u, w.0, w.1, lookup-erase j i usage u, eq_iff i j, eq_iff j i)

cards-erase :
    (j : String) (n : ℤ) (usage : ProdCountMap)
    → lookup j usage ≡ some n
    → pos_part n + cards (erase j usage) ≡ cards usage
unfolding erase lookup
cards-erase j n [] h = ground arith
cards-erase j n ((i, k) ∷ usage) h = ground (arith, cards-erase j n usage)

erase-IsPositive : (j : String) (m : ProdCountMap) → IsPositive m → IsPositive (erase j m)
unfolding erase
erase-IsPositive j [] h = tt
erase-IsPositive j ((i, n) ∷ m) h = ground (arith, erase-IsPositive j m h.1, h.0, h.1)

lookup-IsPositive :
    (j : String) (n : ℤ) (usage : ProdCountMap)
    → IsPositive usage
    → lookup j usage ≡ some n
    → pos 0 <ℤ n
unfolding lookup
lookup-IsPositive j n [] p h = ground arith
lookup-IsPositive j n ((i, k) ∷ usage) p h = ground (arith, lookup-IsPositive j n usage p.1, p.0)

Within-IsPositive : (usage m : ProdCountMap) → IsPositive usage → Within usage m → IsPositive m
Within-IsPositive usage [] p w = tt
Within-IsPositive usage ((j, n) ∷ m) p w =
    (lookup-IsPositive j n usage p w.0, Within-IsPositive usage m p w.1)

-- A map within another has no more cards, and if it has as many the two agree.
Within-cards :
    (usage m : ProdCountMap)
    → IsMap usage
    → IsMap m
    → IsPositive usage
    → Within usage m
    → (cards m ≤ cards usage) × (cards m ≡ cards usage → (k : String) → lookup k usage ≡ lookup k m)
unfolding lookup
Within-cards [] [] u h p w = (omega arith, λ _ k. refl)
Within-cards ((i, k) ∷ usage) [] u h p w = (omega arith, λ e. absurd (omega arith))
Within-cards usage ((j, n) ∷ m) u h p w =
    let ih =
      Within-cards (erase j usage) m (erase-IsMap j usage u) h.1 (erase-IsPositive j usage p)
        (Within-erase j usage m u h.0 w.1) in
    let c = cards-erase j n usage w.0 in
    (
      omega arith,
      λ e k. ground (arith, ih.1 (omega arith) k, lookup-erase j k usage u, w.0, eq_iff j k),
    )

Within-cons :
    (j : String) (n : ℤ) (usage m : ProdCountMap)
    → lookup j m ≡ none
    → Within usage m
    → Within ((j, n) ∷ usage) m
unfolding lookup
Within-cons j n usage [] h w = tt
Within-cons j n usage ((i, k) ∷ m) h w =
    ground (arith, Within-cons j n usage m, w.0, w.1, eq_iff i j, eq_iff j i)

Within-self : (m : ProdCountMap) → IsMap m → Within m m
Within-self [] h = tt
Within-self ((j, n) ∷ m) h = (lookup_here j n m, Within-cons j n m m h.0 (Within-self m h.1))

Within-cong :
    (usage usage' m : ProdCountMap)
    → ((k : String) → lookup k usage ≡ lookup k usage')
    → Within usage' m
    → Within usage m
Within-cong usage usage' [] e w = tt
Within-cong usage usage' ((j, n) ∷ m) e w = (e j ∙ w.0, Within-cong usage usage' m e w.1)

count-cards : (m : ProdCountMap) → IsPositive m → cards m < half_range → count m ≡ pos (cards m)
unfolding count
count-cards m q c = count_from-cards 0 m q (omega arith) ∙ ap pos (omega arith)

pos_injective : (a b : ℕ) → pos a ≡ pos b → a ≡ b
pos_injective a b e = ap pos_part e

total_diff-nil :
    (a b : ℤ) (d : Diff) (rest : List Diff)
    → (if eqb_ℤ a b then [] else d ∷ []) ++ rest ≡ []
    → (a ≡ b) × (rest ≡ [])
total_diff-nil a b d rest h = ground (arith, eq_of_parts a b)

-- A freshly computed usage that is stored differs in nothing from itself.
pub diffs_of_self : (info : NodeResourceInfo) → IsMap info.usage → diffs_of info info.usage ≡ []
unfolding diffs_of usage_count
diffs_of_self info h =
    rw (eqb_ℤ-refl (count info.usage))
      (Within-diffs info.usage info.usage (Within-self info.usage h))

-- The comparison of a stored usage, of positive counts and fewer than 2 ^ 63 cards, with what the
-- workloads use, both maps, reports nothing exactly if both hold the same products with the same counts.
pub diffs_of-nil :
    (info : NodeResourceInfo) (actual : ProdCountMap)
    → IsMap info.usage
    → IsMap actual
    → IsPositive info.usage
    → cards info.usage < half_range
    → (diffs_of info actual ≡ []) ↔ ((k : String) → lookup k info.usage ≡ lookup k actual)
unfolding diffs_of usage_count
diffs_of-nil info actual u h p b = (silent, agree)
  where
    silent : diffs_of info actual ≡ [] → (k : String) → lookup k info.usage ≡ lookup k actual
    silent d =
        let t = total_diff-nil (count actual) (count info.usage) _ _ d in
        let w = product_diffs-nil info.usage actual t.1 in
        let c = Within-cards info.usage actual u h p w in
        let q = Within-IsPositive info.usage actual p w in
        c.1 (
          pos_injective _ _
            (sym (count-cards actual q (omega arith)) ∙ t.0 ∙ count-cards info.usage p b))

    agree : ((k : String) → lookup k info.usage ≡ lookup k actual) → diffs_of info actual ≡ []
    agree e =
        let w = Within-cong info.usage actual actual e (Within-self actual h) in
        let w' =
          Within-cong actual info.usage info.usage (λ k. sym (e k)) (Within-self info.usage u) in
        let q = Within-IsPositive info.usage actual p w in
        let le = (Within-cards info.usage actual u h p w).0 in
        let ge = (Within-cards actual info.usage h u q w').0 in
        let same : cards actual ≡ cards info.usage = omega arith in
        rw
          (
            count-cards actual q (omega arith),
            count-cards info.usage p b,
            same,
            eqb_ℤ-refl (pos (cards info.usage)),
          )
          (Within-diffs info.usage actual w)
