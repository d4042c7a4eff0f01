-- ===== src/Gpu/Types/Valid.antt =====
-- What `Validate` accepts, and the well-formed records of a node.
use resource_extend.Base.{◌≡◌, refl, String, [], ◌∷◌, arith, ◌↔◌, false}
use resource_extend.Base.Int.{pos, ◌<ℤ◌}
use resource_extend.Base.Word.{InRange}
use resource_extend.Base.Dict.{count_of, IsMap}
use resource_extend.Errors.{ok}
use resource_extend.Gpu.Types.{ProdCountMap, NodeResourceInfo, validate, is_blank}

-- Every count is positive.
abbrev pub IsPositive : ProdCountMap → Type 0
IsPositive [] = Unit {0}
IsPositive ((prod, n) ∷ req) = (pos 0 <ℤ n) × IsPositive req

-- Every product has a name that is not blank.
abbrev pub IsNamed : ProdCountMap → Type 0
IsNamed [] = Unit {0}
IsNamed ((prod, n) ∷ req) = (is_blank prod ≡ false) × IsNamed req

abbrev pub AllInRange : ProdCountMap → Type 0
AllInRange m = (k : String) → InRange (count_of k m)

-- The counts of a node as the store hands them out: maps of representable numbers.
pub record IsSound (info : NodeResourceInfo) : Type 0 where
  pub capacity_map : IsMap info.capacity
  pub usage_map : IsMap info.usage
  pub in_range : AllInRange info.capacity

-- `Validate` accepts exactly the maps of positive counts of products with a name.
pub validate_iff : (m : ProdCountMap) → (validate m ≡ ok tt) ↔ (IsPositive m × IsNamed m)
unfolding validate
validate_iff [] = (λ _. (tt, tt), λ _. refl)
validate_iff ((prod, n) ∷ m) =
    let ih = validate_iff m in
    (
      λ h.
          let rest : validate m ≡ ok tt = ground arith in
          ((ground arith, (ih.0 rest).0), (ground arith, (ih.0 rest).1)),
      λ h. ground (arith, ih.1 (h.0.1, h.1.1)),
    )

pub validate-IsPositive : (m : ProdCountMap) → validate m ≡ ok tt → IsPositive m
validate-IsPositive m h = ((validate_iff m).0 h).0
