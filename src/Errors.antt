-- ===== src/Errors.antt =====
-- The errors that the plugins return (gpu/types/errors.go, storage/types/errors.go and core's
-- sentinels), without their messages, and results that may be an error.
use resource_extend.Base.{String, Bool, true, false, ◌||◌, ◌≡◌, refl, ◌⊎◌, inl, inr}

pub data Error : Type 0 where
  invalid_gpu_map invalid_gpu_product : Error
  invalid_capacity invalid_volume invalid_storage invalid_disk invalid_params : Error
  insufficient_resource node_exists node_not_exists empty_node_name : Error
  invalid_engine_args config_invalid : Error
  -- an error of a package outside the repository
  other : String → Error
  -- `errors.Join`, `errors.CombineErrors`
  joined : Error → Error → Error

pub data Result {ℓ} (A : Type ℓ) : Type ℓ where
  ok : A → Result A
  err : Error → Result A

infixl 5 ◌>>=◌
abbrev pub ◌>>=◌ {ℓ κ} : {A : Type ℓ} {B : Type κ} → Result A → (A → Result B) → Result B
err e >>= go_on = err e
ok a >>= go_on = go_on a

infixl 5 ◌>>◌
abbrev pub ◌>>◌ {ℓ} : {B : Type ℓ} → Result (Unit {0}) → Result B → Result B
m >> k = m >>= λ _. k

-- The same where `>>=` is taken.
abbrev pub and_then {ℓ κ} : {A : Type ℓ} {B : Type κ} → Result A → (A → Result B) → Result B
and_then r f = r >>= f

-- `errors.Is(err, coretypes.ErrNodeNotExists)`
unfoldable pub is_node_not_exists : Error → Bool
is_node_not_exists node_not_exists = true
is_node_not_exists (joined e f) = is_node_not_exists e || is_node_not_exists f
is_node_not_exists _ = false

pub Result-cases {ℓ} :
    {A : Type ℓ} (r : Result A) → ((a : A) × (r ≡ ok a)) ⊎ ((e : Error) × (r ≡ err e))
Result-cases (ok a) = inl (a, refl)
Result-cases (err e) = inr (e, refl)
