-- ===== src/Controller/Integers.antt =====
-- Equality of generations: `Option<i64>` values.
use kube_frontend_forge_cont.Common.{Bool, true, false, Option, none, some, eqb, ◌≡◌, ◌↔◌, arith}
use kube_frontend_forge_cont.Api.Fields.{ℤ, pos, negsuc}

abbrev pub same_integer : ℤ → ℤ → Bool
same_integer (pos m) (pos n) = eqb m n
same_integer (negsuc m) (negsuc n) = eqb m n
same_integer _ _ = false

abbrev pub same_generation : Option ℤ → Option ℤ → Bool
same_generation none none = true
same_generation (some z) (some w) = same_integer z w
same_generation _ _ = false

pub same_generation_iff : (a b : Option ℤ) → (same_generation a b ≡ true) ↔ (a ≡ b)
same_generation_iff none b = ground arith
same_generation_iff (some (pos m)) b = ground arith
same_generation_iff (some (negsuc m)) b = ground arith

-- `generation.unwrap_or_default()`
abbrev pub or_zero : Option ℤ → ℤ
or_zero none = pos 0
or_zero (some z) = z
