-- ===== src/Date/Blocks.antt =====
-- The parts of base/Date.cc getYearMonthDay: centuries, years of a century, and months of a year that
-- starts in March.
use cobra.Base.{ℕ, ◌+◌, ◌-◌, ◌*◌, ◌/◌, ◌%◌, ◌≤◌, ◌≡◌, arith, ◌⊎◌, inl, inr}

-- Days `f` of century `q`: 36524 of them, or one more in each fourth century.
pub century :
    (q f : ℕ)
    → (f ≤ 36523) ⊎ ((f ≡ 36524) × (q % 4 ≡ 3))
    → (4 * (36524 * q + q / 4 + f) + 3) / 146097 ≡ q
century q f (inl h) = omega arith
century q f (inr (h, k)) = omega arith

pub century_rest : (q f : ℕ) → 36524 * q + q / 4 + f - q * 146097 / 4 ≡ f
century_rest q f = omega arith

pub year :
    (r e : ℕ) → (e ≤ 364) ⊎ ((e ≡ 365) × (r % 4 ≡ 3)) → (4 * (365 * r + r / 4 + e) + 3) / 1461 ≡ r
year r e (inl h) = omega arith
year r e (inr (h, k)) = omega arith

pub year_rest : (r e : ℕ) → 365 * r + r / 4 + e - 1461 * r / 4 ≡ e
year_rest r e = omega arith
