-- ===== src/Sync/Log/Quality.antt =====
-- The range of the data quality score.
use native.Mathlib.Nat.{div-add-mod}
use nexus_inventory_platform.Base.{
  ℕ, ◌+◌, ◌-◌, ◌*◌, ◌/◌, ◌%◌, ◌≤◌, ◌<◌, ◌≡◌, arith, ◌⊎◌, Bool-cases, inl, inr, ◌==◌,
}
use nexus_inventory_platform.Sync.Log.{SyncLog, total, calculate_quality, round_div}

div-ge : (a b k : ℕ) → 0 < b → k * b ≤ a → k ≤ a / b
div-ge a b k h l = grind arith

div-le : (a b k : ℕ) → 0 < b → a ≤ k * b → a / b ≤ k
div-le a b k h l = grind arith

div_top : (a b k : ℕ) → 0 < b → a ≤ k * b → 0 < a % b → a / b + 1 ≤ k
div_top a b k h l r = grind arith

round_div_bounds :
    (a b lo hi : ℕ) → 0 < b → lo * b ≤ a → a ≤ hi * b → (lo ≤ round_div a b) × (round_div a b ≤ hi)
round_div_bounds a b lo hi h l u =
    ground (arith, div-ge a b lo h l, div-le a b hi h u, div_top a b hi h u)

round_div-cases :
    (a b : ℕ)
    → ((round_div a b ≡ a / b) × (2 * (a % b) ≤ b))
      ⊎ ((round_div a b ≡ a / b + 1) × (b ≤ 2 * (a % b)))
round_div-cases a b = ground arith

-- A quotient rounds to a whole number at most a half away.
round_div_near :
    (a b : ℕ)
    → 0 < b
    → (2 * a ≤ 2 * (b * round_div a b) + b) × (2 * (b * round_div a b) ≤ 2 * a + b)
round_div_near a b h = elim (round_div-cases a b) [
  | inl (e, r) ↦ rw e (omega (arith, div-add-mod a b), omega (arith, div-add-mod a b))
  | inr (e, r) ↦ rw e (omega (arith, div-add-mod a b), omega (arith, div-add-mod a b))
]

-- A log with records scores from 50.0 to 100.0, and the score is within half a tenth of
-- 100 - 50 * failed / total.
pub calculate_quality_range :
    (log : SyncLog)
    → 0 < total log
    → (500 ≤ calculate_quality log)
      × (calculate_quality log ≤ 1000)
      × (2 * (total log * calculate_quality log) + 1000 * log.records_failed
          ≤ 2000 * total log + total log)
      × (2000 * total log
          ≤ 2 * (total log * calculate_quality log) + 1000 * log.records_failed + total log)
unfolding calculate_quality
calculate_quality_range log h =
    let exact : ℕ = 1000 * total log - 500 * log.records_failed in
    let bounds = round_div_bounds exact (total log) 500 1000 h (omega arith) (omega arith) in
    let near = round_div_near exact (total log) h in
    elim (Bool-cases (total log == 0)) [
      | inl e ↦ absurd (ground arith)
      | inr e ↦ rw e (bounds.0, bounds.1, omega arith, omega arith)
    ]
