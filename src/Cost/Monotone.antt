-- ===== src/Cost/Monotone.antt =====
-- What the buckets of `classify_cost` guarantee.
use guardmcp.Prelude.{ℕ, ◌≤◌, ◌≡◌, ◌≢◌, ◌↔◌, Bool, true, false, Option, none, some, arith}
use guardmcp.Cost.{CostLevel, low, medium, high, critical, unknown, classify_cost}

-- The order of the levels, for estimates that say something.
abbrev pub severity : CostLevel → ℕ
severity unknown = 0
severity low = 1
severity medium = 2
severity high = 3
severity critical = 4

-- With the same scan and index signals, a larger volume never gets a lower level.
pub classify_cost_mono :
    (scan index : Option Bool) (m n : ℕ)
    → m ≤ n
    → severity (classify_cost (some m) scan index) ≤ severity (classify_cost (some n) scan index)
unfolding classify_cost
classify_cost_mono none index m n h = ground arith
classify_cost_mono (some true) index m n h = ground arith
classify_cost_mono (some false) index m n h = ground arith

-- A scan is at least high, and critical exactly from a million documents.
pub classify_cost-scan :
    (docs : Option ℕ) (index : Option Bool)
    → (3 ≤ severity (classify_cost docs (some true) index))
      × ((classify_cost docs (some true) index ≡ critical)
          ↔ ((n : ℕ) × (docs ≡ some n) × (1_000_000 ≤ n)))
unfolding classify_cost
classify_cost-scan none index = (omega arith, ((λ h. cc), (λ h. cc (h.1))))
classify_cost-scan (some n) index =
    (ground arith, ((λ h. (n, ground arith, ground arith)), (λ h. ground (arith, h.1, h.2))))

-- The level is unknown exactly when no volume is known, there is no scan and no index is used.
pub classify_cost-eq-unknown_iff :
    (docs : Option ℕ) (scan index : Option Bool)
    → (classify_cost docs scan index ≡ unknown)
      ↔ ((docs ≡ none) × (scan ≢ some true) × (index ≢ some true))
unfolding classify_cost
classify_cost-eq-unknown_iff none none none = ground arith
classify_cost-eq-unknown_iff docs scan index = ground arith
