-- ===== src/Cost.antt =====
-- core/interfaces/cost.py: the normalized cost estimate and its shared bucketing.
pub mod Monotone
use guardmcp.Prelude.{ℕ, Bool, true, false, Option, none, some, leb, ltb, if◌then◌else◌}

pub data CostLevel : Type 0 where
  low medium high critical unknown : CostLevel

-- The warnings are left out: no decision reads them.
pub record CostEstimate : Type 0 where
  pub estimated_documents : Option ℕ
  pub estimated_keys_examined : Option ℕ
  pub collection_scan : Option Bool
  pub index_used : Option Bool
  pub estimated_cost : CostLevel
  pub estimated_duration_ms : Option ℕ

abbrev pub high_docs : ℕ
high_docs = 10_000

abbrev pub critical_docs : ℕ
critical_docs = 1_000_000

abbrev pub low_docs : ℕ
low_docs = 1_000

-- `bool(x)` of an optional Boolean
abbrev pub truthy : Option Bool → Bool
truthy none = false
truthy (some b) = b

by_volume : ℕ → CostLevel
by_volume docs =
    if leb critical_docs docs
    then critical
    else if leb high_docs docs
    then high
    else if ltb docs low_docs
    then low
    else medium

by_scan : Option ℕ → CostLevel
by_scan none = high
by_scan (some docs) = if leb critical_docs docs then critical else high

by_signal : Option ℕ → Option Bool → Option Bool → CostLevel
by_signal docs (some true) index_used = by_scan docs
by_signal (some docs) collection_scan index_used = by_volume docs
by_signal none collection_scan index_used = if truthy index_used then low else unknown

-- The first test of the source, no signal at all.
pub classify_cost :
    (estimated_documents : Option ℕ) (collection_scan index_used : Option Bool) → CostLevel
unfolding by_volume by_scan by_signal
classify_cost none none none = unknown
classify_cost docs collection_scan index_used = by_signal docs collection_scan index_used
