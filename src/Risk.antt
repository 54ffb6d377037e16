-- ===== src/Risk.antt =====
-- core/risk/engine.py: the risk of an action, its escalation by scope and by cost.
pub mod Laws
use guardmcp.Prelude.{ℕ, Bool, true, false, Option, none, some, leb, not, ◌&&◌, if◌then◌else◌}
use guardmcp.Json.{Fields, get, truthy_option}
use guardmcp.Domain.{
  Action, find, aggregate, count, explain, collection_schema, collection_indexes, list_databases,
  db_stats, insert_one, insert_many, update_one, update_many, delete_one, delete_many, drop,
  create_index, drop_index, create_collection, rename_collection, collection_storage_size,
  mongodb_logs, aggregate_db, RiskLevel, low, medium, high, critical,
}
use guardmcp.Cost.{CostLevel, CostEstimate}

-- `_RISK_MAP.get(action, CRITICAL)`: every action is in the map.
unfoldable pub base_risk : Action → RiskLevel
base_risk find = low
base_risk count = low
base_risk explain = low
base_risk collection_schema = low
base_risk collection_indexes = low
base_risk list_databases = low
base_risk db_stats = low
base_risk collection_storage_size = low
base_risk mongodb_logs = low
base_risk aggregate = high
base_risk aggregate_db = high
base_risk insert_one = medium
base_risk insert_many = medium
base_risk update_one = high
base_risk update_many = high
base_risk delete_one = high
base_risk delete_many = critical
base_risk create_index = medium
base_risk drop_index = high
base_risk drop = critical
base_risk create_collection = medium
base_risk rename_collection = high

-- `action in _SCOPE_SENSITIVE`
unfoldable pub is_scope_sensitive : Action → Bool
is_scope_sensitive update_one = true
is_scope_sensitive update_many = true
is_scope_sensitive delete_one = true
is_scope_sensitive delete_many = true
is_scope_sensitive _ = false

-- `_is_unscoped(params.get("filter"))`: an empty object is falsy already.
unfoldable pub is_unscoped : Fields → Bool
is_unscoped params = not (truthy_option (get "filter" params))

unfoldable pub classify : Action → Option Fields → RiskLevel
classify action none = base_risk action
classify action (some params) =
    if is_scope_sensitive action && is_unscoped params then critical else base_risk action

-- `_RISK_ORDER.index`
abbrev pub order : RiskLevel → ℕ
order low = 0
order medium = 1
order high = 2
order critical = 3

-- `_COST_TO_MIN_RISK.get`
abbrev pub cost_to_min_risk : CostLevel → Option RiskLevel
cost_to_min_risk CostLevel.high = some high
cost_to_min_risk CostLevel.critical = some critical
cost_to_min_risk _ = none

-- `max(base, floor, key=_RISK_ORDER.index)`: Python's `max` keeps the first of equals.
abbrev pub raise_to : RiskLevel → Option RiskLevel → RiskLevel
raise_to base none = base
raise_to base (some floor) = if leb (order floor) (order base) then base else floor

unfoldable pub escalate_for_cost : RiskLevel → CostEstimate → RiskLevel
escalate_for_cost base cost = raise_to base (cost_to_min_risk cost.estimated_cost)
