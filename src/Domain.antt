-- ===== src/Domain.antt =====
-- core/models/domain.py: actions and their classes, risk levels, requests, decisions. The codes of
-- core/interfaces/errors.py that a decision carries.
use guardmcp.Prelude.{String, Bool, true, false, Option, List}
use guardmcp.Json.{Fields}

pub data Action : Type 0 where
  find aggregate count explain : Action
  collection_schema collection_indexes list_databases db_stats : Action
  insert_one insert_many update_one update_many delete_one delete_many : Action
  drop create_index drop_index create_collection rename_collection : Action
  collection_storage_size mongodb_logs aggregate_db : Action

-- `action.value`
unfoldable pub value : Action → String
value find = "find"
value aggregate = "aggregate"
value count = "count"
value explain = "explain"
value collection_schema = "collection_schema"
value collection_indexes = "collection_indexes"
value list_databases = "list_databases"
value db_stats = "db_stats"
value insert_one = "insert_one"
value insert_many = "insert_many"
value update_one = "update_one"
value update_many = "update_many"
value delete_one = "delete_one"
value delete_many = "delete_many"
value drop = "drop"
value create_index = "create_index"
value drop_index = "drop_index"
value create_collection = "create_collection"
value rename_collection = "rename_collection"
value collection_storage_size = "collection_storage_size"
value mongodb_logs = "mongodb_logs"
value aggregate_db = "aggregate_db"

-- `action in WRITE_ACTIONS`
unfoldable pub is_write : Action → Bool
is_write insert_one = true
is_write insert_many = true
is_write update_one = true
is_write update_many = true
is_write delete_one = true
is_write delete_many = true
is_write drop = true
is_write create_index = true
is_write drop_index = true
is_write create_collection = true
is_write rename_collection = true
is_write _ = false

-- `action in DB_LEVEL_ACTIONS`
unfoldable pub is_db_level : Action → Bool
is_db_level list_databases = true
is_db_level db_stats = true
is_db_level mongodb_logs = true
is_db_level aggregate_db = true
is_db_level _ = false

-- `action in NO_MASK_ACTIONS`
unfoldable pub is_no_mask : Action → Bool
is_no_mask find = false
is_no_mask aggregate = false
is_no_mask count = false
is_no_mask aggregate_db = false
is_no_mask _ = true

pub data RiskLevel : Type 0 where
  low medium high critical : RiskLevel

-- `risk == RiskLevel.HIGH`
abbrev pub is_high : RiskLevel → Bool
is_high high = true
is_high _ = false

-- `risk == RiskLevel.CRITICAL`
abbrev pub is_critical : RiskLevel → Bool
is_critical critical = true
is_critical _ = false

pub data DecisionStatus : Type 0 where
  allowed denied approval_required : DecisionStatus

-- `request_id` is drawn by the caller of the model (a fresh uuid in the source).
pub record Request : Type 0 where
  pub request_id : String
  pub agent : String
  pub collection : String
  pub action : Action
  pub params : Fields
  pub database : Option String

-- The members of `ErrorCode` that the modelled code returns.
pub data ErrorCode : Type 0 where
  policy_denied collection_not_allowed action_not_allowed readonly : ErrorCode
  database_not_allowed rate_limited approval_declined type_mismatch backend_error : ErrorCode
  unsupported_capability : ErrorCode

-- The prose of a decision, with the values that its f-string renders.
pub data Reason : Type 0 where
  no_policy : (agent : String) → Reason
  not_active : (agent : String) → Reason
  database_denied : (database : Option String) → Reason
  references_collection : (ref : String) → Reason
  references_masked : (fields : List String) → Reason
  readonly_blocks : Action → Reason
  collection_denied : (collection : String) → Reason
  collection_unlisted : (collection : String) (allow : List String) → Reason
  action_denied : Action → (deny : List String) → Reason
  action_unlisted : Action → (allow : List String) → Reason
  needs_approval : Action → RiskLevel → Reason
  permitted : Reason
  cost_escalated : Reason → RiskLevel → Reason
  policy_changed : Reason → Reason
  approved_by_user human_approved declined_or_timed_out : Reason
  rate_limit_exceeded : (agent : String) → Reason
  database_refused connection_refused connection_named connection_unknown : (name : String) → Reason
  no_policy_for : (agent : String) → Reason
  message : String → Reason

pub record Decision : Type 0 where
  pub status : DecisionStatus
  pub reason : Reason
  pub risk : Option RiskLevel
  pub code : Option ErrorCode
