-- ===== src/Capability.antt =====
-- core/interfaces/capability.py: capabilities, and their maps to and from actions.
use guardmcp.Prelude.{Option, none, some, Bool, true, false, ◌≡◌, arith}
use guardmcp.Domain.{Action, is_write}

pub data Capability : Type 0 where
  read count aggregate write_one write_many delete_one delete_many schema indexes : Capability
  explain estimate list_resources list_databases stats ddl_create ddl_destroy logs : Capability

-- `capability in WRITE_CAPS`
unfoldable pub is_write_cap : Capability → Bool
is_write_cap Capability.write_one = true
is_write_cap Capability.write_many = true
is_write_cap Capability.delete_one = true
is_write_cap Capability.delete_many = true
is_write_cap Capability.ddl_create = true
is_write_cap Capability.ddl_destroy = true
is_write_cap _ = false

unfoldable pub action_to_capability : Action → Capability
action_to_capability Action.find = Capability.read
action_to_capability Action.count = Capability.count
action_to_capability Action.aggregate = Capability.aggregate
action_to_capability Action.explain = Capability.explain
action_to_capability Action.collection_schema = Capability.schema
action_to_capability Action.collection_indexes = Capability.indexes
action_to_capability Action.list_databases = Capability.list_databases
action_to_capability Action.db_stats = Capability.stats
action_to_capability Action.insert_one = Capability.write_one
action_to_capability Action.insert_many = Capability.write_many
action_to_capability Action.update_one = Capability.write_one
action_to_capability Action.update_many = Capability.write_many
action_to_capability Action.delete_one = Capability.delete_one
action_to_capability Action.delete_many = Capability.delete_many
action_to_capability Action.drop = Capability.ddl_destroy
action_to_capability Action.create_index = Capability.ddl_create
action_to_capability Action.drop_index = Capability.ddl_destroy
action_to_capability Action.create_collection = Capability.ddl_create
action_to_capability Action.rename_collection = Capability.ddl_destroy
action_to_capability Action.collection_storage_size = Capability.stats
action_to_capability Action.mongodb_logs = Capability.logs
action_to_capability Action.aggregate_db = Capability.aggregate

-- `CAPABILITY_TO_ACTION.get`
unfoldable pub capability_to_action : Capability → Option Action
capability_to_action Capability.read = some Action.find
capability_to_action Capability.count = some Action.count
capability_to_action Capability.aggregate = some Action.aggregate
capability_to_action Capability.explain = some Action.explain
capability_to_action Capability.schema = some Action.collection_schema
capability_to_action Capability.indexes = some Action.collection_indexes
capability_to_action Capability.list_databases = some Action.list_databases
capability_to_action Capability.stats = some Action.db_stats
capability_to_action Capability.delete_one = some Action.delete_one
capability_to_action Capability.delete_many = some Action.delete_many
capability_to_action Capability.write_one = some Action.insert_one
capability_to_action Capability.write_many = some Action.insert_many
capability_to_action Capability.ddl_create = some Action.create_index
capability_to_action Capability.ddl_destroy = some Action.drop
capability_to_action Capability.logs = some Action.mongodb_logs
capability_to_action Capability.estimate = none
capability_to_action Capability.list_resources = none

-- The two maps agree: the action that stands for a capability has that capability, and an action is
-- a write exactly when its capability is one.
pub capability_to_action-roundtrip :
    (c : Capability) (a : Action) → capability_to_action c ≡ some a → action_to_capability a ≡ c
unfolding capability_to_action action_to_capability
capability_to_action-roundtrip c a h = ground arith

pub is_write_cap-action : (a : Action) → is_write_cap (action_to_capability a) ≡ is_write a
unfolding is_write_cap action_to_capability is_write
is_write_cap-action a = ground arith
