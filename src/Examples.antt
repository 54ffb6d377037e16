-- ===== src/Examples.antt =====
-- Concrete policies, requests and backends, on which the theorems are applied.
pub mod Runs
pub mod Decisions
pub mod Masks
pub mod Guards
pub mod Waits
pub mod Logs
pub mod Statements
pub mod Merges
pub mod Sessions
pub mod Policies
pub mod Limits
pub mod Planned
use guardmcp.Prelude.{
  ℕ, String, Bool, true, false, Option, none, some, List, [], ◌∷◌, ◌===◌, if◌then◌else◌,
}
use guardmcp.Json.{Value, str, natural, arr, obj, Items, nil, cons, Fields, end, field}
use guardmcp.Domain.{Action, Request}
use guardmcp.Cost.{CostLevel, CostEstimate}
use guardmcp.Policy.{Policy, DateTime, aware, Mode, MaskFields, flat}
use guardmcp.Approvals.{ApprovalStore, Op}
use guardmcp.Backend.{Backend, Plugin, returned, referenced_collections, masked_field_references}
use guardmcp.Pipeline.{Env, EvalResult, evaluate}
use guardmcp.Pipeline.Execute.{State, Event}
use guardmcp.Pipeline.Run.{Draws}

-- An analyst may write to two collections, and asks a human for what is high or critical.
abbrev pub analyst : Policy
analyst = record {
  api_version = "guardmcp/v1";
  agent = "analyst";
  extends = none;
  not_before = some (aware 10);
  not_after = some (aware 90);
  mode = Mode.readwrite;
  collections = record { allow = "users" ∷ "orders" ∷ []; deny = "secrets" ∷ [] };
  databases_allow = [];
  databases = [];
  default_database_scope = none;
  actions = record { allow = []; deny = "drop" ∷ [] };
  mask_fields = flat ("email" ∷ "profile.phone" ∷ []);
  fields_allow = [];
  connections_allow = [];
  approval = record { high = true; critical = true };
  max_cost = none;
}

abbrev pub policies : String → Option Policy
policies agent = if agent === "analyst" then some analyst else none

abbrev pub ann : Fields
ann = field "name" (str "Ann") (
    field "email" (str "ann@example.org")
      (field "profile" (obj (field "phone" (str "123") (field "city" (str "Rome") end))) end))

abbrev pub ann_masked : Fields
ann_masked = field "name" (str "Ann") (
    field "email" (str "***masked***") (
      field "profile" (obj (field "phone" (str "***masked***") (field "city" (str "Rome") end)))
        end))

abbrev pub mongo : Backend
mongo = record {
  execute = λ collection action params database. returned (arr (cons (obj ann) nil));
  referenced_collections = some referenced_collections;
  masked_field_references = some masked_field_references;
  sanitize_error = none;
  list_collections = λ database. "users" ∷ "secrets" ∷ [];
}

-- Every estimate is a scan of two million documents.
abbrev pub estimate : CostEstimate
estimate = record {
  estimated_cost = CostLevel.critical;
  estimated_documents = some 2_000_000;
  estimated_keys_examined = none;
  collection_scan = some true;
  index_used = none;
  estimated_duration_ms = none;
}

abbrev pub planner : Plugin
planner = record { estimate = λ capability resource filter pipeline. some estimate }

abbrev pub env : Env
env = record { policies = policies; now = 50; executor = mongo; plugin = some planner }

abbrev pub request : String → Action → Fields → Request
request agent action params = record {
  request_id = "r1";
  agent = agent;
  collection = "users";
  action = action;
  params = params;
  database = none;
}

abbrev pub find_users : Request
find_users = request "analyst" Action.find (field "filter" (obj (field "name" (str "Ann") end)) end)

abbrev pub insert_user : Request
insert_user = request "analyst" Action.insert_one (field "document" (obj ann) end)

abbrev pub stranger : Request
stranger = request "stranger" Action.find end

-- `[{"$lookup": {"from": "orders"}}]`
abbrev pub lookup_orders : Value
lookup_orders = arr (cons (obj (field "$lookup" (obj (field "from" (str "orders") end)) end)) nil)

abbrev pub join_orders : Request
join_orders = request "analyst" Action.aggregate (field "pipeline" lookup_orders end)

abbrev pub draws : List Op → Draws
draws waiting = record {
  limiter = some true;
  approval_id = "a1";
  created_at = 50;
  waiting = waiting;
}

abbrev pub fresh : State
fresh = record { approvals = record { store = []; events = [] }; history = [] }
