-- ===== src/Connections.antt =====
-- core/registry/connections.py: the connections, and which of them and of their databases a session
-- has active; and the audited operations on them of core/pipeline.py.
pub mod Sessions
pub mod Audited
pub mod Describe
use guardmcp.Prelude.{
  String, Bool, true, false, Option, none, some, List, [], ◌∷◌, ◌&&◌, not, elem, is_empty, is_some,
  if◌then◌else◌,
}
use guardmcp.Dict.{Dict, lookup, insert}
use guardmcp.Domain.{RiskLevel, Reason}
use guardmcp.Policy.{Policy, DatabaseScope, scope_for, database_permitted}
use guardmcp.Policy.Engine.{collection_permitted}
use guardmcp.Backend.{Backend, Plugin}
use guardmcp.Pipeline.Execute.{AuditStatus, AuditRecord, allowed, denied}

-- Of an entry, what the pipeline asks for.
pub record ConnectionEntry : Type 0 where
  pub executor : Option Backend
  pub plugin : Option Plugin

-- The registry, and the two context variables of the session.
pub record Session : Type 0 where
  pub registry : Dict ConnectionEntry
  pub active : String
  pub databases : Option (Dict (Option String))

-- `reset_active`
abbrev pub reset_active : Session → Session
reset_active s = record s { active = "default"; databases = none }

abbrev pub get_active : Session → Option ConnectionEntry
get_active s = lookup s.active s.registry

-- `switch`: an unknown name leaves the session as it is.
unfoldable pub switch : String → Session → Bool × Session
switch name s =
    if is_some (lookup name s.registry) then (true, record s { active = name }) else (false, s)

-- `current.get(name) if current is not None else None`
abbrev pub remembered : String → Option (Dict (Option String)) → Option String
remembered name none = none
remembered name (some current) = elim (lookup name current) [ none ↦ none | some db ↦ db ]

abbrev pub if_active : {A : Type 0} → Option ConnectionEntry → A → A → A
if_active none missing found = missing
if_active (some entry) missing found = found

unfoldable pub get_active_database : Session → Option String
get_active_database s = if_active (get_active s) none (remembered s.active s.databases)

-- `dict(current) if current is not None else {}`
abbrev pub copied : Option (Dict (Option String)) → Dict (Option String)
copied none = []
copied (some current) = current

unfoldable pub set_active_database : Option String → Session → Session
set_active_database name s =
    if_active (get_active s) s
      (record s { databases = some (insert s.active name (copied s.databases)) })

-- `_get_executor`: that of the active connection, else the default.
abbrev pub executor_of : Option ConnectionEntry → Backend → Backend
executor_of none default = default
executor_of (some entry) default = elim entry.executor [ none ↦ default | some e ↦ e ]

unfoldable pub get_executor : Session → (default : Backend) → Backend
get_executor s default = executor_of (get_active s) default

abbrev record_of :
    (agent action : String) → AuditStatus → Option Reason → (database : Option String) → AuditRecord
record_of agent action status reason database = record {
  agent = agent;
  collection = "*";
  action = action;
  status = status;
  reason = reason;
  risk = none;
  request_id = none;
  params = none;
  database = database;
}

abbrev pub permits : Option Policy → String → Bool
permits none name = false
permits (some policy) name = database_permitted policy (some name)

-- `use_database_audited`: its answer and its record.
unfoldable pub use_database_audited : Option Policy → (agent name : String) → Bool × AuditRecord
use_database_audited policy agent name =
    let permitted = permits policy name in
    (
      permitted,
      record_of agent "use_database" (if permitted then allowed else denied)
          (if permitted then none else some (Reason.database_refused name)) (some name),
    )

-- The gate of a switch: a policy with a list that does not name the connection.
abbrev pub bars : Option Policy → String → Bool
bars none name = false
bars (some policy) name =
    not (is_empty policy.connections_allow) && not (elem name policy.connections_allow)

abbrev switched : String → String → Bool × Session → Bool × AuditRecord × Session
switched agent name (true, s) = (
  true,
  record_of agent "switch_connection" allowed (some (Reason.connection_named name)) none,
  s,
)
switched agent name (false, s) = (
  false,
  record_of agent "switch_connection" denied (some (Reason.connection_unknown name)) none,
  s,
)

-- `switch_connection_audited`: its answer, its record and the session after it.
unfoldable pub switch_connection_audited :
    Option Policy → (agent name : String) → Session → Bool × AuditRecord × Session
switch_connection_audited policy agent name s =
    if bars policy name
    then (
      false,
      record_of agent "switch_connection" denied (some (Reason.connection_refused name)) none,
      s,
    )
    else switched agent name (switch name s)

-- The collections that a scope permits, in the order of the backend.
abbrev pub permitted_of : DatabaseScope → List String → List String
permitted_of scope [] = []
permitted_of scope (c ∷ cs) =
    let rest = permitted_of scope cs in
    if collection_permitted c scope.collections.allow scope.collections.deny then c ∷ rest else rest

-- `discover_collections`: its answer and its record. Without a database the flat settings of the
-- policy are its scope. What a listing of the backend raises is not modelled.
unfoldable pub discover_collections :
    Option Policy
    → Session
    → (default : Backend) → (agent : String) → (database : Option String)
    → List String × AuditRecord
discover_collections none s default agent database =
    ([], record_of agent "list_collections" denied (some (Reason.no_policy_for agent)) database)
discover_collections (some policy) s default agent database = (
  permitted_of (scope_for policy database) ((get_executor s default).list_collections database),
  record_of agent "list_collections" allowed none database,
)
