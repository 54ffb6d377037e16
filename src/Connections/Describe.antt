-- ===== src/Connections/Describe.antt =====
-- core/pipeline.py: `describe_collection`. The enrichment by field semantics, which adds a key of its
-- own to the answer, is left out.
use guardmcp.Prelude.{String, Bool, false, Option, none, some, List, [], ◌∷◌, ◌===◌, if◌then◌else◌}
use guardmcp.Dict.{Dict}
use guardmcp.Policy.{Policy, scope_for, mask_fields_for}
use guardmcp.Policy.Engine.{collection_permitted}
use guardmcp.Pipeline.Execute.{AuditRecord, allowed, denied}

-- The executor's `collection_schema`: the fields with their types, the masked ones as "masked".
abbrev pub SchemaOf : Type 0
SchemaOf =
    (collection : String) → (mask_fields : List String) → (database : Option String) → Dict String

pub record Description : Type 0 where
  pub fields : Dict String
  pub masked_fields : List String

abbrev pub may_describe : Option Policy → (collection : String) → (database : Option String) → Bool
may_describe none collection database = false
may_describe (some policy) collection database =
    let scope = scope_for policy database in
    collection_permitted collection scope.collections.allow scope.collections.deny

-- `[f for f, t in schema.items() if t == "masked"]`
abbrev pub masked_of : Dict String → List String
masked_of [] = []
masked_of ((f, t) ∷ rest) =
    let found = masked_of rest in if t === "masked" then f ∷ found else found

abbrev pub described :
    SchemaOf
    → Option Policy
    → (collection : String) → (database : Option String) → Option Description
described schema_of none collection database = none
described schema_of (some policy) collection database =
    let schema = schema_of collection (mask_fields_for policy collection database) database in
    some (record { fields = schema; masked_fields = masked_of schema })

-- `describe_collection`: its answer and its record.
unfoldable pub describe_collection :
    Option Policy
    → SchemaOf
    → (agent collection : String) → (database : Option String) → Option Description × AuditRecord
describe_collection policy schema_of agent collection database =
    let permitted = may_describe policy collection database in
    (
      if permitted then described schema_of policy collection database else none,
      record {
        agent = agent;
        collection = collection;
        action = "collection_schema";
        status = if permitted then allowed else denied;
        reason = none;
        risk = none;
        request_id = none;
        params = none;
        database = database;
      },
    )
