-- ===== src/Sql/Validation.antt =====
-- plugins/sql/validate_base.py: the validation of a request before its translation. The quoting of a
-- dialect is a parameter, as in the source; `false` and `none` are a `GuardValidationError`.
pub mod Returns
pub mod Clauses
pub mod Statements
pub mod Translation
use guardmcp.Prelude.{
  String, Bool, true, false, not, ◌&&◌, ◌||◌, Option, none, some, List, [], ◌∷◌, is_some, ◌===◌,
  if◌then◌else◌,
}
use guardmcp.Json.{
  Value, null, str, arr, obj, Items, nil, cons, Fields, end, field, get, keys, is_truthy,
}
use guardmcp.Sql.{SqlRequest, operator}
use guardmcp.Sql.Statements.{set_doc}

-- `_ALLOWED_FILTER_OPERATORS`
abbrev pub is_allowed_operator : String → Bool
is_allowed_operator op = op === "$in" || is_some (operator op)

-- `_FORBIDDEN_OPTION_KEYS`
abbrev pub is_forbidden_option : String → Bool
is_forbidden_option key = key === "raw_sql" || key === "rawSql" || key === "sql"

unfoldable pub operators_allowed : Fields → Bool
operators_allowed end = true
operators_allowed (field op val fs) = is_allowed_operator op && operators_allowed fs

abbrev pub condition_allowed : Value → Bool
condition_allowed (obj cond) = operators_allowed cond
condition_allowed _ = true

unfoldable pub no_forbidden : List String → Bool
no_forbidden [] = true
no_forbidden (key ∷ rest) = not (is_forbidden_option key) && no_forbidden rest

module _ (quote_ident : String → Option String) where
  abbrev pub accepts : String → Bool
  accepts name = is_some (quote_ident name)

  unfoldable pub all_accepted : List String → Bool
  all_accepted [] = true
  all_accepted (name ∷ names) = accepts name && all_accepted names

  unfoldable pub conditions_accepted : Fields → Bool
  conditions_accepted end = true
  conditions_accepted (field col cond fs) =
      accepts col && condition_allowed cond && conditions_accepted fs

  -- `_validate_filter`
  abbrev pub validate_filter : Option Fields → Bool
  validate_filter none = true
  validate_filter (some filter) = conditions_accepted filter

  -- `_validate_keys`
  unfoldable pub validate_keys : List Fields → Bool
  validate_keys [] = true
  validate_keys (doc ∷ docs) = all_accepted (keys doc) && validate_keys docs

  -- `validate_ident` refuses what is not a text.
  abbrev pub accepts_value : Value → Bool
  accepts_value (str name) = accepts name
  accepts_value _ = false

  -- `options["schema"]`
  abbrev pub validate_schema : Option Value → Bool
  validate_schema none = true
  validate_schema (some null) = true
  validate_schema (some schema) = accepts_value schema

  abbrev pub validate_projection : Option Fields → Bool
  validate_projection none = true
  validate_projection (some fs) = all_accepted (keys fs)

  abbrev pub validate_set : Value → Bool
  validate_set (obj fs) = all_accepted (keys fs)
  validate_set _ = true

  abbrev pub validate_update : Option Fields → Bool
  validate_update none = true
  validate_update (some update) = validate_set (set_doc update (get "$set" update))

  -- `validate_request`: whether it returns.
  unfoldable pub validate_request : SqlRequest → Bool
  validate_request req =
      no_forbidden (keys req.options)
      && (req.resource === "" || accepts req.resource)
      && validate_schema (get "schema" req.options)
      && validate_filter req.filter
      && validate_projection req.projection
      && validate_keys req.documents
      && validate_update req.update

  abbrev put_ref : Value → Option (List String) → Option (List String)
  put_ref (str name) (some names) = if accepts name then some (name ∷ names) else none
  put_ref _ _ = none

  joined : Items → Option (List String)
  joined nil = some []
  joined (cons table tables) = put_ref table (joined tables)

  -- A value of `joins` that holds.
  abbrev refs_in : Value → Option (List String)
  refs_in (arr tables) = joined tables
  refs_in _ = none

  -- `cross_resource_refs`: the set of the tables, as a list.
  unfoldable pub cross_resource_refs : SqlRequest → Option (List String)
  unfolding joined
  cross_resource_refs req = elim (get "joins" req.options) [
    | none ↦ some []
    | some joins ↦ if is_truthy joins then refs_in joins else some []
  ]
