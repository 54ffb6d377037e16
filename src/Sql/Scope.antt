-- ===== src/Sql/Scope.antt =====
-- How far a translated mutation reaches.
use mathlib.Core.Path.{fun_ext}
use guardmcp.Prelude.{String, ◌≡◌, refl, false, Option, none, some, List}
use guardmcp.Json.{Value, obj, Fields, end, field, get, is_truthy}
use guardmcp.Risk.{is_unscoped, classify, base_risk, is_scope_sensitive}
use guardmcp.Domain.{Action, RiskLevel}
use guardmcp.Sql.{SqlRequest, Dialect, column, columns, conditions, build_where}
use guardmcp.Sql.Statements.{set_clauses, translate_update, translate_delete}

-- A filter with a column and no operator.
abbrev pub vacuous : String → Fields
vacuous col = field col (obj end) end

module _ (d : Dialect) (col q : String) (valid : d.quote_ident col ≡ some q) where
  build_where-vacuous :
      (args : List Value) → build_where d (some (vacuous col)) args ≡ build_where d none args
  unfolding build_where columns column conditions
  build_where-vacuous args = rw valid refl

  build_where-whole : build_where d (some (vacuous col)) ≡ build_where d none
  build_where-whole = fun_ext build_where-vacuous

  set_clauses-vacuous :
      (req : SqlRequest) (v : Value)
      → set_clauses d (record req { filter = some (vacuous col) }) v
        ≡ set_clauses d (record req { filter = none }) v
  unfolding set_clauses
  set_clauses-vacuous req (obj (field k w fs)) = rw build_where-whole refl
  set_clauses-vacuous req (obj end) = refl
  set_clauses-vacuous req _ = refl

  update_vacuous :
      (req : SqlRequest) (update : Option Fields)
      → translate_update d (record req { filter = some (vacuous col) }) update
        ≡ translate_update d (record req { filter = none }) update
  unfolding translate_update
  update_vacuous req none = refl
  update_vacuous req (some update) = set_clauses-vacuous req _

-- A filter that names a column with no operator bounds nothing: an update by it, and a delete of many
-- rows, are those of the whole table; yet the risk engine takes it for a filter, and classifies the
-- update of many as high, not as critical.
pub translate-vacuous :
    (d : Dialect) (req : SqlRequest) (col q : String)
    → d.quote_ident col ≡ some q
    → (translate_update d (record req { filter = some (vacuous col) }) req.update
        ≡ translate_update d (record req { filter = none }) req.update)
      × (translate_delete d (record req { filter = some (vacuous col) }) false
          ≡ translate_delete d (record req { filter = none }) false)
      × (classify Action.update_many (some (field "filter" (obj (vacuous col)) end))
          ≡ RiskLevel.high)
unfolding translate_delete classify is_scope_sensitive is_unscoped get is_truthy base_risk
translate-vacuous d req col q valid =
    (update_vacuous d col q valid req req.update, rw (build_where-whole d col q valid) refl, refl)
