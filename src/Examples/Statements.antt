-- ===== src/Examples/Statements.antt =====
-- Statements of a dialect.
use guardmcp.Prelude.{◌≡◌, ◌&&◌, refl, true, false, none, some, [], ◌∷◌, is_some, has_char, All}
use guardmcp.Json.{Value, natural, str, obj, end, field}
use guardmcp.Domain.{Action, RiskLevel}
use guardmcp.Risk.{classify}
use guardmcp.Capability.{Capability}
use guardmcp.Sql.{SqlRequest, T, refuse, Dialect, DeleteStrategy}
use guardmcp.Sql.Statements.{translate, translate_read, translate_update, translate_delete}
use guardmcp.Sql.Identifier.{IsSafe, validate_ident-IsSafe}
use guardmcp.Sql.Validation.{validate_request}
use guardmcp.Sql.Validation.Returns.{filter_operands}
use guardmcp.Sql.Validation.Translation.{
  translate-validate_request, translate_read-validate_request,
}
use guardmcp.Sql.Dialects.{validate_request-dialects}
use guardmcp.Sql.Postgres
use guardmcp.Sql.Mysql
use guardmcp.Sql.Erased.{Alike}
use guardmcp.Sql.Erased.Translated.{translate-values_unseen}
use guardmcp.Sql.Scope.{vacuous, translate-vacuous}

abbrev dialect : Dialect
dialect = record {
  placeholder = λ n. "%s";
  quote_ident = λ name. some name;
  supports_returning = false;
  in_uses_array = false;
  delete_one_strategy = DeleteStrategy.limit;
  schema_sql = λ req. refuse;
  indexes_sql = λ req. refuse;
  list_resources_sql = λ req. refuse;
  list_databases_sql = λ req. refuse;
  stats_sql = λ req. refuse;
}

abbrev read_where : Value → SqlRequest
read_where v = record {
  capability = Capability.read;
  resource = "users";
  filter = some (field "age" (obj (field "$gt" v end)) end);
  projection = none;
  documents = [];
  update = some (field "age" (natural 1) end);
  limit = some 5;
  skip = none;
  options = end;
}

read_where_text :
    translate dialect (read_where (natural 30))
    ≡ some ("SELECT * FROM users WHERE age > %s LIMIT %s", natural 30 ∷ natural 5 ∷ [])
unfolding translate guardmcp.Sql.Statements.translate_read
    guardmcp.Sql.Statements.projection_columns guardmcp.Sql.build_where guardmcp.Sql.columns
    guardmcp.Sql.column guardmcp.Sql.conditions guardmcp.Sql.operator
read_where_text = refl

translate-values_unseen_example :
    Alike
      (translate dialect (read_where (natural 30)))
      (translate dialect (read_where (str "1; DROP TABLE users")))
translate-values_unseen_example =
    translate-values_unseen dialect (read_where (natural 30))
      (read_where (str "1; DROP TABLE users")) refl refl

translate-vacuous_example :
    (translate_update dialect
        (record (read_where (natural 30)) { filter = some (vacuous "age") })
        (read_where (natural 30)).update
      ≡ translate_update dialect
          (record (read_where (natural 30)) { filter = none })
          (read_where (natural 30)).update)
    × (translate_delete dialect
          (record (read_where (natural 30)) { filter = some (vacuous "age") })
          false
        ≡ translate_delete dialect (record (read_where (natural 30)) { filter = none }) false)
    × (classify Action.update_many (some (field "filter" (obj (vacuous "age")) end))
        ≡ RiskLevel.high)
translate-vacuous_example = translate-vacuous dialect (read_where (natural 30)) "age" "age" refl

-- Adults of a table in PostgreSQL, by name and age.
abbrev adults : SqlRequest
adults = record (read_where (natural 18)) {
  resource = "public.users";
  projection = some (field "name" (natural 1) (field "age" (natural 1) end));
  update = none;
  options = field "schema" (str "public") end;
}

translate-validate_request_example : is_some (translate Postgres.dialect adults) ≡ true
unfolding validate_request guardmcp.Sql.Validation.no_forbidden Postgres.quote_ident
    guardmcp.Sql.Identifier.validate_ident guardmcp.Prelude.split
    guardmcp.Sql.Identifier.matches_rest guardmcp.Json.get
    guardmcp.Sql.Validation.conditions_accepted guardmcp.Sql.Validation.operators_allowed
    guardmcp.Sql.operator guardmcp.Sql.Validation.all_accepted guardmcp.Sql.Validation.validate_keys
    guardmcp.Sql.Validation.Translation.is_complete guardmcp.Sql.Validation.Returns.all_operands
    guardmcp.Sql.Validation.Returns.operands
translate-validate_request_example =
    translate-validate_request Postgres.dialect adults refl refl refl

adults_text :
    translate Postgres.dialect adults
    ≡ some
        ("SELECT name, age FROM public.users WHERE age > $1 LIMIT $2", natural 18 ∷ natural 5 ∷ [])
unfolding translate translate_read Postgres.quote_ident guardmcp.Sql.Identifier.validate_ident
    guardmcp.Prelude.split guardmcp.Sql.Identifier.matches_rest
    guardmcp.Sql.Statements.projection_columns guardmcp.Sql.build_where guardmcp.Sql.columns
    guardmcp.Sql.column guardmcp.Sql.conditions guardmcp.Sql.operator Postgres.placeholder
adults_text = refl

-- The underscore of a name.
validate_ident-IsSafe_example : IsSafe b'_'
unfolding guardmcp.Sql.Identifier.validate_ident guardmcp.Prelude.split
    guardmcp.Sql.Identifier.matches_rest has_char
validate_ident-IsSafe_example =
    validate_ident-IsSafe "shop.user_names" ("shop" ∷ "user_names" ∷ []) b'_' refl refl

validate_request-dialects_example :
    (validate_request Postgres.quote_ident adults ≡ validate_request Mysql.quote_ident adults)
    × ((is_some (translate_read Mysql.dialect adults true [])
          && is_some (translate_read Postgres.dialect adults true []))
        ≡ is_some (translate_read Mysql.dialect adults true []))
validate_request-dialects_example = validate_request-dialects adults true refl
