-- ===== src/Sql/Mysql.antt =====
-- plugins/mysql/translate.py and plugins/mysql/validate.py: the dialect of MySQL.
use Prim.Native.String.{◌++◌ as append}
use guardmcp.Prelude.{◌≡◌, refl, String, true, false, Option, none, some, List, [], ◌∷◌, ◌++◌, map}
use guardmcp.Json.{str}
use guardmcp.Sql.{SqlRequest, T, ◌>>=◌, pure, lift, DeleteStrategy, Dialect, concat, join}
use guardmcp.Sql.Identifier.{validate_ident}

-- f"`{part}`" for each part
abbrev ticked : List String → List String
ticked [] = []
ticked (part ∷ parts) = concat ("`" ∷ part ∷ "`" ∷ []) ∷ ticked parts

abbrev quoted : Option (List String) → Option String
quoted none = none
quoted (some parts) = some (join "." (ticked parts))

-- `quote_ident`: each part between backticks.
unfoldable pub quote_ident : String → Option String
quote_ident name = quoted (validate_ident name)

-- `_schema_sql`
abbrev schema_sql : SqlRequest → T String
schema_sql req args = some (
  concat (
      "SELECT column_name, data_type FROM information_schema.columns "
      ∷ "WHERE table_name = %s AND table_schema = DATABASE() ORDER BY ordinal_position" ∷ []),
  args ++ str req.resource ∷ [],
)

-- `_indexes_sql`
abbrev indexes_sql : SqlRequest → T String
indexes_sql req =
    lift (quote_ident req.resource) >>= λ table. pure (append "SHOW INDEX FROM " table)

-- `_DIALECT`
abbrev pub dialect : Dialect
dialect = record {
  placeholder = λ n. "%s";
  quote_ident = quote_ident;
  supports_returning = false;
  in_uses_array = false;
  delete_one_strategy = DeleteStrategy.limit;
  schema_sql = schema_sql;
  indexes_sql = indexes_sql;
  list_resources_sql = λ req.
      pure "SELECT table_name FROM information_schema.tables WHERE table_schema = DATABASE()";
  list_databases_sql = λ req. pure "SHOW DATABASES";
  stats_sql = λ req. pure (
      concat (
        "SELECT table_schema, SUM(data_length + index_length) AS size "
        ∷ "FROM information_schema.tables WHERE table_schema = DATABASE() "
        ∷ "GROUP BY table_schema" ∷ []));
}

quote_ident_test : (quote_ident "shop.users" ≡ some "`shop`.`users`") × (quote_ident "a`b" ≡ none)
unfolding quote_ident validate_ident guardmcp.Prelude.split guardmcp.Sql.Identifier.matches_rest
quote_ident_test = (refl, refl)
