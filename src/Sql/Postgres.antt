-- ===== src/Sql/Postgres.antt =====
-- plugins/postgres/translate.py and plugins/postgres/validate.py: the dialect of PostgreSQL.
use Prim.Native.Nat.{◌/◌, ◌%◌}
use Prim.Native.String.{◌++◌ as append}
use guardmcp.Prelude.{
  Bool-cases, inl, inr, arith, ◌<◌, ℕ, zero, suc, ◌+◌, ◌≡◌, refl, String, Bool, true, false, Option,
  none, some, List, [], ◌∷◌, ◌++◌, leb, length, if◌then◌else◌,
}
use guardmcp.Json.{Value, null, str, get}
use guardmcp.Sql.{SqlRequest, T, ◌>>=◌, ◌>>◌, pure, refuse, lift, DeleteStrategy, Dialect, concat}
use guardmcp.Sql.Identifier.{validate_ident}

abbrev digit : ℕ → String
digit zero = "0"
digit (suc zero) = "1"
digit (suc (suc zero)) = "2"
digit (suc (suc (suc zero))) = "3"
digit (suc (suc (suc (suc zero)))) = "4"
digit (suc (suc (suc (suc (suc zero))))) = "5"
digit (suc (suc (suc (suc (suc (suc zero)))))) = "6"
digit (suc (suc (suc (suc (suc (suc (suc zero))))))) = "7"
digit (suc (suc (suc (suc (suc (suc (suc (suc zero)))))))) = "8"
digit _ = "9"

leb→gt : (a b : ℕ) → leb a b ≡ false → b < a
leb→gt a b h = ground arith

-- One digit for each unit of fuel.
decimal : ℕ → ℕ → String
decimal zero n = ""
decimal (suc fuel) n =
    let rest = decimal fuel (n / 10) in if leb n 9 then digit n else append rest (digit (n % 10))

-- Any fuel above the number gives the same text.
decimal_enough : (f g n : ℕ) → n < f → n < g → decimal f n ≡ decimal g n
unfolding decimal
decimal_enough zero g n hf hg = absurd (omega (arith, hf))
decimal_enough (suc f) zero n hf hg = absurd (omega (arith, hg))
decimal_enough (suc f) (suc g) n hf hg = elim (Bool-cases (leb n 9)) [
  | inl small ↦ rw small refl
  | inr large ↦
      rw
        (
          large,
          decimal_enough f g (n / 10) (omega (arith, leb→gt n 9 large))
              (omega (arith, leb→gt n 9 large)),
        )
        refl
]

-- `f"${n}"`
unfoldable pub placeholder : ℕ → String
unfolding decimal
placeholder n = append "$" (decimal (suc n) n)

abbrev quoted : String → Option (List String) → Option String
quoted name none = none
quoted name (some parts) = some name

-- `quote_ident`: the name as it is.
unfoldable pub quote_ident : String → Option String
quote_ident name = quoted name (validate_ident name)

-- `counter.add`
abbrev add : String → T String
add text args = some (placeholder (suc (length args)), args ++ str text ∷ [])

abbrev option_of : Value → T (Option String)
option_of null = pure none
option_of (str name) = lift (quote_ident name) >> pure (some name)
option_of _ = refuse

-- `_schema_from_options`
abbrev schema_from_options : SqlRequest → T (Option String)
schema_from_options req = elim (get "schema" req.options) [
  | none ↦ pure none
  | some schema ↦ option_of schema
]

abbrev and_schema : Option String → T String
and_schema none = pure ""
and_schema (some schema) = add schema >>= λ ph. pure (append " AND table_schema = " ph)

-- `_schema_sql`
unfoldable pub schema_sql : SqlRequest → T String
schema_sql req = do
  table ← add req.resource
  schema ← schema_from_options req
  clause ← and_schema schema
  pure (
      concat (
        "SELECT column_name, data_type FROM information_schema.columns WHERE table_name = " ∷ table
        ∷ clause ∷ " ORDER BY ordinal_position" ∷ []))

-- `_indexes_sql`
abbrev indexes_sql : SqlRequest → T String
indexes_sql req = add req.resource >>= λ ph.
    pure (append "SELECT indexname, indexdef FROM pg_indexes WHERE tablename = " ph)

abbrev or_public : Option String → String
or_public none = "public"
or_public (some schema) = schema

-- `_list_resources_sql`
abbrev list_resources_sql : SqlRequest → T String
list_resources_sql req = do
  schema ← schema_from_options req
  ph ← add (or_public schema)
  pure (append "SELECT table_name FROM information_schema.tables WHERE table_schema = " ph)

-- `_DIALECT`
abbrev pub dialect : Dialect
dialect = record {
  placeholder = placeholder;
  quote_ident = quote_ident;
  supports_returning = true;
  in_uses_array = true;
  delete_one_strategy = DeleteStrategy.ctid;
  schema_sql = schema_sql;
  indexes_sql = indexes_sql;
  list_resources_sql = list_resources_sql;
  list_databases_sql = λ req. pure "SELECT datname FROM pg_database WHERE datistemplate = false";
  stats_sql = λ req.
      pure
        "SELECT current_database() AS database, pg_database_size(current_database()) AS size_bytes";
}

placeholder_test : placeholder 120 ≡ "$120"
unfolding placeholder
placeholder_test = refl

-- `$` in the pattern of a name stands before a newline, too.
quote_ident_test :
    (quote_ident "public.users" ≡ some "public.users")
    × ((quote_ident "users; --" ≡ none) × (quote_ident "users\n" ≡ some "users\n"))
unfolding quote_ident validate_ident guardmcp.Prelude.split guardmcp.Sql.Identifier.matches_rest
quote_ident_test = (refl, (refl, refl))
