-- ===== src/Sql/Statements.antt =====
-- plugins/sql/translate_base.py: the statement of each capability.
use guardmcp.Prelude.{
  ℕ, String, Bool, true, false, Option, none, some, List, [], ◌∷◌, ◌===◌, if◌then◌else◌,
}
use guardmcp.Json.{Value, null, natural, obj, Fields, end, field, get, keys}
use guardmcp.Capability.{Capability}
use guardmcp.Sql.{
  SqlRequest, T, ◌>>=◌, pure, refuse, DeleteStrategy, ctid, limit, unknown, Dialect, concat, join,
  where_clause, quote, add, add_each, quote_each, build_where,
}

-- `req.update.get("$set") if "$set" in req.update else req.update`
abbrev pub set_doc : Fields → Option Value → Value
set_doc update none = obj update
set_doc update (some v) = v

module _ (d : Dialect) where
  -- `_projection_columns`
  unfoldable pub projection_columns : Option Fields → T String
  projection_columns none = pure "*"
  projection_columns (some end) = pure "*"
  projection_columns (some fs) = quote_each d (keys fs) >>= λ cols. pure (join ", " cols)

  -- `LIMIT` and `OFFSET`
  abbrev pub bounded_by : String → Option ℕ → T String
  bounded_by word none = pure ""
  bounded_by word (some n) = add d (natural n) >>= λ ph. pure (concat (word ∷ ph ∷ []))

  -- `_translate_read`
  unfoldable pub translate_read : SqlRequest → (explain : Bool) → T String
  translate_read req explain = do
    table ← quote d req.resource
    cols ← projection_columns req.projection
    clause ← build_where d req.filter
    limit_ ← bounded_by " LIMIT " req.limit
    offset ← bounded_by " OFFSET " req.skip
    pure (
        concat (
          (if explain then "EXPLAIN " else "")
          ∷ "SELECT "
          ∷ cols
          ∷ " FROM "
          ∷ table
          ∷ where_clause clause
          ∷ limit_
          ∷ offset
          ∷ []))

  -- `_translate_count`
  unfoldable pub translate_count : SqlRequest → T String
  translate_count req = do
    table ← quote d req.resource
    clause ← build_where d req.filter
    pure (concat ("SELECT count(*) FROM " ∷ table ∷ where_clause clause ∷ []))

  abbrev pub returning : String
  returning = if d.supports_returning then " RETURNING *" else ""

  -- `doc.get(c)` for each column
  abbrev pub values_at : List String → Fields → List Value
  values_at [] doc = []
  values_at (c ∷ cs) doc = elim (get c doc) [ none ↦ null | some v ↦ v ] ∷ values_at cs doc

  unfoldable pub rows : List String → List Fields → T (List String)
  rows cols [] = pure []
  rows cols (doc ∷ docs) = do
    phs ← add_each d (values_at cols doc)
    others ← rows cols docs
    pure (concat ("(" ∷ join ", " phs ∷ ")" ∷ []) ∷ others)

  unfoldable pub insert_into : SqlRequest → List String → List Fields → T String
  insert_into req [] docs = refuse
  insert_into req cols docs = do
    table ← quote d req.resource
    quoted ← quote_each d cols
    clauses ← rows cols docs
    pure (
        concat (
          "INSERT INTO "
          ∷ table
          ∷ " ("
          ∷ join ", " quoted
          ∷ ") VALUES "
          ∷ join ", " clauses
          ∷ returning
          ∷ []))

  -- `_translate_insert_rows`, of a non-empty list
  unfoldable pub insert_rows : SqlRequest → Fields → List Fields → T String
  unfolding insert_into
  insert_rows req doc docs = insert_into req (keys doc) (doc ∷ docs)

  unfoldable pub assignments : Fields → T (List String)
  assignments end = pure []
  assignments (field col val fs) = do
    ident ← quote d col
    ph ← add d val
    others ← assignments fs
    pure (concat (ident ∷ " = " ∷ ph ∷ []) ∷ others)

  unfoldable pub set_clauses : SqlRequest → Value → T String
  set_clauses req (obj (field col val fs)) = do
    table ← quote d req.resource
    sets ← assignments (field col val fs)
    clause ← build_where d req.filter
    pure (
        concat
          ("UPDATE " ∷ table ∷ " SET " ∷ join ", " sets ∷ where_clause clause ∷ returning ∷ []))
  set_clauses req _ = refuse

  -- `_translate_update`
  unfoldable pub translate_update : SqlRequest → Option Fields → T String
  unfolding set_clauses
  translate_update req none = refuse
  translate_update req (some update) = set_clauses req (set_doc update (get "$set" update))

  -- `_delete_one_sql`
  abbrev pub delete_one_sql : DeleteStrategy → (table clause : String) → T String
  delete_one_sql ctid table clause = pure (
      concat (
        "DELETE FROM "
        ∷ table
        ∷ " WHERE ctid IN (SELECT ctid FROM "
        ∷ table
        ∷ where_clause clause
        ∷ " LIMIT 1)"
        ∷ []))
  delete_one_sql limit table clause =
      pure (concat ("DELETE FROM " ∷ table ∷ where_clause clause ∷ " LIMIT 1" ∷ []))
  delete_one_sql unknown table clause = refuse

  unfoldable pub delete_sql : (single : Bool) → (table clause : String) → T String
  delete_sql true table clause =
      if clause === "" then refuse else delete_one_sql d.delete_one_strategy table clause
  delete_sql false table clause = pure (concat ("DELETE FROM " ∷ table ∷ where_clause clause ∷ []))

  -- `_translate_delete`
  unfoldable pub translate_delete : SqlRequest → (single : Bool) → T String
  unfolding delete_sql
  translate_delete req single = do
    table ← quote d req.resource
    clause ← build_where d req.filter
    delete_sql single table clause

  -- `_translate_insert`
  unfoldable pub translate_insert :
      SqlRequest → Option Fields → Option Fields → List Fields → T String
  translate_insert req (some update) (some filter) [] = translate_update req (some update)
  translate_insert req update filter [] = refuse
  translate_insert req update filter (doc ∷ docs) = insert_rows req doc []

  -- `_translate_insert_many`
  unfoldable pub translate_insert_many : SqlRequest → List Fields → T String
  translate_insert_many req [] = refuse
  translate_insert_many req (doc ∷ docs) = insert_rows req doc docs

  unfoldable pub by_capability : SqlRequest → Capability → T String
  by_capability req Capability.read = translate_read req false
  by_capability req Capability.explain = translate_read req true
  by_capability req Capability.count = translate_count req
  by_capability req Capability.write_one = translate_insert req req.update req.filter req.documents
  by_capability req Capability.write_many = translate_insert_many req req.documents
  by_capability req Capability.delete_one = translate_delete req true
  by_capability req Capability.delete_many = translate_delete req false
  by_capability req Capability.schema = d.schema_sql req
  by_capability req Capability.indexes = d.indexes_sql req
  by_capability req Capability.list_resources = d.list_resources_sql req
  by_capability req Capability.list_databases = d.list_databases_sql req
  by_capability req Capability.stats = d.stats_sql req
  by_capability req _ = refuse

  -- `translate`: the text, and the values that are bound to its placeholders.
  unfoldable pub translate : SqlRequest → Option (String × List Value)
  unfolding by_capability
  translate req = by_capability req req.capability []
