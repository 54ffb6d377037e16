-- ===== src/Sql/Validation/Statements.antt =====
-- When a statement is translated: its names and the operands of its filter decide it.
use guardmcp.Prelude.{
  ℕ, String, Bool, true, false, ◌&&◌, ◌≡◌, refl, ◌∙◌, Option, none, some, List, [], ◌∷◌, arith,
}
use guardmcp.Json.{
  Value, null, bool, natural, negative, str, scalar, arr, obj, Fields, end, field, keys,
}
use guardmcp.Sql.{SqlRequest, Dialect, quote, add, add_each, quote_each, concat, join, build_where}
use guardmcp.Sql.Statements.{
  projection_columns, bounded_by, translate_read, translate_count, rows, values_at, insert_into,
  insert_rows, assignments, set_clauses, translate_delete, delete_sql,
}
use guardmcp.Sql.Validation.{
  accepts, all_accepted, validate_filter, validate_projection, validate_set,
}
use guardmcp.Sql.Validation.Returns.{
  Gives, bind-Gives, then-Gives, last-Gives, quote-Gives, add_each-Gives, quote_each-Gives,
  filter_operands, build_where-Gives,
}

-- An object with a field.
abbrev pub sets_field : Value → Bool
sets_field (obj (field k v fs)) = true
sets_field _ = false

module _ (d : Dialect) where
  projection_columns-Gives :
      (p : Option Fields) → Gives (projection_columns d p) (validate_projection d.quote_ident p)
  unfolding projection_columns all_accepted
  projection_columns-Gives none args = refl
  projection_columns-Gives (some end) args = refl
  projection_columns-Gives (some (field k v fs)) args =
      last-Gives (quote_each d (keys (field k v fs))) (λ cols. join ", " cols) _
        (quote_each-Gives d (keys (field k v fs))) args

  bounded_by-Gives : (word : String) (n : Option ℕ) → Gives (bounded_by d word n) true
  bounded_by-Gives word none args = refl
  bounded_by-Gives word (some n) args = refl

  -- The names of a table and a filter.
  abbrev pub scoped : SqlRequest → Bool
  scoped req =
      accepts d.quote_ident req.resource
      && validate_filter d.quote_ident req.filter
      && filter_operands d req.filter

  pub translate_read-Gives :
      (req : SqlRequest) (explain : Bool)
      → Gives
          (translate_read d req explain)
          (scoped req && validate_projection d.quote_ident req.projection)
  unfolding translate_read
  translate_read-Gives req explain args =
      bind-Gives (quote d req.resource) _ _ _ (quote-Gives d req.resource)
        (λ table.
          bind-Gives (projection_columns d req.projection) _ _ _
            (projection_columns-Gives req.projection)
            (λ cols.
              bind-Gives (build_where d req.filter) _ _ true (build_where-Gives d req.filter)
                (λ clause.
                  then-Gives (bounded_by d " LIMIT " req.limit) _ _
                    (bounded_by-Gives " LIMIT " req.limit)
                    (λ limit_.
                      last-Gives (bounded_by d " OFFSET " req.skip) _ _
                        (bounded_by-Gives " OFFSET " req.skip)))))
        args
      ∙ ground arith

  pub translate_count-Gives : (req : SqlRequest) → Gives (translate_count d req) (scoped req)
  unfolding translate_count
  translate_count-Gives req args =
      bind-Gives (quote d req.resource) _ _ _ (quote-Gives d req.resource)
        (λ table. last-Gives (build_where d req.filter) _ _ (build_where-Gives d req.filter)) args
      ∙ ground arith

  pub translate_delete-Gives :
      (req : SqlRequest) → Gives (translate_delete d req false) (scoped req)
  unfolding translate_delete delete_sql
  translate_delete-Gives req args =
      bind-Gives (quote d req.resource) _ _ _ (quote-Gives d req.resource)
        (λ table. last-Gives (build_where d req.filter) _ _ (build_where-Gives d req.filter)) args
      ∙ ground arith

  rows-Gives : (cols : List String) (docs : List Fields) → Gives (rows d cols docs) true
  unfolding rows
  rows-Gives cols [] args = refl
  rows-Gives cols (doc ∷ docs) args =
      then-Gives (add_each d (values_at d cols doc)) _ _ (add_each-Gives d (values_at d cols doc))
        (λ phs. last-Gives (rows d cols docs) _ _ (rows-Gives cols docs)) args

  pub insert_rows-Gives :
      (req : SqlRequest) (k : String) (v : Value) (fs : Fields) (docs : List Fields)
      → Gives
          (insert_rows d req (field k v fs) docs)
          (accepts d.quote_ident req.resource && all_accepted d.quote_ident (keys (field k v fs)))
  unfolding insert_rows insert_into
  insert_rows-Gives req k v fs docs args =
      bind-Gives (quote d req.resource) _ _ _ (quote-Gives d req.resource)
        (λ table.
          bind-Gives (quote_each d (keys (field k v fs))) _ _ true
            (quote_each-Gives d (keys (field k v fs)))
            (λ quoted.
              last-Gives (rows d (keys (field k v fs)) (field k v fs ∷ docs)) _ _
                (rows-Gives (keys (field k v fs)) (field k v fs ∷ docs))))
        args
      ∙ ground arith

  assignments-Gives :
      (fs : Fields) → Gives (assignments d fs) (all_accepted d.quote_ident (keys fs))
  unfolding assignments all_accepted
  assignments-Gives end args = refl
  assignments-Gives (field col v fs) args =
      bind-Gives (quote d col) _ _ _ (quote-Gives d col)
        (λ ident.
          then-Gives (add d v) _ _ (λ args. refl)
            (λ ph.
              last-Gives (assignments d fs) (λ sets. concat (ident ∷ " = " ∷ ph ∷ []) ∷ sets) _
                (assignments-Gives fs)))
        args
      ∙ ground arith

  pub set_clauses-Gives :
      (req : SqlRequest) (set : Value)
      → sets_field set ≡ true
      → Gives (set_clauses d req set) (scoped req && validate_set d.quote_ident set)
  unfolding set_clauses
  set_clauses-Gives req (obj (field k v fs)) h args =
      bind-Gives (quote d req.resource) _ _ _ (quote-Gives d req.resource)
        (λ table.
          bind-Gives (assignments d (field k v fs)) _ _ _ (assignments-Gives (field k v fs))
            (λ sets. last-Gives (build_where d req.filter) _ _ (build_where-Gives d req.filter)))
        args
      ∙ ground arith
  set_clauses-Gives req (obj end) h args = cc
  set_clauses-Gives req null h args = cc
  set_clauses-Gives req (bool b) h args = cc
  set_clauses-Gives req (natural n) h args = cc
  set_clauses-Gives req (negative n) h args = cc
  set_clauses-Gives req (str s) h args = cc
  set_clauses-Gives req (scalar r t) h args = cc
  set_clauses-Gives req (arr vs) h args = cc
