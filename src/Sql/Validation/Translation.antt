-- ===== src/Sql/Validation/Translation.antt =====
-- What the validation of a request says of its translation.
use guardmcp.Prelude.{
  String, Bool, true, false, ◌&&◌, ◌||◌, ◌≡◌, refl, sym, ap, ◌∙◌, Option, none, some, List, [], ◌∷◌,
  is_some, is_empty, arith, ◌===◌,
}
use guardmcp.Json.{Fields, end, field, get}
use guardmcp.Capability.{Capability}
use guardmcp.Sql.{
  SqlRequest, Dialect, DeleteStrategy, ctid, limit, unknown, ◌>>=◌, quote, build_where,
}
use guardmcp.Sql.Statements.{
  translate_read, set_doc, translate_update, translate_insert, translate_insert_many, by_capability,
  translate, translate_delete, delete_sql, delete_one_sql,
}
use guardmcp.Sql.Validation.{
  no_forbidden, accepts, validate_filter, validate_keys, validate_update, validate_request,
}
use guardmcp.Sql.Validation.Returns.{
  filter_operands, Gives, bind-Gives, quote-Gives, build_where-Gives,
}
use guardmcp.Sql.Validation.Clauses.{has_clause, Full, bind_full-Gives, build_where-Full}
use guardmcp.Sql.Validation.Statements.{
  sets_field, scoped, translate_read-Gives, translate_count-Gives, translate_delete-Gives,
  insert_rows-Gives, set_clauses-Gives,
}

module _ (d : Dialect) where
  abbrev has_row : List Fields → Bool
  has_row (field k v fs ∷ docs) = true
  has_row _ = false

  -- `write_one` with an update in place of a document
  abbrev has_set : Option Fields → Option Fields → Bool
  has_set (some update) (some filter) =
      sets_field (set_doc update (get "$set" update)) && filter_operands d (some filter)
  has_set _ _ = false

  abbrev is_known : DeleteStrategy → Bool
  is_known DeleteStrategy.ctid = true
  is_known DeleteStrategy.limit = true
  is_known DeleteStrategy.unknown = false

  -- A filter that gives a clause.
  abbrev restricts : Option Fields → Bool
  restricts none = false
  restricts (some fs) = has_clause fs

  -- What the translation of a capability asks of a request besides its names: lists as operands of
  -- `$in`, a document with a field or an update that sets one, and for a single deletion a filter that
  -- gives a clause. The queries of the catalog, which the dialect builds itself, and the capabilities
  -- that have no statement are left out.
  unfoldable pub is_complete : SqlRequest → Capability → Bool
  is_complete req Capability.read = filter_operands d req.filter
  is_complete req Capability.explain = filter_operands d req.filter
  is_complete req Capability.count = filter_operands d req.filter
  is_complete req Capability.delete_many = filter_operands d req.filter
  is_complete req Capability.delete_one =
      filter_operands d req.filter && restricts req.filter && is_known d.delete_one_strategy
  is_complete req Capability.write_many = has_row req.documents
  is_complete req Capability.write_one =
      has_row req.documents || (is_empty req.documents && has_set req.update req.filter)
  is_complete req _ = false

  -- A read is translated exactly when its validation accepts its resource, filter and projection and
  -- each operand of `$in` in its filter is a list that the dialect can write.  The resource is named.
  pub translate_read-validate_request :
      (req : SqlRequest) (explain : Bool)
      → (req.resource === "") ≡ false
      → is_some (translate_read d req explain []) ≡ (
          validate_request d.quote_ident
            (record req { documents = []; update = none; options = end })
          && filter_operands d req.filter)
  unfolding validate_request no_forbidden validate_keys get
  translate_read-validate_request req explain named =
      rw named (translate_read-Gives d req explain [] ∙ ground arith)

  write_many-returns :
      (req : SqlRequest) (docs : List Fields)
      → accepts d.quote_ident req.resource ≡ true
      → validate_keys d.quote_ident docs ≡ true
      → has_row docs ≡ true
      → is_some (translate_insert_many d req docs []) ≡ true
  unfolding validate_keys translate_insert_many
  write_many-returns req [] r v h = cc
  write_many-returns req (end ∷ docs) r v h = cc
  write_many-returns req (field k w fs ∷ docs) r v h =
      insert_rows-Gives d req k w fs docs [] ∙ ground arith

  update-returns :
      (req : SqlRequest) (update : Fields)
      → scoped d req ≡ true
      → validate_update d.quote_ident (some update) ≡ true
      → sets_field (set_doc update (get "$set" update)) ≡ true
      → is_some (translate_update d req (some update) []) ≡ true
  unfolding translate_update
  update-returns req update r v h =
      set_clauses-Gives d req (set_doc update (get "$set" update)) h [] ∙ ground arith

  write_one-returns :
      (req : SqlRequest) (update filter : Option Fields) (docs : List Fields)
      → filter ≡ req.filter
      → accepts d.quote_ident req.resource ≡ true
      → validate_filter d.quote_ident req.filter ≡ true
      → validate_keys d.quote_ident docs ≡ true
      → validate_update d.quote_ident update ≡ true
      → (has_row docs || (is_empty docs && has_set update filter)) ≡ true
      → is_some (translate_insert d req update filter docs []) ≡ true
  unfolding validate_keys translate_insert
  write_one-returns req (some update) (some filter) [] e r f ks u h =
      let kept : filter_operands d (some filter) ≡ true = ground arith in
      update-returns req update (rw (r, f) (ap (λ g. filter_operands d g) (sym e) ∙ kept)) u
        (ground arith)
  write_one-returns req (some update) none [] e r f ks u h = cc
  write_one-returns req none filter [] e r f ks u h = cc
  write_one-returns req update filter (end ∷ docs) e r f ks u h = cc
  write_one-returns req update filter (field k w fs ∷ docs) e r f ks u h =
      insert_rows-Gives d req k w fs [] [] ∙ ground arith

  delete_one_sql-Gives :
      (o : DeleteStrategy) (table clause : String)
      → is_known o ≡ true
      → Gives (delete_one_sql d o table clause) true
  delete_one_sql-Gives ctid table clause h args = refl
  delete_one_sql-Gives limit table clause h args = refl
  delete_one_sql-Gives unknown table clause h args = cc

  delete_where-Gives :
      (filter : Option Fields) (table : String)
      → restricts filter ≡ true
      → is_known d.delete_one_strategy ≡ true
      → Gives
          (build_where d filter >>= λ clause. delete_sql d true table clause)
          (validate_filter d.quote_ident filter && filter_operands d filter)
  unfolding delete_sql
  delete_where-Gives none table h k args = cc
  delete_where-Gives (some fs) table h k args =
      bind_full-Gives Full (build_where d (some fs)) (λ clause. delete_sql d true table clause) _
        (build_where-Gives d (some fs)) (build_where-Full d fs h)
        (λ clause full args.
          rw full (delete_one_sql-Gives d.delete_one_strategy table clause k args))
        args

  delete_one-returns :
      (req : SqlRequest)
      → scoped d req ≡ true
      → restricts req.filter ≡ true
      → is_known d.delete_one_strategy ≡ true
      → is_some (translate_delete d req true []) ≡ true
  unfolding translate_delete
  delete_one-returns req valid h k =
      bind-Gives (quote d req.resource)
        (λ table. build_where d req.filter >>= λ clause. delete_sql d true table clause) _ _
        (quote-Gives d req.resource) (λ table. delete_where-Gives req.filter table h k) []
      ∙ ground arith

  -- A request to read, explain, count, insert, update or delete that its validation accepts, and that is
  -- complete for its capability, is translated: no name that the validation let through is refused
  -- later. Its resource is named; a request of the catalog is not complete.
  pub translate-validate_request :
      (req : SqlRequest)
      → validate_request d.quote_ident req ≡ true
      → (req.resource === "") ≡ false
      → is_complete req req.capability ≡ true
      → is_some (translate d req) ≡ true
  unfolding translate by_capability is_complete validate_request
  translate-validate_request req valid named complete = go req.capability complete
    where
      r : accepts d.quote_ident req.resource ≡ true
      r = ground arith

      go : (c : Capability) → is_complete req c ≡ true → is_some (by_capability d req c []) ≡ true
      go Capability.read h = translate_read-Gives d req false [] ∙ ground arith
      go Capability.explain h = translate_read-Gives d req true [] ∙ ground arith
      go Capability.count h = translate_count-Gives d req [] ∙ ground arith
      go Capability.delete_many h = translate_delete-Gives d req [] ∙ ground arith
      go Capability.write_many h = write_many-returns req req.documents r (ground arith) h
      go Capability.write_one h =
          write_one-returns req req.update req.filter req.documents refl r (ground arith)
            (ground arith) (ground arith) h
      go Capability.aggregate h = cc
      go Capability.delete_one h =
          delete_one-returns req (ground arith) (ground arith) (ground arith)
      go Capability.schema h = cc
      go Capability.indexes h = cc
      go Capability.estimate h = cc
      go Capability.list_resources h = cc
      go Capability.list_databases h = cc
      go Capability.stats h = cc
      go Capability.ddl_create h = cc
      go Capability.ddl_destroy h = cc
      go Capability.logs h = cc
