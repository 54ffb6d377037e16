-- ===== src/Sql/Erased/Statements.antt =====
-- The text of reads and inserts, without the values.
use guardmcp.Prelude.{
  ℕ, suc, String, ◌≡◌, refl, ap, Bool, Option, none, some, List, [], ◌∷◌, length, subst,
}
use guardmcp.Json.{Value, null, natural, Fields, end, field, keys}
use guardmcp.Sql.{SqlRequest, Dialect, concat}
use guardmcp.Sql.Statements.{
  projection_columns, bounded_by, translate_read, translate_count, values_at, rows, insert_into,
  insert_rows, assignments,
}
use guardmcp.Sql.Erasure.{erase, erase_docs, erase_doc, erase_set, erase_update, zeroed}
use guardmcp.Sql.Erased.{
  Respects, bind-Respects, pure-Respects, refuse-Respects, lift-Respects, add-Respects,
  add_each-Respects, quote_each-Respects, build_where-Respects,
}

module _ (d : Dialect) where
  bounded_by-Respects :
      (word : String) (n : Option ℕ) → Respects (bounded_by d word n) (bounded_by d word (zeroed n))
  bounded_by-Respects word none = pure-Respects ""
  bounded_by-Respects word (some n) =
      bind-Respects (add-Respects d (natural n) (natural 0))
        (λ ph. pure-Respects (concat (word ∷ ph ∷ [])))

  projection_columns-Respects :
      (p : Option Fields) → Respects (projection_columns d p) (projection_columns d p)
  unfolding projection_columns
  projection_columns-Respects none = pure-Respects "*"
  projection_columns-Respects (some end) = pure-Respects "*"
  projection_columns-Respects (some (field k v fs)) =
      bind-Respects (quote_each-Respects d (keys (field k v fs))) (λ cols. pure-Respects _)

  pub translate_read-Respects :
      (req : SqlRequest) (explain : Bool)
      → Respects (translate_read d req explain) (translate_read d (erase req) explain)
  unfolding translate_read
  translate_read-Respects req explain =
      bind-Respects (lift-Respects (d.quote_ident req.resource)) (λ table.
        bind-Respects (projection_columns-Respects req.projection) (λ cols.
          bind-Respects (build_where-Respects d req.filter) (λ clause.
            bind-Respects (bounded_by-Respects " LIMIT " req.limit) (λ limit_.
              bind-Respects (bounded_by-Respects " OFFSET " req.skip)
                (λ offset. pure-Respects _)))))

  pub translate_count-Respects :
      (req : SqlRequest) → Respects (translate_count d req) (translate_count d (erase req))
  unfolding translate_count
  translate_count-Respects req =
      bind-Respects (lift-Respects (d.quote_ident req.resource))
        (λ table. bind-Respects (build_where-Respects d req.filter) (λ clause. pure-Respects _))

  length-values_at :
      (cs : List String) (doc doc' : Fields)
      → length (values_at d cs doc) ≡ length (values_at d cs doc')
  length-values_at [] doc doc' = refl
  length-values_at (c ∷ cs) doc doc' = ap suc (length-values_at cs doc doc')

  rows-Respects :
      (cols : List String) (docs : List Fields)
      → Respects (rows d cols docs) (rows d cols (erase_docs docs))
  unfolding rows
  rows-Respects cols [] = pure-Respects []
  rows-Respects cols (doc ∷ docs) =
      bind-Respects (add_each-Respects d _ _ (length-values_at cols doc (erase_doc doc)))
        (λ phs. bind-Respects (rows-Respects cols docs) (λ others. pure-Respects _))

  insert_into-Respects :
      (req : SqlRequest) (cols : List String) (docs : List Fields)
      → Respects (insert_into d req cols docs) (insert_into d (erase req) cols (erase_docs docs))
  unfolding insert_into
  insert_into-Respects req [] docs = refuse-Respects
  insert_into-Respects req (c ∷ cols) docs =
      bind-Respects (lift-Respects (d.quote_ident req.resource)) (λ table.
        bind-Respects (quote_each-Respects d (c ∷ cols))
          (λ quoted. bind-Respects (rows-Respects (c ∷ cols) docs) (λ clauses. pure-Respects _)))

  keys-erase_doc : (doc : Fields) → keys doc ≡ keys (erase_doc doc)
  keys-erase_doc end = refl
  keys-erase_doc (field k v fs) = ap (λ ks. k ∷ ks) (keys-erase_doc fs)

  pub insert_rows-Respects :
      (req : SqlRequest) (doc : Fields) (docs : List Fields)
      → Respects
          (insert_rows d req doc docs)
          (insert_rows d (erase req) (erase_doc doc) (erase_docs docs))
  unfolding insert_rows
  insert_rows-Respects req doc docs =
      subst
        (λ ks.
          Respects (insert_into d req (keys doc) (doc ∷ docs))
            (insert_into d (erase req) ks (erase_docs (doc ∷ docs))))
        (keys-erase_doc doc) (insert_into-Respects req (keys doc) (doc ∷ docs))

  -- One value is bound for each column, whatever it is.
  assignments-Respects :
      (f : Value → Value) (g : Fields → Fields)
      → (g end ≡ end)
      → ((col : String) (v : Value) (fs : Fields) → g (field col v fs) ≡ field col (f v) (g fs))
      → (fs : Fields) → Respects (assignments d fs) (assignments d (g fs))
  unfolding assignments
  assignments-Respects f g nil_ cons_ end = rw nil_ (pure-Respects [])
  assignments-Respects f g nil_ cons_ (field col val fs) = rw cons_ (
      bind-Respects (lift-Respects (d.quote_ident col)) (λ ident.
        bind-Respects (add-Respects d val (f val)) (λ ph.
          bind-Respects (assignments-Respects f g nil_ cons_ fs)
            (λ others. pure-Respects (concat (ident ∷ " = " ∷ ph ∷ []) ∷ others)))))

  pub flat-Respects : (fs : Fields) → Respects (assignments d fs) (assignments d (erase_doc fs))
  flat-Respects = assignments-Respects (λ v. null) erase_doc refl (λ col v fs. refl)

  pub nested-Respects :
      (fs : Fields) → Respects (assignments d fs) (assignments d (erase_update fs))
  nested-Respects = assignments-Respects erase_set erase_update refl (λ col v fs. refl)
