-- ===== src/Sql/Erased/Translated.antt =====
-- The text of updates, deletes and of the whole translation, without the values.
use guardmcp.Prelude.{
  String, ◌≡◌, refl, sym, ap, ◌∙◌, Bool, true, false, Option, none, some, List, [], ◌∷◌, ◌===◌, inl,
  inr, Bool-cases, subst,
}
use guardmcp.Json.{Value, obj, Fields, end, field, get}
use guardmcp.Capability.{Capability}
use guardmcp.Sql.{
  SqlRequest, ◌>>=◌, pure, Dialect, DeleteStrategy, concat, join, where_clause, quote, build_where,
}
use guardmcp.Sql.Statements.{
  assignments, set_clauses, set_doc, translate_update, delete_sql, translate_delete,
  translate_insert, translate_insert_many, by_capability, translate, delete_one_sql, returning,
}
use guardmcp.Sql.Erasure.{
  erase, erase_filter, erase_docs, erase_doc, erase_set, erase_update, mapped,
}
use guardmcp.Sql.Erased.{
  Alike, Respects, bind-Respects, pure-Respects, refuse-Respects, lift-Respects, if-Respects,
  build_where-Respects,
}
use guardmcp.Sql.Erased.Statements.{
  translate_read-Respects, translate_count-Respects, insert_rows-Respects, flat-Respects,
  nested-Respects,
}

abbrev mapped_set : Option Value → Option Value
mapped_set none = none
mapped_set (some v) = some (erase_set v)

-- The capabilities whose statement the dialect builds itself, from its catalog.
abbrev pub is_catalog : Capability → Bool
is_catalog Capability.schema = true
is_catalog Capability.indexes = true
is_catalog Capability.list_resources = true
is_catalog Capability.list_databases = true
is_catalog Capability.stats = true
is_catalog _ = false

module _ (d : Dialect) where
  update_clauses-Respects :
      (req : SqlRequest) (fs fs' : Fields)
      → Respects (assignments d fs) (assignments d fs')
      → Respects
          (do
            table ← quote d req.resource
            sets ← assignments d fs
            clause ← build_where d req.filter
            pure (
                concat (
                  "UPDATE "
                  ∷ table
                  ∷ " SET "
                  ∷ join ", " sets
                  ∷ where_clause clause
                  ∷ returning d
                  ∷ [])))
          (do
            table ← quote d req.resource
            sets ← assignments d fs'
            clause ← build_where d (erase req).filter
            pure (
                concat (
                  "UPDATE "
                  ∷ table
                  ∷ " SET "
                  ∷ join ", " sets
                  ∷ where_clause clause
                  ∷ returning d
                  ∷ [])))
  update_clauses-Respects req fs fs' h =
      bind-Respects (lift-Respects (d.quote_ident req.resource)) (λ table.
        bind-Respects h
          (λ sets. bind-Respects (build_where-Respects d req.filter) (λ clause. pure-Respects _)))

  set_clauses-Respects :
      (req : SqlRequest) (v : Value)
      → Respects (set_clauses d req v) (set_clauses d (erase req) (erase_set v))
  unfolding set_clauses
  set_clauses-Respects req (obj end) = refuse-Respects
  set_clauses-Respects req (obj (field col val fs)) =
      update_clauses-Respects req (field col val fs) (erase_doc (field col val fs))
        (flat-Respects d (field col val fs))
  set_clauses-Respects req _ = refuse-Respects

  flat_clauses-Respects :
      (req : SqlRequest) (fs : Fields)
      → Respects (set_clauses d req (obj fs)) (set_clauses d (erase req) (obj (erase_update fs)))
  unfolding set_clauses
  flat_clauses-Respects req end = refuse-Respects
  flat_clauses-Respects req (field col val fs) =
      update_clauses-Respects req (field col val fs) (erase_update (field col val fs))
        (nested-Respects d (field col val fs))

  get-erase_update : (k : String) (fs : Fields) → get k (erase_update fs) ≡ mapped_set (get k fs)
  unfolding get
  get-erase_update k end = refl
  get-erase_update k (field j v fs) = elim (Bool-cases (j === k)) [
    | inl same ↦ rw same refl
    | inr other ↦ rw other (get-erase_update k fs)
  ]

  update-Respects :
      (req : SqlRequest) (update : Fields) (o o' : Option Value)
      → o' ≡ mapped_set o
      → Respects
          (set_clauses d req (set_doc update o))
          (set_clauses d (erase req) (set_doc (erase_update update) o'))
  update-Respects req update none o' e = rw e (flat_clauses-Respects req update)
  update-Respects req update (some v) o' e = rw e (set_clauses-Respects req v)

  translate_update-Respects :
      (req : SqlRequest) (update : Option Fields)
      → Respects
          (translate_update d req update)
          (translate_update d (erase req) (mapped erase_update update))
  unfolding translate_update
  translate_update-Respects req none = refuse-Respects
  translate_update-Respects req (some update) =
      update-Respects req update (get "$set" update) (get "$set" (erase_update update))
        (get-erase_update "$set" update)

  delete_one_sql-Respects :
      (s : DeleteStrategy) (table clause : String)
      → Respects (delete_one_sql d s table clause) (delete_one_sql d s table clause)
  delete_one_sql-Respects DeleteStrategy.ctid table clause = pure-Respects _
  delete_one_sql-Respects DeleteStrategy.limit table clause = pure-Respects _
  delete_one_sql-Respects DeleteStrategy.unknown table clause = refuse-Respects

  delete_sql-Respects :
      (single : Bool) (table clause : String)
      → Respects (delete_sql d single table clause) (delete_sql d single table clause)
  unfolding delete_sql
  delete_sql-Respects true table clause =
      if-Respects (clause === "") refuse-Respects
        (delete_one_sql-Respects d.delete_one_strategy table clause)
  delete_sql-Respects false table clause = pure-Respects _

  translate_delete-Respects :
      (req : SqlRequest) (single : Bool)
      → Respects (translate_delete d req single) (translate_delete d (erase req) single)
  unfolding translate_delete
  translate_delete-Respects req single =
      bind-Respects (lift-Respects (d.quote_ident req.resource)) (λ table.
        bind-Respects (build_where-Respects d req.filter)
          (λ clause. delete_sql-Respects single table clause))

  translate_insert-Respects :
      (req : SqlRequest) (update filter : Option Fields) (docs : List Fields)
      → Respects (translate_insert d req update filter docs) (
          translate_insert d
            (erase req)
            (mapped erase_update update)
            (mapped erase_filter filter)
            (erase_docs docs))
  unfolding translate_insert
  translate_insert-Respects req (some update) (some filter) [] =
      translate_update-Respects req (some update)
  translate_insert-Respects req none filter [] = refuse-Respects
  translate_insert-Respects req (some update) none [] = refuse-Respects
  translate_insert-Respects req update filter (doc ∷ docs) = insert_rows-Respects d req doc []

  translate_insert_many-Respects :
      (req : SqlRequest) (docs : List Fields)
      → Respects
          (translate_insert_many d req docs)
          (translate_insert_many d (erase req) (erase_docs docs))
  unfolding translate_insert_many
  translate_insert_many-Respects req [] = refuse-Respects
  translate_insert_many-Respects req (doc ∷ docs) = insert_rows-Respects d req doc docs

  by_capability-Respects :
      (req : SqlRequest) (cap : Capability)
      → is_catalog cap ≡ false
      → Respects (by_capability d req cap) (by_capability d (erase req) cap)
  unfolding by_capability
  by_capability-Respects req Capability.read h = translate_read-Respects d req false
  by_capability-Respects req Capability.explain h = translate_read-Respects d req true
  by_capability-Respects req Capability.count h = translate_count-Respects d req
  by_capability-Respects req Capability.write_one h =
      translate_insert-Respects req req.update req.filter req.documents
  by_capability-Respects req Capability.write_many h =
      translate_insert_many-Respects req req.documents
  by_capability-Respects req Capability.delete_one h = translate_delete-Respects req true
  by_capability-Respects req Capability.delete_many h = translate_delete-Respects req false
  by_capability-Respects req Capability.schema h = cc h
  by_capability-Respects req Capability.indexes h = cc h
  by_capability-Respects req Capability.list_resources h = cc h
  by_capability-Respects req Capability.list_databases h = cc h
  by_capability-Respects req Capability.stats h = cc h
  by_capability-Respects req _ h = refuse-Respects

  translate-erase :
      (req : SqlRequest)
      → is_catalog req.capability ≡ false
      → Alike (translate d req) (translate d (erase req))
  unfolding translate
  translate-erase req h = (by_capability-Respects req req.capability h).at [] [] refl

Alike-swap : {A : Type 0} (o p : Option (A × List Value)) → Alike o p → Alike p o
Alike-swap none none h = tt
Alike-swap none (some x) h = absurd h
Alike-swap (some x) none h = absurd h
Alike-swap (some (a, xs)) (some (b, ys)) (same, len) = (sym same, sym len)

Alike-trans : {A : Type 0} (o p q : Option (A × List Value)) → Alike o p → Alike p q → Alike o q
Alike-trans none none q h k = k
Alike-trans none (some x) q h k = absurd h
Alike-trans (some x) none q h k = absurd h
Alike-trans (some x) (some y) none h k = absurd k
Alike-trans (some (a, xs)) (some (b, ys)) (some (c, zs)) (same, len) (same', len') =
    (same ∙ same', len ∙ len')

-- Two requests that differ in values only, with the same names, operators and lengths of lists, are
-- both refused, or have the same text and bind as many values: no value reaches the text. Requests
-- of the catalog, which the dialect builds itself, are left out.
pub translate-values_unseen :
    (d : Dialect) (a b : SqlRequest)
    → is_catalog a.capability ≡ false
    → erase a ≡ erase b
    → Alike (translate d a) (translate d b)
translate-values_unseen d a b h e =
    Alike-trans (translate d a) (translate d (erase a)) (translate d b) (translate-erase d a h) (
      subst (λ r. Alike (translate d r) (translate d b)) (sym e)
        (Alike-swap (translate d b) (translate d (erase b))
          (translate-erase d b (ap (λ r. is_catalog r.capability) (sym e) ∙ h))))
