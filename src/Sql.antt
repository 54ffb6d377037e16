-- ===== src/Sql.antt =====
-- plugins/sql/translate_base.py: the translation of a capability request to parameterized SQL. A
-- dialect is a parameter, as in the source.
pub mod Statements
pub mod Erasure
pub mod Erased
pub mod Scope
pub mod Validation
pub mod Identifier
pub mod Postgres
pub mod Mysql
pub mod Dialects
use Prim.Native.String.{◌++◌ as append}
use guardmcp.Prelude.{
  ℕ, suc, String, Bool, true, false, Option, none, some, List, [], ◌∷◌, ◌++◌, ◌===◌, length,
  is_empty, not, ◌&&◌, is_some, if◌then◌else◌,
}
use guardmcp.Json.{
  Value, null, natural, arr, obj, Items, nil, cons, Fields, end, field, get, keys, items,
}
use guardmcp.Capability.{Capability}

-- The fields of `CapabilityRequest` that the translation reads.
pub record SqlRequest : Type 0 where
  pub capability : Capability
  pub resource : String
  pub filter : Option Fields
  pub projection : Option Fields
  pub documents : List Fields
  pub update : Option Fields
  pub limit : Option ℕ
  pub skip : Option ℕ
  pub options : Fields

-- `_ArgCounter` is the list of the bound values; `none` is a `GuardValidationError`.
abbrev pub T : Type 0 → Type 0
T A = List Value → Option (A × List Value)

abbrev pub bound : {A B : Type 0} → (A → T B) → Option (A × List Value) → Option (B × List Value)
bound f none = none
bound f (some (a, args)) = f a args

infixl 5 ◌>>=◌ ◌>>◌
abbrev pub ◌>>=◌ : {A B : Type 0} → T A → (A → T B) → T B
◌>>=◌ m f args = bound f (m args)

abbrev pub ◌>>◌ : {A B : Type 0} → T A → T B → T B
m >> k = m >>= λ _. k

abbrev pub pure : {A : Type 0} → A → T A
pure a args = some (a, args)

abbrev pub refuse : {A : Type 0} → T A
refuse args = none

abbrev pub lift : {A : Type 0} → Option A → T A
lift none args = none
lift (some a) args = some (a, args)

pub data DeleteStrategy : Type 0 where
  ctid limit unknown : DeleteStrategy

pub record Dialect : Type 0 where
  pub placeholder : ℕ → String
  pub quote_ident : String → Option String
  pub supports_returning : Bool
  pub in_uses_array : Bool
  pub delete_one_strategy : DeleteStrategy
  pub schema_sql : SqlRequest → T String
  pub indexes_sql : SqlRequest → T String
  pub list_resources_sql : SqlRequest → T String
  pub list_databases_sql : SqlRequest → T String
  pub stats_sql : SqlRequest → T String

-- An f-string.
abbrev pub concat : List String → String
concat [] = ""
concat (s ∷ ss) = append s (concat ss)

-- `sep.join(parts)`
abbrev pub join : String → List String → String
join sep [] = ""
join sep (s ∷ []) = s
join sep (s ∷ t ∷ ss) = concat (s ∷ sep ∷ join sep (t ∷ ss) ∷ [])

-- `_OPERATORS.get`
unfoldable pub operator : String → Option String
operator op =
    if op === "$gt"
    then some ">"
    else if op === "$gte"
    then some ">="
    else if op === "$lt"
    then some "<"
    else if op === "$lte"
    then some "<="
    else if op === "$ne"
    then some "!="
    else none

-- `f" WHERE {where}"` where there is one
abbrev pub where_clause : String → String
where_clause clause = if clause === "" then "" else concat (" WHERE " ∷ clause ∷ [])

module _ (d : Dialect) where
  abbrev pub quote : String → T String
  quote name = lift (d.quote_ident name)

  -- `counter.add`
  abbrev pub add : Value → T String
  add v args = some (d.placeholder (suc (length args)), args ++ v ∷ [])

  abbrev pub add_each : List Value → T (List String)
  add_each [] = pure []
  add_each (v ∷ vs) = do ph ← add v; phs ← add_each vs; pure (ph ∷ phs)

  abbrev pub quote_each : List String → T (List String)
  quote_each [] = pure []
  quote_each (name ∷ names) = do q ← quote name; qs ← quote_each names; pure (q ∷ qs)

  expand : String → Items → T String
  expand ident nil = refuse
  expand ident xs = do
    phs ← add_each (items xs)
    pure (concat (ident ∷ " IN (" ∷ join ", " phs ∷ ")" ∷ []))

  -- `_build_in`
  unfoldable pub build_in : String → Value → T String
  unfolding expand
  build_in ident (arr xs) =
      if d.in_uses_array
      then (add (arr xs) >>= λ ph. pure (concat (ident ∷ " = ANY(" ∷ ph ∷ ")" ∷ [])))
      else expand ident xs
  build_in ident _ = refuse

  compare_with : String → Value → Option String → T String
  compare_with ident val none = refuse
  compare_with ident val (some sign) = do
    ph ← add val
    pure (concat (ident ∷ " " ∷ sign ∷ " " ∷ ph ∷ []))

  condition : String → String → Value → T String
  unfolding compare_with
  condition ident op val =
      if op === "$in" then build_in ident val else compare_with ident val (operator op)

  unfoldable pub conditions : String → Fields → T (List String)
  unfolding condition
  conditions ident end = pure []
  conditions ident (field op val fs) = do
    clause ← condition ident op val
    clauses ← conditions ident fs
    pure (clause ∷ clauses)

  -- The clauses of one column.
  unfoldable pub column : String → Value → T (List String)
  column ident (obj cond) = conditions ident cond
  column ident cond = do ph ← add cond; pure (concat (ident ∷ " = " ∷ ph ∷ []) ∷ [])

  unfoldable pub columns : Fields → T (List String)
  columns end = pure []
  columns (field col cond fs) = do
    ident ← quote col
    clauses ← column ident cond
    others ← columns fs
    pure (clauses ++ others)

  -- `_build_where`
  unfoldable pub build_where : Option Fields → T String
  build_where none = pure ""
  build_where (some filter) = columns filter >>= λ clauses. pure (join " AND " clauses)
