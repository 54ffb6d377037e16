-- ===== src/Sql/Dialects.antt =====
-- The two dialects compared: plugins/postgres and plugins/mysql.
use guardmcp.Prelude.{
  String, Bool, true, false, ◌&&◌, ◌≡◌, refl, Option, none, some, List, [], ◌∷◌, is_some, arith,
  ◌===◌,
}
use guardmcp.Json.{
  Value, null, bool, natural, negative, str, scalar, arr, obj, Fields, end, field, get, keys,
}
use guardmcp.Sql.{SqlRequest}
use guardmcp.Sql.Statements.{set_doc, translate_read}
use guardmcp.Sql.Validation.{
  accepts, all_accepted, conditions_accepted, validate_filter, validate_keys, validate_schema,
  validate_projection, validate_set, validate_update, validate_request,
}
use guardmcp.Sql.Validation.Returns.{
  is_operand, operands, column_operands, all_operands, filter_operands,
}
use guardmcp.Sql.Validation.Translation.{translate_read-validate_request}
use guardmcp.Sql.Postgres
use guardmcp.Sql.Mysql

-- Two quotings that accept the same names validate the same requests.
module _ (q r : String → Option String)
    (same : (name : String) → accepts q name ≡ accepts r name) where
  all_accepted-same : (names : List String) → all_accepted q names ≡ all_accepted r names
  unfolding all_accepted
  all_accepted-same [] = refl
  all_accepted-same (name ∷ names) = rw (same name, all_accepted-same names) refl

  conditions_accepted-same : (fs : Fields) → conditions_accepted q fs ≡ conditions_accepted r fs
  unfolding conditions_accepted
  conditions_accepted-same end = refl
  conditions_accepted-same (field col cond fs) = rw (same col, conditions_accepted-same fs) refl

  validate_keys-same : (docs : List Fields) → validate_keys q docs ≡ validate_keys r docs
  unfolding validate_keys
  validate_keys-same [] = refl
  validate_keys-same (doc ∷ docs) = rw (all_accepted-same (keys doc), validate_keys-same docs) refl

  validate_filter-same : (f : Option Fields) → validate_filter q f ≡ validate_filter r f
  validate_filter-same none = refl
  validate_filter-same (some fs) = conditions_accepted-same fs

  validate_projection-same : (p : Option Fields) → validate_projection q p ≡ validate_projection r p
  validate_projection-same none = refl
  validate_projection-same (some fs) = all_accepted-same (keys fs)

  validate_set-same : (v : Value) → validate_set q v ≡ validate_set r v
  validate_set-same (obj fs) = all_accepted-same (keys fs)
  validate_set-same null = refl
  validate_set-same (bool b) = refl
  validate_set-same (natural n) = refl
  validate_set-same (negative n) = refl
  validate_set-same (str s) = refl
  validate_set-same (scalar t b) = refl
  validate_set-same (arr vs) = refl

  validate_update-same : (u : Option Fields) → validate_update q u ≡ validate_update r u
  validate_update-same none = refl
  validate_update-same (some u) = validate_set-same (set_doc u (get "$set" u))

  validate_schema-same : (o : Option Value) → validate_schema q o ≡ validate_schema r o
  validate_schema-same none = refl
  validate_schema-same (some (str s)) = same s
  validate_schema-same (some null) = refl
  validate_schema-same (some (bool b)) = refl
  validate_schema-same (some (natural n)) = refl
  validate_schema-same (some (negative n)) = refl
  validate_schema-same (some (scalar t b)) = refl
  validate_schema-same (some (arr vs)) = refl
  validate_schema-same (some (obj fs)) = refl

  validate_request-same : (req : SqlRequest) → validate_request q req ≡ validate_request r req
  unfolding validate_request
  validate_request-same req =
      rw
        (
          same req.resource,
          validate_schema-same (get "schema" req.options),
          validate_filter-same req.filter,
          validate_projection-same req.projection,
          validate_keys-same req.documents,
          validate_update-same req.update,
        )
        refl

accepts-same : (name : String) → accepts Postgres.quote_ident name ≡ accepts Mysql.quote_ident name
unfolding Postgres.quote_ident Mysql.quote_ident
accepts-same name = ground arith

is_operand_mono :
    (v : Value) → is_operand Mysql.dialect v ≡ true → is_operand Postgres.dialect v ≡ true
is_operand_mono (arr vs) h = ground arith
is_operand_mono null h = cc
is_operand_mono (bool b) h = cc
is_operand_mono (natural n) h = cc
is_operand_mono (negative n) h = cc
is_operand_mono (str s) h = cc
is_operand_mono (scalar t b) h = cc
is_operand_mono (obj fs) h = cc

operands_mono :
    (fs : Fields) → operands Mysql.dialect fs ≡ true → operands Postgres.dialect fs ≡ true
unfolding operands
operands_mono end h = refl
operands_mono (field op v fs) h = ground (arith, is_operand_mono v, operands_mono fs)

column_operands_mono :
    (v : Value) → column_operands Mysql.dialect v ≡ true → column_operands Postgres.dialect v ≡ true
column_operands_mono (obj cond) h = operands_mono cond h
column_operands_mono null h = refl
column_operands_mono (bool b) h = refl
column_operands_mono (natural n) h = refl
column_operands_mono (negative n) h = refl
column_operands_mono (str s) h = refl
column_operands_mono (scalar t b) h = refl
column_operands_mono (arr vs) h = refl

all_operands_mono :
    (fs : Fields) → all_operands Mysql.dialect fs ≡ true → all_operands Postgres.dialect fs ≡ true
unfolding all_operands
all_operands_mono end h = refl
all_operands_mono (field col v fs) h = ground (arith, column_operands_mono v, all_operands_mono fs)

filter_operands_mono :
    (f : Option Fields)
    → filter_operands Mysql.dialect f ≡ true
    → filter_operands Postgres.dialect f ≡ true
filter_operands_mono none h = refl
filter_operands_mono (some fs) h = all_operands_mono fs h

-- The two dialects validate the same requests, and PostgreSQL translates each read that MySQL
-- translates.  The resource is named.
pub validate_request-dialects :
    (req : SqlRequest) (explain : Bool)
    → (req.resource === "") ≡ false
    → (validate_request Postgres.quote_ident req ≡ validate_request Mysql.quote_ident req)
      × ((is_some (translate_read Mysql.dialect req explain [])
            && is_some (translate_read Postgres.dialect req explain []))
          ≡ is_some (translate_read Mysql.dialect req explain []))
validate_request-dialects req explain named = (
  validate_request-same Postgres.quote_ident Mysql.quote_ident accepts-same req,
  let bare : SqlRequest = record req { documents = []; update = none; options = end } in
      let valid = validate_request-same Postgres.quote_ident Mysql.quote_ident accepts-same bare in
      ground (
        arith,
        filter_operands_mono req.filter,
        translate_read-validate_request Postgres.dialect req explain named,
        translate_read-validate_request Mysql.dialect req explain named,
      ),
)
