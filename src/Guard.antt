-- ===== src/Guard.antt =====
-- plugins/mongodb/guard.py: the checks on filters and pipelines. A `ToolError` is a value; sets are
-- lists that are read by membership only.
pub mod Keys
pub mod Dangerous
pub mod Operators
pub mod Nested
pub mod References
use guardmcp.Prelude.{
  ℕ, suc, String, Bool, true, false, Option, none, some, List, [], ◌∷◌, ◌++◌, ◌&&◌, ◌||◌, not, elem,
  any, is_empty, ◌===◌, starts_with_char, lstrip, before, if◌then◌else◌,
}
use guardmcp.Json.{Value, str, arr, obj, Items, nil, cons, Fields, end, field, keys}

abbrev pub banned_operators : List String
banned_operators = "$where" ∷ "$function" ∷ "$accumulator" ∷ "$out" ∷ "$merge" ∷ []

abbrev pub banned_pipeline_stages : List String
banned_pipeline_stages = "$out" ∷ "$merge" ∷ "$function" ∷ "$accumulator" ∷ []

abbrev pub is_banned : String → Bool
is_banned k = elem k banned_operators

unfoldable mutual
  pub has_dangerous_operators : Value → Bool
  has_dangerous_operators (obj fs) = any is_banned (keys fs) || any_value_dangerous fs
  has_dangerous_operators (arr xs) = any_item_dangerous xs
  has_dangerous_operators _ = false

  pub any_value_dangerous : Fields → Bool
  any_value_dangerous end = false
  any_value_dangerous (field k v fs) = has_dangerous_operators v || any_value_dangerous fs

  pub any_item_dangerous : Items → Bool
  any_item_dangerous nil = false
  any_item_dangerous (cons x xs) = has_dangerous_operators x || any_item_dangerous xs

-- `k in _FOREIGN_COLLECTION_KEYS`
abbrev pub foreign_collection_keys : List String
foreign_collection_keys = "from" ∷ "coll" ∷ []

-- The keys whose text value names a collection.
abbrev pub names_collection : String → Bool
names_collection k = k === "$unionWith" || elem k foreign_collection_keys

-- `v` where it is a text, under such a key
abbrev pub found_name : String → Value → List String → List String
found_name k (str s) walked = if names_collection k then s ∷ [] else walked
found_name k v walked = walked

-- The names in the order in which the source adds them to its set.
unfoldable mutual
  pub extract_pipeline_collections : Value → List String
  extract_pipeline_collections (obj fs) = collections_of_fields fs
  extract_pipeline_collections (arr xs) = collections_of_items xs
  extract_pipeline_collections _ = []

  pub collections_of_fields : Fields → List String
  collections_of_fields end = []
  collections_of_fields (field k v fs) =
      found_name k v (extract_pipeline_collections v) ++ collections_of_fields fs

  pub collections_of_items : Items → List String
  collections_of_items nil = []
  collections_of_items (cons x xs) = extract_pipeline_collections x ++ collections_of_items xs

-- The first name of a field path, without its dollars.
unfoldable pub head_field : String → String
head_field s = before b'.' (lstrip b'$' s)

-- `_check_str`
unfoldable pub check_str : List String → String → List String
check_str masked s =
    if not (starts_with_char b'$' s)
    then []
    else if elem (head_field s) masked
    then head_field s ∷ []
    else []

module _ (masked : List String) where
  unfoldable mutual
    pub hits : Value → List String
    hits (str s) = check_str masked s
    hits (obj fs) = hits_of_fields fs
    hits (arr xs) = hits_of_items xs
    hits _ = []

    pub hits_of_fields : Fields → List String
    hits_of_fields end = []
    hits_of_fields (field k v fs) = hits v ++ hits_of_fields fs

    pub hits_of_items : Items → List String
    hits_of_items nil = []
    hits_of_items (cons x xs) = hits x ++ hits_of_items xs

unfoldable pub find_masked_field_references : Value → List String → List String
unfolding hits
find_masked_field_references pipeline mask_fields =
    if is_empty mask_fields then [] else hits mask_fields pipeline

pub data ToolError : Type 0 where
  not_an_object disallowed_operator empty_or_bad_first_stage : ToolError
  not_single_key : (stage : ℕ) → ToolError
  stage_not_permitted stage_not_listed stage_operator not_db_level : (op : String) → ToolError

-- `none` where the source returns, `some e` where it raises.
abbrev pub Check : Type 0
Check = Option ToolError

unfoldable pub validate_filter : Value → Check
validate_filter (obj fs) =
    if has_dangerous_operators (obj fs) then some ToolError.disallowed_operator else none
validate_filter _ = some ToolError.not_an_object

abbrev pub allowed_stages : List String
allowed_stages =
    "$match" ∷ "$group" ∷ "$project" ∷ "$sort" ∷ "$limit" ∷ "$skip" ∷ "$unwind" ∷ "$lookup"
    ∷ "$count" ∷ "$facet" ∷ "$bucket" ∷ "$bucketAuto" ∷ "$sortByCount" ∷ "$addFields"
    ∷ "$replaceRoot" ∷ "$replaceWith" ∷ "$sample" ∷ "$geoNear" ∷ "$graphLookup" ∷ "$unionWith" ∷ []

-- The body of the loop for one stage with a single key.
unfoldable pub check_stage : String → Value → Check
check_stage op body =
    if elem op banned_pipeline_stages
    then some (ToolError.stage_not_permitted op)
    else if not (elem op allowed_stages)
    then some (ToolError.stage_not_listed op)
    else if has_dangerous_operators body
    then some (ToolError.stage_operator op)
    else none

-- `raise` ends the loop.
abbrev pub first_error : Check → Check → Check
first_error (some e) rest = some e
first_error none rest = rest

-- The loop, from the stage of this number on.
unfoldable pub check_stages : ℕ → Items → Check
check_stages i nil = none
check_stages i (cons (obj (field op body end)) rest) =
    first_error (check_stage op body) (check_stages (suc i) rest)
check_stages i (cons _ rest) = some (ToolError.not_single_key i)

unfoldable pub validate_pipeline_stages : Items → Check
validate_pipeline_stages pipeline = check_stages 0 pipeline

abbrev pub db_aggregate_stage_operators : List String
db_aggregate_stage_operators =
    "$changeStream" ∷ "$currentOp" ∷ "$documents" ∷ "$listLocalSessions" ∷ "$queryStats" ∷ []

unfoldable pub check_db_stage : String → Value → Check
check_db_stage op body =
    if is_banned op
    then some (ToolError.stage_not_permitted op)
    else if has_dangerous_operators body
    then some (ToolError.stage_operator op)
    else none

unfoldable pub check_db_stages : ℕ → Items → Check
check_db_stages i nil = none
check_db_stages i (cons (obj (field op body end)) rest) =
    first_error (check_db_stage op body) (check_db_stages (suc i) rest)
check_db_stages i (cons _ rest) = some (ToolError.not_single_key i)

unfoldable pub validate_db_pipeline_stages : Items → Check
validate_db_pipeline_stages (cons (obj (field op body end)) rest) =
    if not (elem op db_aggregate_stage_operators)
    then some (ToolError.not_db_level op)
    else check_db_stages 0 (cons (obj (field op body end)) rest)
validate_db_pipeline_stages _ = some ToolError.empty_or_bad_first_stage
