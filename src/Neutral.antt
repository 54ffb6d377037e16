-- ===== src/Neutral.antt =====
-- core/neutral.py: the backend-neutral view of a result.
use guardmcp.Prelude.{String, Option, none, some}
use guardmcp.Json.{Value, null, bool, natural, negative, arr, obj, nil, Fields, get}
use guardmcp.Domain.{
  Action, find, aggregate, count, insert_one, insert_many, update_one, update_many, delete_one,
  delete_many,
}

-- `none` where the source has `None`; `rows` is then left out of the dictionary.
pub record Neutral : Type 0 where
  pub rows : Option Value
  pub affected : Option Value
  pub scalar : Option Value

abbrev nothing : Neutral
nothing = record { rows = none; affected = none; scalar = none }

-- `d.get(key, default)`, and `d.get(key)`
abbrev pub or_default : Option Value → Value → Value
or_default none d = d
or_default (some v) d = v

-- `None` in a dictionary is `None`.
abbrev pub present : Value → Option Value
present null = none
present v = some v

abbrev pub get_present : String → Fields → Option Value
get_present key fs = present (or_default (get key fs) null)

abbrev affect : Option Value → Neutral
affect a = record { rows = none; affected = a; scalar = none }

-- `data.get(a, data.get(b))`
abbrev get_either : String → String → Fields → Option Value
get_either a b fs = present (or_default (get a fs) (or_default (get b fs) null))

of_find : Value → Neutral
of_find (obj fs) = record {
  rows = present (or_default (get "documents" fs) (or_default (get "rows" fs) (arr nil)));
  affected = none;
  scalar = get_present "count" fs;
}
of_find (arr xs) = record { rows = some (arr xs); affected = none; scalar = none }
of_find _ = record { rows = some (arr nil); affected = none; scalar = none }

of_aggregate : Value → Neutral
of_aggregate (arr xs) = record { rows = some (arr xs); affected = none; scalar = none }
of_aggregate (obj fs) = record {
  rows = present (or_default (get "rows" fs) (arr nil));
  affected = none;
  scalar = none;
}
of_aggregate _ = record { rows = some (arr nil); affected = none; scalar = none }

-- A Boolean is an `int` too.
scalar_of : Value → Option Value
scalar_of (natural n) = some (natural n)
scalar_of (negative n) = some (negative n)
scalar_of (bool b) = some (bool b)
scalar_of (obj fs) = get_present "scalar" fs
scalar_of _ = none

of_insert_one : Value → Neutral
of_insert_one (obj fs) = affect (present (or_default (get "affected" fs) (natural 1)))
of_insert_one _ = affect (some (natural 1))

of_write : String → Value → Neutral
of_write key (obj fs) = affect (get_either "affected" key fs)
of_write key _ = nothing

unfoldable pub neutralize : Action → Value → Neutral
unfolding of_find of_aggregate scalar_of of_insert_one of_write
neutralize find data_ = of_find data_
neutralize aggregate data_ = of_aggregate data_
neutralize count data_ = record { rows = some (arr nil); affected = none; scalar = scalar_of data_ }
neutralize insert_one data_ = of_insert_one data_
neutralize insert_many data_ = of_write "inserted_count" data_
neutralize update_one data_ = of_write "modified" data_
neutralize update_many data_ = of_write "modified" data_
neutralize delete_one data_ = of_write "deleted" data_
neutralize delete_many data_ = of_write "deleted" data_
neutralize _ data_ = nothing
