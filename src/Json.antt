-- ===== src/Json.antt =====
-- The JSON-shaped values that requests carry and backends return (Python's `Any`).
use guardmcp.Prelude.{
  ℕ, zero, String, Bool, true, false, Option, none, some, List, [], ◌∷◌, ◌===◌, if◌then◌else◌,
}

-- `negative n` is -(n + 1).  A scalar of any other type (float, datetime, ObjectId) is a leaf with
-- its printed form and its truth value.
mutual
  pub data Value : Type 0 where
    null : Value
    bool : Bool → Value
    natural : ℕ → Value
    negative : ℕ → Value
    str : String → Value
    scalar : (repr : String) (truthy : Bool) → Value
    arr : (elements : Items) → Value
    obj : (entries : Fields) → Value

  pub data Items : Type 0 where
    nil : Items
    cons : Value → Items → Items

  -- The keys of a dictionary in insertion order.
  pub data Fields : Type 0 where
    end : Fields
    field : String → Value → Fields → Fields

-- `dict.get(key)`
unfoldable pub get : String → Fields → Option Value
get key end = none
get key (field k v fs) = if k === key then some v else get key fs

abbrev pub keys : Fields → List String
keys end = []
keys (field k v fs) = k ∷ keys fs

abbrev pub items : Items → List Value
items nil = []
items (cons v vs) = v ∷ items vs

-- `bool(value)`
unfoldable pub is_truthy : Value → Bool
is_truthy null = false
is_truthy (bool b) = b
is_truthy (natural zero) = false
is_truthy (natural _) = true
is_truthy (negative n) = true
is_truthy (str s) = if s === "" then false else true
is_truthy (scalar repr truthy) = truthy
is_truthy (arr nil) = false
is_truthy (arr _) = true
is_truthy (obj end) = false
is_truthy (obj _) = true

-- `bool(dict.get(key))`
abbrev pub truthy_option : Option Value → Bool
truthy_option none = false
truthy_option (some v) = is_truthy v

-- `{**fields, key: value}`
unfoldable pub put : String → Value → Fields → Fields
put key value end = field key value end
put key value (field k v fs) =
    let tail = put key value fs in if k === key then field k value fs else field k v tail

abbrev pub of_texts : List String → Items
of_texts [] = nil
of_texts (s ∷ ss) = cons (str s) (of_texts ss)
