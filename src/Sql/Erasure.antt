-- ===== src/Sql/Erasure.antt =====
-- A request without its values (plugins/sql/translate_base.py).
use guardmcp.Prelude.{ℕ, Option, none, some, List, [], ◌∷◌}
use guardmcp.Json.{Value, null, arr, obj, Items, nil, cons, Fields, end, field}
use guardmcp.Sql.{SqlRequest}

abbrev pub nulls : Items → Items
nulls nil = nil
nulls (cons x xs) = cons null (nulls xs)

-- A list keeps its length.
abbrev pub erase_operand : Value → Value
erase_operand (arr xs) = arr (nulls xs)
erase_operand _ = null

abbrev pub erase_operands : Fields → Fields
erase_operands end = end
erase_operands (field op val fs) = field op (erase_operand val) (erase_operands fs)

abbrev pub erase_condition : Value → Value
erase_condition (obj cond) = obj (erase_operands cond)
erase_condition _ = null

abbrev pub erase_filter : Fields → Fields
erase_filter end = end
erase_filter (field col cond fs) = field col (erase_condition cond) (erase_filter fs)

abbrev pub erase_doc : Fields → Fields
erase_doc end = end
erase_doc (field col v fs) = field col null (erase_doc fs)

abbrev pub erase_set : Value → Value
erase_set (obj fs) = obj (erase_doc fs)
erase_set _ = null

abbrev pub erase_update : Fields → Fields
erase_update end = end
erase_update (field k v fs) = field k (erase_set v) (erase_update fs)

abbrev pub mapped : (Fields → Fields) → Option Fields → Option Fields
mapped f none = none
mapped f (some fs) = some (f fs)

abbrev pub zeroed : Option ℕ → Option ℕ
zeroed none = none
zeroed (some n) = some 0

abbrev pub erase_docs : List Fields → List Fields
erase_docs [] = []
erase_docs (doc ∷ docs) = erase_doc doc ∷ erase_docs docs

-- The request without its values: its names and operators, and the lengths of its lists, are left.
abbrev pub erase : SqlRequest → SqlRequest
erase req = record {
  capability = req.capability;
  resource = req.resource;
  filter = mapped erase_filter req.filter;
  projection = req.projection;
  documents = erase_docs req.documents;
  update = mapped erase_update req.update;
  limit = zeroed req.limit;
  skip = zeroed req.skip;
  options = req.options;
}
