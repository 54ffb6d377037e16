-- ===== src/Policy/Loader.antt =====
-- core/policy/loader.py: the merge of a policy with the base that it extends.
pub mod Merged
pub mod Chains
pub mod Load
use guardmcp.Prelude.{
  String, Bool, true, false, Option, none, some, List, [], ◌∷◌, ◌++◌, ◌||◌, is_some, is_empty,
  if◌then◌else◌,
}
use guardmcp.Dict.{Dict, lookup, insert}
use guardmcp.Policy.{
  CollectionPolicy, ActionPolicy, ApprovalPolicy, MaskFields, flat, buckets, DateTime, Mode, Policy,
  seen_add_all, no_overlap, bucket,
}

-- `_union`
abbrev pub union : List String → List String → List String
union a b = seen_add_all (seen_add_all [] a) b

-- `{"*": fields} if fields else {}`, for a flat list
abbrev pub as_buckets : MaskFields → Dict (List String)
as_buckets (flat []) = []
as_buckets (flat (f ∷ fs)) = ("*", f ∷ fs) ∷ []
as_buckets (buckets entries) = entries

-- `out[k] = _union(out.get(k, []), v)`, for each entry
unfoldable pub merge_buckets : Dict (List String) → Dict (List String) → Dict (List String)
merge_buckets out [] = out
merge_buckets out ((k, v) ∷ rest) = merge_buckets (insert k (union (bucket k out) v) out) rest

-- `_merge_mask_fields`
unfoldable pub merge_mask_fields : (base child : MaskFields) → MaskFields
merge_mask_fields (flat base) (flat child) = flat (union base child)
merge_mask_fields base child = buckets (merge_buckets (as_buckets base) (as_buckets child))

-- `x if x is not None else y`
abbrev pub or_base : Option DateTime → Option DateTime → Option DateTime
or_base none base = base
or_base (some t) base = some t

abbrev pub merged_mode : (child base : Mode) → Mode
merged_mode Mode.readwrite base = Mode.readwrite
merged_mode Mode.readonly base = base

abbrev pub merged_collections : (base child : CollectionPolicy) → CollectionPolicy
merged_collections base child = record {
  allow = union base.allow child.allow;
  deny = union base.deny child.deny;
}

-- The policy that is built; what it does not pass has its default.
abbrev pub built : (base child : Policy) → Policy
built base child = record {
  api_version = child.api_version;
  agent = child.agent;
  extends = none;
  not_before = or_base child.not_before base.not_before;
  not_after = or_base child.not_after base.not_after;
  mode = merged_mode child.mode base.mode;
  collections = merged_collections base.collections child.collections;
  databases_allow = [];
  databases = [];
  default_database_scope = none;
  actions = record {
    allow = union base.actions.allow child.actions.allow;
    deny = union base.actions.deny child.actions.deny;
  };
  mask_fields = merge_mask_fields base.mask_fields child.mask_fields;
  fields_allow = union base.fields_allow child.fields_allow;
  connections_allow = union base.connections_allow child.connections_allow;
  approval = record {
    high = child.approval.high || base.approval.high;
    critical = child.approval.critical || base.approval.critical;
  };
  max_cost = none;
}

-- `_merge`; `none` where the validator of the merged collections raises.
unfoldable pub merge : (base child : Policy) → Option Policy
merge base child =
    if no_overlap (merged_collections base.collections child.collections)
    then some (built base child)
    else none
