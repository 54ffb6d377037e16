-- ===== src/Policy.antt =====
-- core/policy/models.py: a policy, its per-database scopes and what they resolve to.
pub mod Scope
pub mod Engine
pub mod Loader
pub mod Explain
use guardmcp.Prelude.{
  ℕ, String, Bool, true, false, Option, none, some, List, [], ◌∷◌, ◌++◌, ◌||◌, not, elem, is_empty,
  is_some, ◌===◌, if◌then◌else◌,
}
use guardmcp.Dict.{lookup}
use guardmcp.Cost.{CostLevel}

pub record CollectionPolicy : Type 0 where
  pub allow : List String
  pub deny : List String

pub record ActionPolicy : Type 0 where
  pub allow : List String
  pub deny : List String

pub record ApprovalPolicy : Type 0 where
  pub high : Bool
  pub critical : Bool

-- A flat list, or a dictionary from collections to fields with "*" as the global bucket.
pub data MaskFields : Type 0 where
  flat : List String → MaskFields
  buckets : List (String × List String) → MaskFields

pub record DatabaseScope : Type 0 where
  pub collections : CollectionPolicy
  pub mask_fields : MaskFields
  pub fields_allow : List String

-- An instant, as a `datetime` with a timezone or without one.
pub data DateTime : Type 0 where
  aware naive : ℕ → DateTime

-- The validator of `mode` admits these two.
pub data Mode : Type 0 where
  readonly readwrite : Mode

-- The caches of the transformers are left out: a cached transformer is the one that is built.
pub record Policy : Type 0 where
  pub api_version : String
  pub agent : String
  pub extends : Option String
  pub not_before : Option DateTime
  pub not_after : Option DateTime
  pub mode : Mode
  pub collections : CollectionPolicy
  pub databases_allow : List String
  pub databases : List (String × DatabaseScope)
  pub default_database_scope : Option DatabaseScope
  pub actions : ActionPolicy
  pub mask_fields : MaskFields
  pub fields_allow : List String
  pub connections_allow : List String
  pub approval : ApprovalPolicy
  pub max_cost : Option CostLevel

-- A dictionary with `None` values serves as an ordered set: `seen[f] = None`.
unfoldable pub seen_add : List String → String → List String
seen_add seen f = if elem f seen then seen else seen ++ f ∷ []

unfoldable pub seen_add_all : List String → List String → List String
unfolding seen_add
seen_add_all seen [] = seen
seen_add_all seen (f ∷ fs) = seen_add_all (seen_add seen f) fs

none_in : List String → List String → Bool
none_in deny [] = true
none_in deny (x ∷ xs) = if elem x deny then false else none_in deny xs

-- `CollectionPolicy.no_overlap`: whether the validator accepts.
unfoldable pub no_overlap : CollectionPolicy → Bool
unfolding none_in
no_overlap c = none_in c.deny c.allow

abbrev pub has_db_config : Policy → Bool
has_db_config p = not (is_empty p.databases) || is_some p.default_database_scope

unfoldable pub database_permitted : Policy → Option String → Bool
database_permitted p none = true
database_permitted p (some database) =
    if is_empty p.databases_allow then true else elem database p.databases_allow

-- `block.mask_fields if block.mask_fields else …`
abbrev pub has_mask_fields : MaskFields → Bool
has_mask_fields (flat fields) = not (is_empty fields)
has_mask_fields (buckets entries) = not (is_empty entries)

-- `ResolvedScope` has the fields of `DatabaseScope`.
abbrev pub flat_scope : Policy → DatabaseScope
flat_scope p = record {
  collections = p.collections;
  mask_fields = p.mask_fields;
  fields_allow = p.fields_allow;
}

-- The settings of a block where it has any, else those of the policy.
abbrev pub overlay : Policy → DatabaseScope → DatabaseScope
overlay p block = record {
  collections =
      if not (is_empty block.collections.allow) || not (is_empty block.collections.deny)
      then block.collections
      else p.collections;
  mask_fields = if has_mask_fields block.mask_fields then block.mask_fields else p.mask_fields;
  fields_allow = if not (is_empty block.fields_allow) then block.fields_allow else p.fields_allow;
}

-- `self.databases.get(database) or self.default_database_scope`
abbrev pub block_for : Policy → String → Option DatabaseScope
block_for p database = elim (lookup database p.databases) [
  | some block ↦ some block
  | none ↦ p.default_database_scope
]

unfoldable pub scope_for : Policy → Option String → DatabaseScope
scope_for p none = flat_scope p
scope_for p (some database) =
    if has_db_config p
    then elim (block_for p database) [ none ↦ flat_scope p | some block ↦ overlay p block ]
    else flat_scope p

abbrev pub fields_or_empty : Option (List String) → List String
fields_or_empty none = []
fields_or_empty (some fields) = fields

-- `mf.get(key, [])`
abbrev pub bucket : String → List (String × List String) → List String
bucket key entries = fields_or_empty (lookup key entries)

abbrev pub effective : String → MaskFields → List String
effective collection (flat fields) = fields
effective collection (buckets entries) =
    seen_add_all (seen_add_all [] (bucket "*" entries)) (bucket collection entries)

unfoldable pub mask_fields_for : Policy → String → Option String → List String
mask_fields_for p collection database = effective collection (scope_for p database).mask_fields
