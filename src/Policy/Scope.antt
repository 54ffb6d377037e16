-- ===== src/Policy/Scope.antt =====
-- What a policy resolves to for a collection of a database.
use guardmcp.Prelude.{
  String, ◌≡◌, ◌↔◌, ◌⊎◌, true, Option, none, some, List, [], ◌∷◌, ◌||◌, arith, elem, elem-append,
  eq_iff, elem-Member, Member-elem, Member,
}
use guardmcp.Policy.{
  Policy, buckets, seen_add, seen_add_all, bucket, database_permitted, has_mask_fields, scope_for,
  mask_fields_for, block_for,
}

elem-seen_add :
    (k : String) (seen : List String) (f : String)
    → elem k (seen_add seen f) ≡ elem k seen || elem k (f ∷ [])
unfolding seen_add elem
elem-seen_add k seen f = ground (arith, elem-append k seen (f ∷ []), eq_iff f k)

pub elem-seen_add_all :
    (k : String) (seen fs : List String) → elem k (seen_add_all seen fs) ≡ elem k seen || elem k fs
unfolding seen_add_all elem
elem-seen_add_all k seen [] = ground arith
elem-seen_add_all k seen (f ∷ fs) =
    ground (arith, elem-seen_add_all k (seen_add seen f) fs, elem-seen_add k seen f)

-- With buckets, the mask fields of a collection are those of the global bucket and those of its own
-- bucket, and no others; with a flat list they are that list for every collection.
pub mask_fields_for-elem :
    (p : Policy) (c k : String) (db : Option String) (es : List (String × List String))
    → (scope_for p db).mask_fields ≡ buckets es
    → elem k (mask_fields_for p c db) ≡ elem k (bucket "*" es) || elem k (bucket c es)
unfolding mask_fields_for elem
mask_fields_for-elem p c k db es e = rw (e, elem-seen_add_all, elem-seen_add_all)

-- A database for which there is no block, neither a named one nor a default, has the flat scope.
pub scope_for-no_block :
    (p : Policy) (db : String) → block_for p db ≡ none → scope_for p (some db) ≡ scope_for p none
unfolding scope_for
scope_for-no_block p db h = ground arith

-- A database is permitted exactly when the allow-list is empty or names it.
pub database_permitted_iff :
    (p : Policy) (db : String)
    → (database_permitted p (some db) ≡ true)
      ↔ ((p.databases_allow ≡ []) ⊎ Member db p.databases_allow)
unfolding database_permitted
database_permitted_iff p db =
    ground (arith, elem-Member db p.databases_allow, Member-elem db p.databases_allow)

-- A policy that masks fields masks some in every database: no scope empties the setting.
pub scope_for-has_mask_fields :
    (p : Policy) (db : Option String)
    → has_mask_fields p.mask_fields ≡ true
    → has_mask_fields (scope_for p db).mask_fields ≡ true
unfolding scope_for
scope_for-has_mask_fields p none h = h
scope_for-has_mask_fields p (some db) h = ground arith
