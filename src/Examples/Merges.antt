-- ===== src/Examples/Merges.antt =====
-- A policy that extends another.
use guardmcp.Prelude.{◌≡◌, refl, some, [], ◌∷◌, elem}
use guardmcp.Policy.{Policy, buckets, mask_fields_for, scope_for, database_permitted}
use guardmcp.Policy.Loader.{built, merge}
use guardmcp.Examples.{analyst}

-- It masks by collection, and lists one database.
abbrev clerk : Policy
clerk = record analyst {
  agent = "clerk";
  extends = some "analyst";
  databases_allow = "shop" ∷ [];
  mask_fields = buckets (("*", "ssn" ∷ []) ∷ ("users", "phone" ∷ []) ∷ []);
}

merged : merge analyst clerk ≡ some (built analyst clerk)
unfolding merge guardmcp.Policy.no_overlap guardmcp.Policy.seen_add_all elem
merged = refl
