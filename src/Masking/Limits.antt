-- ===== src/Masking/Limits.antt =====
-- What the allow-list lets through, and what the masker does not reach.
use guardmcp.Prelude.{
  String, ◌≡◌, ◌⊎◌, subst, inl, inr, true, false, List, [], ◌∷◌, arith, Member, elem-Member,
  is_empty, Bool-cases, eq_iff,
}
use guardmcp.Json.{arr, Items, nil, cons, Fields, end, field, keys}
use guardmcp.Masking.{Rules, hides, drops_unlisted, has_rules, mask, transform_doc}
use guardmcp.Masking.Walk.{walk, transform_doc-walk}
use guardmcp.Masking.Fused.{is_listed, drops_unlisted-zero}

listed-Member :
    (allow : List String) (k : String)
    → is_empty allow ≡ false
    → is_listed allow k ≡ true
    → Member k allow ⊎ (k ≡ "_id")
listed-Member allow k h l = ground (arith, elem-Member k allow, eq_iff k "_id")

keys-walk :
    (r : Rules) (allow : List String) (path : List String) (doc : Fields) (k : String)
    → is_empty allow ≡ false
    → Member k (keys (walk r (drops_unlisted allow) 0 path doc))
    → Member k allow ⊎ (k ≡ "_id")
unfolding walk
keys-walk r allow path end k h m = absurd m
keys-walk r allow path (field j v fs) k h m = elim (Bool-cases (is_listed allow j)) [
  | inl e ↦ elim (rw (drops_unlisted-zero, e) at m) [
    | inl here ↦ subst (λ n. Member n allow ⊎ (n ≡ "_id")) here (listed-Member allow j h e)
    | inr later ↦ keys-walk r allow path fs k h later
  ]
  | inr e ↦ keys-walk r allow path fs k h (rw (drops_unlisted-zero, e) at m)
]

-- With a non-empty allow-list, every key of a transformed document is on the list or is `_id`.
pub keys-transform_doc :
    (r : Rules) (allow : List String) (doc : Fields) (k : String)
    → is_empty allow ≡ false
    → Member k (keys (transform_doc r allow 0 [] doc))
    → Member k allow ⊎ (k ≡ "_id")
keys-transform_doc r allow doc k h m =
    keys-walk r allow [] doc k h (rw (transform_doc-walk r allow 0 [] doc) at m)

-- A list that stands in a list is returned as it is, whatever names are masked and whatever the
-- objects in it hold.
pub mask-nested_list :
    (r : Rules) (k : String) (xs : Items)
    → hides r k (k ∷ []) ≡ false
    → mask r 0 [] (field k (arr (cons (arr xs) nil)) end) ≡ field k (arr (cons (arr xs) nil)) end
unfolding mask
mask-nested_list r k xs h = elim (Bool-cases (has_rules r)) [ inl e ↦ rw (e, h) | inr e ↦ rw e ]
