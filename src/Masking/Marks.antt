-- ===== src/Masking/Marks.antt =====
-- Where the mark of a masked value stands (core/masking/masker.py).
use mathlib.Core.List.{append_assoc}
use guardmcp.Prelude.{
  ℕ, ◌+◌, String, ◌≡◌, ◌⊎◌, refl, sym, inl, inr, Bool, true, false, List, [], ◌∷◌, ◌++◌, not, elem,
  is_empty, ltb, if◌then◌else◌, Bool-cases, or-right,
}
use guardmcp.Json.{Value, str, arr, obj, Items, nil, cons, Fields, end, field}
use guardmcp.Masking.{
  Rules, mask_value, hides, elem_path, bounded, depth_redaction, max_depth, has_rules, mask,
}
use guardmcp.Masking.Walk.{walk, walk_value, walk_items, drops_none, mask-of_rules}
use guardmcp.Masking.Occurrence.{rest, AtEntry, AtRest, At, Below, Among}

-- What the walk itself writes.
abbrev pub IsMark : Value → Type 0
IsMark v = (v ≡ mask_value) ⊎ (v ≡ str "depth-limit-exceeded")

module _ (v : Value) where
  redaction-IsMark : (path : List String) → At v path depth_redaction → IsMark v
  unfolding At
  redaction-IsMark [] o = elim o [ inl a ↦ absurd a | inr b ↦ absurd b ]
  redaction-IsMark (k ∷ []) o = elim o [ inl a ↦ inr (sym a.1) | inr b ↦ absurd b ]
  redaction-IsMark (k ∷ l ∷ ks) o = elim o [ inl a ↦ absurd a.1 | inr b ↦ absurd b ]

  bounded-IsMark :
      (path : List String) (depth : ℕ) (fs : Fields)
      → (At v path fs → IsMark v)
      → At v path (bounded depth fs)
      → IsMark v
  bounded-IsMark path depth fs h o = elim (Bool-cases (ltb max_depth depth)) [
    | inl deep ↦ redaction-IsMark path (rw deep at o)
    | inr shallow ↦ h (rw shallow at o)
  ]

has_rules-path :
    (r : Rules) (path : List String) → elem_path path r.paths ≡ true → has_rules r ≡ true
unfolding elem_path
has_rules-path r path h = or-right _ _ (not_empty r.paths h)
  where
    not_empty : (ps : List (List String)) → elem_path path ps ≡ true → not (is_empty ps) ≡ true
    not_empty [] e = cc
    not_empty (p ∷ ps) e = refl

module _ (r : Rules) (drops : ℕ → String → Bool) (v : Value) where
  -- One entry on the way down a hidden path.
  entry-IsMark :
      (hidden : Bool) (k : String) (ks : List String) (j : String) (w : Value)
      → (ks ≡ [] → j ≡ k → hidden ≡ true)
      → (j ≡ k → AtRest (k ∷ ks) ⊥ (Below v (k ∷ ks) w) → IsMark v)
      → AtEntry (k ∷ ks) j (Below v (k ∷ ks) (if hidden then mask_value else w))
      → IsMark v
  unfolding At
  entry-IsMark true k [] j w hit below o = inl (sym o.1)
  entry-IsMark false k [] j w hit below o = cc (hit refl o.0)
  entry-IsMark true k (l ∷ ks) j w hit below o = absurd o.1
  entry-IsMark false k (l ∷ ks) j w hit below o = below o.0 o.1

  abbrev Hidden : List String → List String → Type 0
  Hidden pre path = elem_path (pre ++ path) r.paths ≡ true

  Hidden-step :
      (pre : List String) (k : String) (ks : List String) (j : String)
      → Hidden pre (k ∷ ks)
      → j ≡ k
      → Hidden (pre ++ j ∷ []) ks
  Hidden-step pre k ks j h e = rw (e, append_assoc) h

  head-IsMark :
      (depth : ℕ) (pre path : List String) (j : String) (w : Value)
      → Hidden pre path
      → (Hidden (pre ++ j ∷ []) (rest path)
          → AtRest
              (j ∷ rest path)
              ⊥
              (Below v (j ∷ rest path) (walk_value r drops depth (pre ++ j ∷ []) w))
          → IsMark v)
      → AtEntry path j (
          Below v path (
            if hides r j (pre ++ j ∷ [])
            then mask_value
            else walk_value r drops depth (pre ++ j ∷ []) w))
      → IsMark v
  head-IsMark depth pre [] j w h below o = absurd o
  head-IsMark depth pre (k ∷ ks) j w h below o =
      entry-IsMark (hides r j (pre ++ j ∷ [])) k ks j (walk_value r drops depth (pre ++ j ∷ []) w)
        (λ e d. or-right (elem j r.bare) (elem_path (pre ++ j ∷ []) r.paths) (rw (d, ← e) h))
        (λ e p. below (Hidden-step pre k ks j h e) (rw (← e) at p)) o

  mutual
    unfolding walk At

    walk-IsMark :
        (depth : ℕ) (pre path : List String) (fs : Fields)
        → Hidden pre path
        → At v path (walk r drops depth pre fs)
        → IsMark v
    walk-IsMark depth pre path end h o = absurd o
    walk-IsMark depth pre path (field j w fs) h o = elim (Bool-cases (drops depth j)) [
      | inl gone ↦ walk-IsMark depth pre path fs h (rw gone at o)
      | inr kept ↦ elim (rw kept at o) [
        | inl here ↦
            head-IsMark depth pre path j w h
              (walk_value-IsMark depth (pre ++ j ∷ []) j (rest path) w) here
        | inr later ↦ walk-IsMark depth pre path fs h later
      ]
    ]

    walk_value-IsMark :
        (depth : ℕ) (pre : List String) (k : String) (path : List String) (w : Value)
        → Hidden pre path
        → AtRest (k ∷ path) ⊥ (Below v (k ∷ path) (walk_value r drops depth pre w))
        → IsMark v
    walk_value-IsMark depth pre k [] w h o = absurd o
    walk_value-IsMark depth pre k (l ∷ ks) (obj fs) h o =
        bounded-IsMark v (l ∷ ks) (depth + 1) _ (walk-IsMark (depth + 1) pre (l ∷ ks) fs h) o
    walk_value-IsMark depth pre k (l ∷ ks) (arr xs) h o =
        walk_items-IsMark depth pre (l ∷ ks) xs h o
    walk_value-IsMark depth pre k (l ∷ ks) _ h o = absurd o

    walk_items-IsMark :
        (depth : ℕ) (pre path : List String) (xs : Items)
        → Hidden pre path
        → Among v path (walk_items r drops depth pre xs)
        → IsMark v
    walk_items-IsMark depth pre path nil h o = absurd o
    walk_items-IsMark depth pre path (cons (obj fs) xs) h o = elim o [
      | inl here ↦ bounded-IsMark v path (depth + 1) _ (walk-IsMark (depth + 1) pre path fs h) here
      | inr later ↦ walk_items-IsMark depth pre path xs h later
    ]
    walk_items-IsMark depth pre path (cons _ xs) h o = walk_items-IsMark depth pre path xs h o

-- What stands in the masked document at a path that is a masked entry is the mask, or the mark that
-- a subtree was too deep.
pub mask-IsMark :
    (r : Rules) (doc : Fields) (path : List String) (v : Value)
    → elem_path path r.paths ≡ true
    → At v path (mask r 0 [] doc)
    → IsMark v
mask-IsMark r doc path v h o =
    bounded-IsMark v path 0 _ (walk-IsMark r drops_none v 0 [] path doc h)
      (rw (mask-of_rules r (has_rules-path r path h) 0 [] doc) at o)
