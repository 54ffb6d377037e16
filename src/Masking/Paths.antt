-- ===== src/Masking/Paths.antt =====
-- Dotted mask entries: a path from the root hides what stands at it, and nothing else is touched.
use guardmcp.Prelude.{
  ℕ, suc, ◌+◌, ◌≤◌, String, ◌≡◌, sym, subst, inl, inr, Bool, true, false, List, [], ◌∷◌, ◌++◌,
  arith, ltb, length, if◌then◌else◌, Bool-cases,
}
use guardmcp.Json.{Value, arr, obj, Items, nil, cons, Fields, end, field}
use guardmcp.Masking.{Rules, mask_value, hides, bounded, max_depth, has_rules, mask}
use guardmcp.Masking.Walk.{walk, walk_value, walk_items, drops_none, mask-of_rules, mask-no_rules}
use guardmcp.Masking.Occurrence.{AtEntry, At, Below, Among}

-- A value that is neither an object nor a list.
abbrev pub IsLeaf : Value → Type 0
IsLeaf (obj fs) = ⊥
IsLeaf (arr xs) = ⊥
IsLeaf v = Unit

-- No entry hides a key on the way down the path.
abbrev pub IsVisible : Rules → List String → List String → Type 0
IsVisible r pre [] = Unit
IsVisible r pre (k ∷ ks) = (hides r k (pre ++ k ∷ []) ≡ false) × IsVisible r (pre ++ k ∷ []) ks

-- A path of this length below this depth meets no redacted subtree.
abbrev Fits : ℕ → List String → Type 0
Fits depth path = depth + length path ≤ suc max_depth

not_deep : (depth : ℕ) → depth ≤ max_depth → ltb max_depth depth ≡ false
not_deep depth h = ground arith

module _ (r : Rules) (v : Value) (leaf : IsLeaf v) where
  bounded-At :
      (path : List String) (depth : ℕ) (fs : Fields)
      → depth ≤ max_depth
      → At v path fs
      → At v path (bounded depth fs)
  bounded-At path depth fs h o = rw (not_deep depth h) o

  -- One entry on the way down a visible path.
  entry-At :
      (hidden : Bool) (k : String) (ks : List String) (j : String) (w w' : Value)
      → (j ≡ k → hidden ≡ false)
      → (Below v (k ∷ ks) w → Below v (k ∷ ks) w')
      → AtEntry (k ∷ ks) j (Below v (k ∷ ks) w)
      → AtEntry (k ∷ ks) j (Below v (k ∷ ks) (if hidden then mask_value else w'))
  entry-At true k ks j w w' plain below o = cc (plain o.0)
  entry-At false k ks j w w' plain below o = (o.0, below o.1)

  mutual
    unfolding walk At

    walk-At :
        (depth : ℕ) (pre : List String) (k : String) (ks : List String) (fs : Fields)
        → Fits depth (k ∷ ks)
        → IsVisible r pre (k ∷ ks)
        → At v (k ∷ ks) fs
        → At v (k ∷ ks) (walk r drops_none depth pre fs)
    walk-At depth pre k ks end f h o = absurd o
    walk-At depth pre k ks (field j w fs) f h o = elim o [
      | inl here ↦ inl (
          entry-At (hides r j (pre ++ j ∷ [])) k ks j w _ (λ e. rw e h.0)
            (λ p. walk_value-At depth (pre ++ j ∷ []) k ks w f (rw here.0 h.1) p) here)
      | inr later ↦ inr (walk-At depth pre k ks fs f h later)
    ]

    walk_value-At :
        (depth : ℕ) (cur : List String) (k : String) (ks : List String) (w : Value)
        → Fits depth (k ∷ ks)
        → IsVisible r cur ks
        → Below v (k ∷ ks) w
        → Below v (k ∷ ks) (walk_value r drops_none depth cur w)
    walk_value-At depth cur k [] (obj fs) f h o = absurd (subst IsLeaf (sym o) leaf)
    walk_value-At depth cur k [] (arr xs) f h o = absurd (subst IsLeaf (sym o) leaf)
    walk_value-At depth cur k (l ∷ ls) (obj fs) f h o =
        bounded-At (l ∷ ls) (depth + 1) _ (omega arith)
          (walk-At (depth + 1) cur l ls fs (omega arith) h o)
    walk_value-At depth cur k (l ∷ ls) (arr xs) f h o =
        walk_items-At depth cur l ls xs (omega arith) h o
    walk_value-At depth cur k ks _ f h o = o

    walk_items-At :
        (depth : ℕ) (cur : List String) (l : String) (ls : List String) (xs : Items)
        → Fits (depth + 1) (l ∷ ls)
        → IsVisible r cur (l ∷ ls)
        → Among v (l ∷ ls) xs
        → Among v (l ∷ ls) (walk_items r drops_none depth cur xs)
    walk_items-At depth cur l ls nil f h o = absurd o
    walk_items-At depth cur l ls (cons (obj fs) xs) f h o = elim o [
      | inl here ↦ inl (
          bounded-At (l ∷ ls) (depth + 1) _ (omega arith)
            (walk-At (depth + 1) cur l ls fs f h here))
      | inr later ↦ inr (walk_items-At depth cur l ls xs f h later)
    ]
    walk_items-At depth cur l ls (cons _ xs) f h o = walk_items-At depth cur l ls xs f h o

-- A leaf at a path of at most 26 names, none of whose keys an entry hides on the way, stands at the
-- same path in the masked document: nothing but the entries is masked.
pub mask-At :
    (r : Rules) (doc : Fields) (k : String) (ks : List String) (v : Value)
    → IsLeaf v
    → length ks ≤ max_depth
    → IsVisible r [] (k ∷ ks)
    → At v (k ∷ ks) doc
    → At v (k ∷ ks) (mask r 0 [] doc)
mask-At r doc k ks v leaf short h o = elim (Bool-cases (has_rules r)) [
  | inl some_rules ↦ rw (mask-of_rules r some_rules 0 [] doc) (
      bounded-At r v leaf (k ∷ ks) 0 _ (omega arith)
        (walk-At r v leaf 0 [] k ks doc (omega arith) h o))
  | inr none_at_all ↦ rw (mask-no_rules r 0 [] doc none_at_all) o
]
