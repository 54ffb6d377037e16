-- ===== src/Policy/Explain.antt =====
-- core/policy/explain.py: the difference of two policies in words, and the rating of its impact.
pub mod Sets
pub mod Differences
pub mod Rating
use Prim.Native.String.{◌++◌ as append}
use Prim.Native.String
use Prim.Native.Nat.{compare, Ordering}
use guardmcp.Prelude.{
  ℕ, String, Bool, true, false, Option, none, some, List, [], ◌∷◌, ◌++◌, ◌&&◌, ◌||◌, not, elem,
  is_empty, map, filterb, any, ◌===◌, starts_with, has_text, if◌then◌else◌,
}
use guardmcp.Dict.{Dict, lookup, insert}
use guardmcp.Policy.{Policy, MaskFields, flat, buckets, Mode, DateTime, aware, naive, bucket}

-- A set of texts as its sorted list: `sorted(set(…))`
abbrev pub place : Ordering → String → String → List String → (rest : List String) → List String
place Ordering.lt x y ys rest = x ∷ y ∷ ys
place Ordering.eq x y ys rest = y ∷ ys
place Ordering.gt x y ys rest = y ∷ rest

unfoldable pub insert_text : String → List String → List String
insert_text x [] = x ∷ []
insert_text x (y ∷ ys) = let rest = insert_text x ys in place (String.compare x y) x y ys rest

unfoldable pub sorted_set : List String → List String
unfolding insert_text
sorted_set [] = []
sorted_set (x ∷ xs) = insert_text x (sorted_set xs)

-- `_sorted(set(a) - set(b))`
unfoldable pub minus : List String → List String → List String
minus a b = sorted_set (filterb (λ x. not (elem x b)) a)

-- `f"{before}{item}{after}"` for each item
abbrev pub lines : (before after : String) → List String → List String
lines before after items = map (λ item. append before (append item after)) items

-- What a list of a policy gains, then what it loses.
abbrev pub diff_list : (label : String) → (current proposed : List String) → List String
diff_list label current proposed =
    lines "Added " (append " to " label) (minus proposed current)
    ++ lines "Removed " (append " from " label) (minus current proposed)

unfoldable pub diff_mode : (current proposed : Mode) → List String
diff_mode Mode.readonly Mode.readwrite = "Removed readonly mode (now readwrite)" ∷ []
diff_mode Mode.readwrite Mode.readonly = "Added readonly mode (now readonly)" ∷ []
diff_mode _ _ = []

-- `_effective_mask_map`
abbrev pub effective_mask_map : MaskFields → Dict (List String)
effective_mask_map (flat []) = []
effective_mask_map (flat (f ∷ fs)) = ("*", f ∷ fs) ∷ []
effective_mask_map (buckets entries) = entries

abbrev pub mask_columns : Dict (List String) → List String
mask_columns [] = []
mask_columns ((c, _) ∷ rest) = c ∷ mask_columns rest

abbrev pub suffix : String → String
suffix c = if c === "*" then "" else append " (collection '" (append c "')")

abbrev pub diff_bucket : (column : String) → (current proposed : Dict (List String)) → List String
diff_bucket c current proposed =
    lines "Now masks: " (suffix c) (minus (bucket c proposed) (bucket c current))
    ++ lines "No longer masks: " (suffix c) (minus (bucket c current) (bucket c proposed))

unfoldable pub diff_buckets :
    (mask_columns : List String) → (current proposed : Dict (List String)) → List String
diff_buckets [] current proposed = []
diff_buckets (c ∷ cs) current proposed =
    diff_bucket c current proposed ++ diff_buckets cs current proposed

unfoldable pub diff_masks : (current proposed : Dict (List String)) → List String
unfolding diff_buckets
diff_masks current proposed =
    diff_buckets (sorted_set (mask_columns current ++ mask_columns proposed)) current proposed

unfoldable pub diff_toggle : (risk : String) → (current proposed : Bool) → List String
diff_toggle risk true false = append "Disabled approval for " (append risk " risk") ∷ []
diff_toggle risk false true = append "Enabled approval for " (append risk " risk") ∷ []
diff_toggle risk _ _ = []

abbrev pub eqb : ℕ → ℕ → Bool
eqb a b = elim (compare a b) [ Ordering.eq ↦ true | _ ↦ false ]

abbrev pub same_instant : DateTime → DateTime → Bool
same_instant (aware a) (aware b) = eqb a b
same_instant (naive a) (naive b) = eqb a b
same_instant _ _ = false

abbrev pub same {ℓ} : {A : Type ℓ} → (A → A → Bool) → Option A → Option A → Bool
same eq none none = true
same eq (some a) (some b) = eq a b
same eq _ _ = false

abbrev pub diff_value {ℓ} :
    {A : Type ℓ}
    → (A → A → Bool)
    → (show : Option A → String) → (label : String) → (current proposed : Option A) → List String
diff_value eq show label current proposed =
    if same eq current proposed
    then []
    else append "Changed " (append label (append " -> " (show proposed))) ∷ []

abbrev pub show_text : Option String → String
show_text none = "None"
show_text (some t) = t

-- `diff_policies`, with the printed form of an optional instant.
unfoldable pub diff_policies :
    (show_time : Option DateTime → String) (current proposed : Policy) → List String
diff_policies show_time current proposed =
    diff_mode current.mode proposed.mode
    ++ (diff_list "collections.allow" current.collections.allow proposed.collections.allow
        ++ (diff_list "collections.deny" current.collections.deny proposed.collections.deny
            ++ (diff_list "actions.allow" current.actions.allow proposed.actions.allow
                ++ (diff_list "actions.deny" current.actions.deny proposed.actions.deny
                    ++ (diff_list "connections_allow" current.connections_allow
                          proposed.connections_allow
                        ++ (diff_list "fields_allow" current.fields_allow proposed.fields_allow
                            ++ (diff_masks (effective_mask_map current.mask_fields)
                                  (effective_mask_map proposed.mask_fields)
                                ++ (diff_toggle "HIGH" current.approval.high proposed.approval.high
                                    ++ (diff_toggle "CRITICAL" current.approval.critical
                                          proposed.approval.critical
                                        ++ (diff_value same_instant show_time "not_before"
                                              current.not_before proposed.not_before
                                            ++ (diff_value same_instant show_time "not_after"
                                                  current.not_after proposed.not_after
                                                ++ diff_value (λ a b. a === b) show_text "extends"
                                                    current.extends proposed.extends)))))))))))

pub data Security : Type 0 where
  low medium high : Security

pub record SimulationImpact : Type 0 where
  pub security : Security
  pub behavior_change : Bool

-- `_WIDENING_PREFIXES`, `_NARROWING_PREFIXES`
abbrev pub widening_prefixes : List String
widening_prefixes =
    "Removed readonly mode" ∷ "Added " ∷ "No longer masks" ∷ "Disabled approval" ∷ []

abbrev pub narrowing_prefixes : List String
narrowing_prefixes = "Added readonly mode" ∷ "Removed " ∷ "Now masks" ∷ "Enabled approval" ∷ []

pub data Effect : Type 0 where
  widens narrows neither : Effect

-- What the loop of `classify_impact` takes a line for.
unfoldable pub effect_of : (line : String) → Effect
effect_of line =
    if starts_with "Added " line
      && (has_text " to actions.deny" line || has_text " to collections.deny" line)
    then narrows
    else if starts_with "Removed " line
        && (has_text " from actions.deny" line || has_text " from collections.deny" line)
    then widens
    else if any (λ p. starts_with p line) widening_prefixes
    then widens
    else if any (λ p. starts_with p line) narrowing_prefixes
    then narrows
    else neither

abbrev pub is_widens : Effect → Bool
is_widens widens = true
is_widens _ = false

abbrev pub is_narrows : Effect → Bool
is_narrows narrows = true
is_narrows _ = false

abbrev pub rating : (widens narrows : Bool) → Security
rating true true = Security.medium
rating true false = Security.high
rating false _ = Security.low

unfoldable pub classify_impact :
    (changed_rules : List String) → (behavior_change : Bool) → SimulationImpact
classify_impact changed_rules behavior_change = record {
  security =
      rating (any (λ line. is_widens (effect_of line)) changed_rules)
        (any (λ line. is_narrows (effect_of line)) changed_rules);
  behavior_change = behavior_change;
}
