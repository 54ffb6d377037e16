-- ===== src/Planning/Ambiguity.antt =====
-- core/planning/ambiguity.py: what an intent may mean in terms of the fields of a schema.
use Prim.Native.Nat.{compare, Ordering}
use Prim.Native.String
use guardmcp.Prelude.{
  ℕ, String, Bool, true, false, List, [], ◌∷◌, ◌++◌, ◌&&◌, not, any, elem, leb, length, ◌===◌,
  if◌then◌else◌, ◌≡◌, refl,
}
use guardmcp.Json.{Value, str, bool}
use guardmcp.Planning.{Interpretation, AmbiguityReport}
use guardmcp.Planning.Intent.{lower, runs, is_letter}

-- A field, and the value that it is compared with for equality.
abbrev Template : Type 0
Template = String × Value

-- `_CONCEPTS`; the operator is always "=".
abbrev pub concepts : List (String × List Template)
concepts =
    (
      "active",
      ("status", str "ACTIVE")
          ∷ ("state", str "ACTIVE")
          ∷ ("is_active", bool true)
          ∷ ("active", bool true)
          ∷ ("enabled", bool true)
          ∷ ("account_enabled", bool true)
          ∷ [],
    )
    ∷ (
      "inactive",
      ("status", str "INACTIVE")
          ∷ ("is_active", bool false)
          ∷ ("enabled", bool false)
          ∷ ("account_enabled", bool false)
          ∷ [],
    )
    ∷ (
      "enabled",
      ("enabled", bool true) ∷ ("account_enabled", bool true) ∷ ("is_active", bool true) ∷ [],
    )
    ∷ ("disabled", ("enabled", bool false) ∷ ("account_enabled", bool false) ∷ [])
    ∷ []

-- `str(value)`, for the values of the table
abbrev pub shown : Value → String
shown (str s) = s
shown (bool true) = "True"
shown (bool false) = "False"
shown _ = ""

-- `(field, op, str(value)) in seen`
abbrev pub is_seen : String → Value → List (String × String) → Bool
is_seen name value seen = any (λ k. k.0 === name && k.1 === shown value) seen

abbrev pub interpretation :
    (concept : String) → (indexed : List String) → String → Value → Interpretation
interpretation concept indexed name value = record {
  name = name;
  operator = "=";
  value = value;
  confidence = if elem name indexed then 60 else 50;
  concept = concept;
}

abbrev pub Survivors : Type 0
Survivors = List (String × String) × List Interpretation

-- The templates of a concept, one after the other.
unfoldable pub keep_templates :
    (concept : String) → (fields indexed : List String) → List Template → Survivors → Survivors
keep_templates concept fields indexed [] kept = kept
keep_templates concept fields indexed ((name, value) ∷ rest) (seen, survivors) =
    keep_templates concept fields indexed rest (
      if elem name fields && not (is_seen name value seen)
      then ((name, shown value) ∷ seen, survivors ++ interpretation concept indexed name value ∷ [])
      else (seen, survivors))

unfoldable pub keep_concepts :
    (tokens fields indexed : List String) → List (String × List Template) → Survivors → Survivors
unfolding keep_templates
keep_concepts tokens fields indexed [] kept = kept
keep_concepts tokens fields indexed ((concept, templates) ∷ rest) kept =
    keep_concepts tokens fields indexed rest
      (if elem concept tokens then keep_templates concept fields indexed templates kept else kept)

-- `(-i.confidence, i.field)`, and whether the first of two may stay before the second.
abbrev pub in_order : Ordering → (a b : String) → Bool
in_order Ordering.gt a b = true
in_order Ordering.lt a b = false
in_order Ordering.eq a b = elim (String.compare a b) [ Ordering.gt ↦ false | _ ↦ true ]

unfoldable pub insert_interpretation : Interpretation → List Interpretation → List Interpretation
insert_interpretation x [] = x ∷ []
insert_interpretation x (y ∷ ys) =
    let rest = insert_interpretation x ys in
    if in_order (compare x.confidence y.confidence) x.name y.name then x ∷ y ∷ ys else y ∷ rest

-- `survivors.sort(key=…)`, which is stable
unfoldable pub sort_interpretations : List Interpretation → List Interpretation
unfolding insert_interpretation
sort_interpretations [] = []
sort_interpretations (x ∷ xs) = insert_interpretation x (sort_interpretations xs)

abbrev pub top_confidence : List Interpretation → ℕ
top_confidence [] = 100
top_confidence (i ∷ _) = i.confidence

-- `AmbiguityDetector.detect`
unfoldable pub detect : (intent : String) → (schema_fields indexed : List String) → AmbiguityReport
unfolding keep_concepts sort_interpretations lower runs is_letter elem
detect intent schema_fields indexed =
    let kept =
      keep_concepts (runs is_letter (lower intent)) schema_fields indexed concepts ([], []) in
    let survivors = sort_interpretations kept.1 in
    let ambiguous = leb 2 (length survivors) in
    record {
      ambiguous = ambiguous;
      confidence = if ambiguous then top_confidence survivors else 100;
      interpretations = survivors;
    }

ambiguous_test :
    (detect "active customers" ("status" ∷ "enabled" ∷ []) ("enabled" ∷ [])).confidence ≡ 60
unfolding detect
ambiguous_test = refl
