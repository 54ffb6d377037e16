-- ===== src/Sql/Identifier.antt =====
-- plugins/sql/translate_base.py: the identifiers that may stand in the text of a statement.
use Prim.Native.Char.{Char, code}
use guardmcp.Prelude.{
  ◌≤◌, ◌⊎◌, ℕ, String, Bool, true, false, ◌&&◌, ◌||◌, ◌≡◌, refl, Option, none, some, List, [], ◌∷◌,
  ◌===◌, leb, is_char, has_char, split, push_front, All, arith, Bool-cases, inl, inr, subst,
  if◌then◌else◌,
}

-- `[A-Za-z_]`
abbrev pub is_start : ℕ → Bool
is_start n = (leb b'A' n && leb n b'Z') || (leb b'a' n && leb n b'z') || (leb b'_' n && leb n b'_')

-- `[A-Za-z0-9_]`
abbrev pub is_continue : ℕ → Bool
is_continue n = is_start n || (leb b'0' n && leb n b'9')

-- `$` stands at the end, and before a newline at the end.
abbrev pub at_end : String → Bool
at_end String.[] = true
at_end (String.◌∷◌ c String.[]) = is_char b'\n' c
at_end (String.◌∷◌ c (String.◌∷◌ e s)) = false

-- `[A-Za-z0-9_]*$`
unfoldable pub matches_rest : String → Bool
matches_rest String.[] = true
matches_rest (String.◌∷◌ c s) =
    if is_continue (code c) then matches_rest s else at_end (String.◌∷◌ c s)

-- `_IDENT_RE.match`
abbrev pub matches_ident : String → Bool
matches_ident String.[] = false
matches_ident (String.◌∷◌ c s) = is_start (code c) && matches_rest s

-- One part, or two: `schema.table`.
abbrev pub valid_parts : List String → Bool
valid_parts (part ∷ []) = matches_ident part
valid_parts (schema ∷ table ∷ []) = matches_ident schema && matches_ident table
valid_parts _ = false

-- `validate_ident`: the parts of a name, and `none` for a `GuardValidationError`.
unfoldable pub validate_ident : (name : String) → Option (List String)
validate_ident name =
    let parts = split b'.' name in
    if name === "" then none else if valid_parts parts then some parts else none

-- The characters of a name, a dot, and the newline that `$` lets through.
abbrev pub is_plain : ℕ → Bool
is_plain n = is_continue n || (leb b'.' n && leb n b'.') || (leb b'\n' n && leb n b'\n')

module _ (n : ℕ) (odd : is_plain n ≡ false) where
  abbrev Lacks : String → Type 0
  Lacks s = has_char n s ≡ false

  matches_rest-Lacks : (s : String) → matches_rest s ≡ true → Lacks s
  unfolding matches_rest has_char
  matches_rest-Lacks String.[] h = refl
  matches_rest-Lacks (String.◌∷◌ c String.[]) h = ground arith
  matches_rest-Lacks (String.◌∷◌ c (String.◌∷◌ e s)) h =
      ground (arith, matches_rest-Lacks (String.◌∷◌ e s))

  matches_ident-Lacks : (s : String) → matches_ident s ≡ true → Lacks s
  unfolding has_char
  matches_ident-Lacks String.[] h = refl
  matches_ident-Lacks (String.◌∷◌ c s) h = ground (arith, matches_rest-Lacks s)

  valid_parts-Lacks : (ps : List String) → valid_parts ps ≡ true → All Lacks ps
  valid_parts-Lacks [] h = tt
  valid_parts-Lacks (p ∷ []) h = (matches_ident-Lacks p h, tt)
  valid_parts-Lacks (p ∷ q ∷ []) h =
      (matches_ident-Lacks p (ground arith), (matches_ident-Lacks q (ground arith), tt))
  valid_parts-Lacks (p ∷ q ∷ r ∷ ps) h = cc

  push_front-Lacks :
      (c : Char) (ps : List String)
      → All Lacks (push_front c ps)
      → Lacks (String.◌∷◌ c "") × All Lacks ps
  unfolding has_char
  push_front-Lacks c [] (h, t) = (h, tt)
  push_front-Lacks c (p ∷ ps) (h, t) = (ground arith, (ground arith, t))

  split-Lacks : (s : String) → All Lacks (split b'.' s) → Lacks s
  unfolding split has_char
  split-Lacks String.[] h = refl
  split-Lacks (String.◌∷◌ c s) h = elim (Bool-cases (is_char b'.' c)) [
    | inl dot ↦
        (let rest : All Lacks (split b'.' s) =
            (subst (λ b. All Lacks (if b then "" ∷ split b'.' s else push_front c (split b'.' s)))
              dot h).1 in
          let ih = split-Lacks s rest in ground arith)
    | inr other ↦
        (let both = push_front-Lacks c (split b'.' s) (
            subst (λ b. All Lacks (if b then "" ∷ split b'.' s else push_front c (split b'.' s)))
              other h) in
          let ih = split-Lacks s both.1 in let first = both.0 in ground arith)
  ]

  validate_ident-Lacks :
      (name : String) (parts : List String) → validate_ident name ≡ some parts → Lacks name
  unfolding validate_ident
  validate_ident-Lacks name parts h = elim (Bool-cases (valid_parts (split b'.' name))) [
    | inl valid ↦ split-Lacks name (valid_parts-Lacks (split b'.' name) valid)
    | inr bad ↦ ground arith
  ]

-- A to Z, a to z, 0 to 9, underscore, dot and newline, by their codes.
abbrev pub IsSafe : ℕ → Type 0
IsSafe n =
    ((65 ≤ n) × (n ≤ 90))
    ⊎ ((97 ≤ n) × (n ≤ 122))
    ⊎ ((48 ≤ n) × (n ≤ 57))
    ⊎ (n ≡ 95)
    ⊎ (n ≡ 46)
    ⊎ (n ≡ 10)

is_plain-IsSafe : (n : ℕ) → is_plain n ≡ true → IsSafe n
is_plain-IsSafe n h = ground arith

-- Each character of a name that is accepted is a letter from A to Z or a to z, a digit, an underscore,
-- a dot or a newline.
pub validate_ident-IsSafe :
    (name : String) (parts : List String) (n : ℕ)
    → validate_ident name ≡ some parts
    → has_char n name ≡ true
    → IsSafe n
validate_ident-IsSafe name parts n h there = elim (Bool-cases (is_plain n)) [
  | inl plain ↦ is_plain-IsSafe n plain
  | inr odd ↦ let lacks = validate_ident-Lacks n odd name parts h in cc
]
