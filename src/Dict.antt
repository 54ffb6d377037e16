-- ===== src/Dict.antt =====
-- Python dictionaries with text keys, as association lists in insertion order, and their laws.
use guardmcp.Prelude.{
  String, ◌≡◌, refl, ◌∙◌, inl, inr, false, Option, none, some, List, [], ◌∷◌, arith, ◌===◌, eq_iff,
  eq_self, Bool-cases, if◌then◌else◌,
}

abbrev pub Dict {ℓ} : Type ℓ → Type ℓ
Dict V = List (String × V)

eq_swap : (s t : String) → (s === t) ≡ false → (t === s) ≡ false
eq_swap s t h = ground (arith, eq_iff s t, eq_iff t s)

module _ {ℓ} {V : Type ℓ} where
  -- `d.get(key)`
  unfoldable pub lookup : String → Dict V → Option V
  lookup key [] = none
  lookup key ((k, v) ∷ rest) = if k === key then some v else lookup key rest

  -- `d[key] = value`: a new key goes last.
  unfoldable pub insert : String → V → Dict V → Dict V
  insert key value [] = (key, value) ∷ []
  insert key value ((k, v) ∷ rest) =
      let tail = insert key value rest in if k === key then (k, value) ∷ rest else (k, v) ∷ tail

  -- `d.pop(key, None)`; no key stands twice, and if one did, each would go.
  unfoldable pub remove : String → Dict V → Dict V
  remove key [] = []
  remove key ((k, v) ∷ rest) =
      let tail = remove key rest in if k === key then tail else (k, v) ∷ tail

  -- A change of the object that the dictionary holds at a key, if it holds one.
  unfoldable pub modify : String → (V → V) → Dict V → Dict V
  modify key f [] = []
  modify key f ((k, v) ∷ rest) =
      let tail = modify key f rest in if k === key then (k, f v) ∷ rest else (k, v) ∷ tail

  abbrev pub modified : (V → V) → Option V → Option V
  modified f none = none
  modified f (some v) = some (f v)

  pub lookup-modify :
      (j k : String) (f : V → V) (d : Dict V)
      → lookup j (modify k f d) ≡ (if k === j then modified f (lookup j d) else lookup j d)
  unfolding lookup modify
  lookup-modify j k f [] = ground arith
  lookup-modify j k f ((i, w) ∷ d) =
      ground (arith, eq_iff k j, eq_iff i k, eq_iff i j, lookup-modify j k f d)

  pub lookup-insert :
      (j k : String) (v : V) (d : Dict V)
      → lookup j (insert k v d) ≡ (if k === j then some v else lookup j d)
  unfolding lookup insert
  lookup-insert j k v [] = refl
  lookup-insert j k v ((i, w) ∷ d) =
      ground (arith, eq_iff k j, eq_iff i k, eq_iff i j, lookup-insert j k v d)

  pub lookup-remove :
      (j k : String) (d : Dict V) → lookup j (remove k d) ≡ (if k === j then none else lookup j d)
  unfolding lookup remove
  lookup-remove j k [] = ground arith
  lookup-remove j k ((i, w) ∷ d) =
      ground (arith, eq_iff k j, eq_iff i k, eq_iff i j, lookup-remove j k d)

  pub lookup-insert_self : (k : String) (v : V) (d : Dict V) → lookup k (insert k v d) ≡ some v
  lookup-insert_self k v d = rw (lookup-insert, eq_self)

  pub lookup-remove_self : (k : String) (d : Dict V) → lookup k (remove k d) ≡ none
  lookup-remove_self k d = rw (lookup-remove, eq_self)

-- No key stands twice, as in every dictionary of the source.
module _ {V : Type 0} where
  abbrev pub Distinct : Dict V → Type 0
  Distinct [] = Unit
  Distinct ((k, v) ∷ rest) = (lookup k rest ≡ none) × Distinct rest

  ne_insert :
      (k : String) (v : V) (i : String) (d : Dict V)
      → (i === k) ≡ false
      → lookup i d ≡ none
      → lookup i (insert k v d) ≡ none
  ne_insert k v i d other new = lookup-insert i k v d ∙ (rw (eq_swap i k other) new)

  ne_modify :
      (k : String) (f : V → V) (i : String) (d : Dict V)
      → (i === k) ≡ false
      → lookup i d ≡ none
      → lookup i (modify k f d) ≡ none
  ne_modify k f i d other new = lookup-modify i k f d ∙ (rw (eq_swap i k other) new)

  ne_remove :
      (k : String) (i : String) (d : Dict V)
      → (i === k) ≡ false
      → lookup i d ≡ none
      → lookup i (remove k d) ≡ none
  ne_remove k i d other new = lookup-remove i k d ∙ (rw (eq_swap i k other) new)

  pub insert-Distinct : (k : String) (v : V) (d : Dict V) → Distinct d → Distinct (insert k v d)
  unfolding insert
  insert-Distinct k v [] h = (unfold lookup in refl, tt)
  insert-Distinct k v ((i, w) ∷ d) (new, h) = elim (Bool-cases (i === k)) [
    | inl same ↦ rw same (new, h)
    | inr other ↦ rw other (ne_insert k v i d other new, insert-Distinct k v d h)
  ]

  pub modify-Distinct : (k : String) (f : V → V) (d : Dict V) → Distinct d → Distinct (modify k f d)
  unfolding modify
  modify-Distinct k f [] h = tt
  modify-Distinct k f ((i, w) ∷ d) (new, h) = elim (Bool-cases (i === k)) [
    | inl same ↦ rw same (new, h)
    | inr other ↦ rw other (ne_modify k f i d other new, modify-Distinct k f d h)
  ]

  pub remove-Distinct : (k : String) (d : Dict V) → Distinct d → Distinct (remove k d)
  unfolding remove
  remove-Distinct k [] h = tt
  remove-Distinct k ((i, w) ∷ d) (new, h) = elim (Bool-cases (i === k)) [
    | inl same ↦ rw same (remove-Distinct k d h)
    | inr other ↦ rw other (ne_remove k i d other new, remove-Distinct k d h)
  ]
