-- ===== src/Guard/Keys.antt =====
-- Where a key, a text or a named collection stands in a value, at any depth.
use guardmcp.Prelude.{String, ◌≡◌, ◌⊎◌}
use guardmcp.Json.{Value, str, arr, obj, Items, nil, cons, Fields, end, field}

module _ (k : String) where
  unfoldable mutual
    pub HasKey : Value → Type 0
    HasKey (obj fs) = FieldsHaveKey fs
    HasKey (arr xs) = ItemsHaveKey xs
    HasKey _ = ⊥

    pub FieldsHaveKey : Fields → Type 0
    FieldsHaveKey end = ⊥
    FieldsHaveKey (field j v fs) = (j ≡ k) ⊎ HasKey v ⊎ FieldsHaveKey fs

    pub ItemsHaveKey : Items → Type 0
    ItemsHaveKey nil = ⊥
    ItemsHaveKey (cons x xs) = HasKey x ⊎ ItemsHaveKey xs

-- A text that stands as a value, not as a key.
module _ (s : String) where
  unfoldable mutual
    pub HasText : Value → Type 0
    HasText (str t) = t ≡ s
    HasText (obj fs) = FieldsHaveText fs
    HasText (arr xs) = ItemsHaveText xs
    HasText _ = ⊥

    pub FieldsHaveText : Fields → Type 0
    FieldsHaveText end = ⊥
    FieldsHaveText (field j v fs) = HasText v ⊎ FieldsHaveText fs

    pub ItemsHaveText : Items → Type 0
    ItemsHaveText nil = ⊥
    ItemsHaveText (cons x xs) = HasText x ⊎ ItemsHaveText xs

-- The collection `c` is the text under `$unionWith`, `from` or `coll`, at any depth.
abbrev pub NamesCollection : String → Type 0
NamesCollection k = (k ≡ "$unionWith") ⊎ (k ≡ "from") ⊎ (k ≡ "coll")

module _ (c : String) where
  unfoldable mutual
    pub RefersTo : Value → Type 0
    RefersTo (obj fs) = FieldsReferTo fs
    RefersTo (arr xs) = ItemsReferTo xs
    RefersTo _ = ⊥

    pub FieldsReferTo : Fields → Type 0
    FieldsReferTo end = ⊥
    FieldsReferTo (field k v fs) = (NamesCollection k × (v ≡ str c)) ⊎ RefersTo v ⊎ FieldsReferTo fs

    pub ItemsReferTo : Items → Type 0
    ItemsReferTo nil = ⊥
    ItemsReferTo (cons x xs) = RefersTo x ⊎ ItemsReferTo xs
