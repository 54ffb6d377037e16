-- ===== src/Masking/Occurrence.antt =====
-- Where a value stands in a document: under a key at any depth, or at a path from the root. Both go
-- through objects and through lists of objects, and not into a list that stands in a list.
use guardmcp.Prelude.{String, ◌≡◌, ◌⊎◌, List, [], ◌∷◌}
use guardmcp.Json.{Value, arr, obj, Items, nil, cons, Fields, end, field}

-- `k` has the value `v` somewhere.
module _ (k : String) (v : Value) where
  unfoldable mutual
    pub Occurs : Fields → Type 0
    Occurs end = ⊥
    Occurs (field j w fs) = ((j ≡ k) × (w ≡ v)) ⊎ OccursIn w ⊎ Occurs fs

    pub OccursIn : Value → Type 0
    OccursIn (obj fs) = Occurs fs
    OccursIn (arr xs) = OccursAmong xs
    OccursIn w = ⊥

    pub OccursAmong : Items → Type 0
    OccursAmong nil = ⊥
    OccursAmong (cons (obj fs) xs) = Occurs fs ⊎ OccursAmong xs
    OccursAmong (cons x xs) = OccursAmong xs

-- The path without its first name.
abbrev pub rest : List String → List String
rest [] = []
rest (k ∷ ks) = ks

abbrev pub AtEntry : List String → String → Type 0 → Type 0
AtEntry [] j P = ⊥
AtEntry (k ∷ ks) j P = (j ≡ k) × P

-- `P` if the path ends with its first name, else `Q`.
abbrev pub AtRest : List String → Type 0 → Type 0 → Type 0
AtRest (k ∷ []) P Q = P
AtRest (k ∷ l ∷ ks) P Q = Q
AtRest [] P Q = ⊥

-- `v` stands at the path. The first name of a path is a key of the document.
module _ (v : Value) where
  unfoldable mutual
    pub At : List String → Fields → Type 0
    At path end = ⊥
    At path (field j w fs) = AtEntry path j (Below path w) ⊎ At path fs

    -- `v` is the value `w` that the path's first name leads to, or stands in it at the rest.
    pub Below : List String → Value → Type 0
    Below path (obj fs) = AtRest path (obj fs ≡ v) (At (rest path) fs)
    Below path (arr xs) = AtRest path (arr xs ≡ v) (Among (rest path) xs)
    Below path w = AtRest path (w ≡ v) ⊥

    pub Among : List String → Items → Type 0
    Among path nil = ⊥
    Among path (cons (obj fs) xs) = At path fs ⊎ Among path xs
    Among path (cons x xs) = Among path xs
