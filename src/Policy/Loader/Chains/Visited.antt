-- ===== src/Policy/Loader/Chains/Visited.antt =====
-- What a chain of policies merges to, and what a visit keeps true of the dictionary (core/policy/loader.py).
use guardmcp.Prelude.{
  ℕ, zero, suc, String, ◌≡◌, refl, ap, subst, true, false, none, some, List, elem, arith, is_some,
}
use guardmcp.Dict.{Dict, lookup, insert, lookup-insert}
use guardmcp.Policy.{Policy}
use guardmcp.Policy.Loader.{merge}
use guardmcp.Policy.Loader.Chains.{
  Resolution, found, unknown_base, cyclic, invalid, unfinished, ◌>>=◌, Visit, memo, root, child,
  missing, again,
}

-- A policy with no base, or merged onto what its base resolves to, over so many bases.
pub data Merges (parsed : Dict Policy) : ℕ → String → Policy → Type 0 where
  alone :
      {name : String} {p : Policy}
      → lookup name parsed ≡ some p
      → p.extends ≡ none
      → Merges parsed zero name p
  onto :
      {n : ℕ} {name base : String} {p q r : Policy}
      → lookup name parsed ≡ some p
      → p.extends ≡ some base
      → Merges parsed n base q
      → merge q p ≡ some r
      → Merges parsed (suc n) name r

-- A name has one chain.
pub Merges-unique :
    (parsed : Dict Policy) {m n : ℕ} {name : String} {p q : Policy}
    → Merges parsed m name p
    → Merges parsed n name q
    → (m ≡ n) × (p ≡ q)
Merges-unique parsed (alone a x) (alone b y) = (refl, cc)
Merges-unique parsed (alone a x) (onto b y d z) = absurd (cc)
Merges-unique parsed (onto b y d z) (alone a x) = absurd (cc)
Merges-unique parsed (onto {base} a x c w) (onto {n = k} {base = base'} {q = q'} b y d z) =
    let same : base' ≡ base = cc in
    let (mn, pq) = Merges-unique parsed c (subst (λ s. Merges parsed k s q') same d) in
    (ap suc mn, cc)

-- What holds of the result, if there is one.
abbrev pub Ensures : {A : Type 0} → (A → Type 0) → Resolution A → Type 0
Ensures P (found a) = P a
Ensures P _ = Unit

pub bind-Ensures :
    {A B : Type 0} (P : A → Type 0) (Q : B → Type 0) (r : Resolution A) (f : A → Resolution B)
    → Ensures P r
    → ((a : A) → P a → Ensures Q (f a))
    → Ensures Q (r >>= f)
bind-Ensures P Q (found a) f h k = k a h
bind-Ensures P Q (unknown_base e b) f h k = tt
bind-Ensures P Q (cyclic path) f h k = tt
bind-Ensures P Q invalid f h k = tt
bind-Ensures P Q unfinished f h k = tt

pub map-Ensures :
    {A : Type 0} (P Q : A → Type 0) (r : Resolution A)
    → ((a : A) → P a → Q a)
    → Ensures P r
    → Ensures Q r
map-Ensures P Q (found a) k h = k a h
map-Ensures P Q (unknown_base e b) k h = tt
map-Ensures P Q (cyclic path) k h = tt
map-Ensures P Q invalid k h = tt
map-Ensures P Q unfinished k h = tt

pub is_some-insert :
    (k name : String) (p : Policy) (d : Dict Policy)
    → is_some (lookup k d) ≡ true
    → is_some (lookup k (insert name p d)) ≡ true
is_some-insert k name p d h = ground (arith, lookup-insert k name p d)

-- What a visit has seen.
abbrev pub Visited : Dict Policy → String → List String → Dict Policy → Visit → Type 0
Visited parsed name stack resolved (memo p) = lookup name resolved ≡ some p
Visited parsed name stack resolved (root p) = (lookup name parsed ≡ some p) × (p.extends ≡ none)
Visited parsed name stack resolved (child p base) =
    (lookup name parsed ≡ some p) × (p.extends ≡ some base) × (elem base stack ≡ false)
Visited parsed name stack resolved missing = lookup name parsed ≡ none
Visited parsed name stack resolved (again base) =
    (p : Policy) × (lookup name parsed ≡ some p)
    × (p.extends ≡ some base)
    × (elem base stack ≡ true)
