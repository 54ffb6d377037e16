-- ===== src/Prelude/Lists.antt =====
-- Lists: measures and membership over the native numbers and texts, predicates by recursion.
use Prim.Native.Nat.{ℕ, suc}
use Prim.Native.String.{String}
use mathlib.Core.Path.{◌≡◌, refl, ap, subst}
use mathlib.Core.Logic.{◌⊎◌, inl, inr}
use mathlib.Core.Bool.{Bool, true, false, ◌||◌}
use mathlib.Core.List.{List, [], ◌∷◌, ◌++◌}
use native.Mathlib.Omega.{arith}
use text.Mathlib.TextEquality.{eq_iff}
use guardmcp.Prelude.Tests.{◌===◌, if◌then◌else◌}

module _ {ℓ} {A : Type ℓ} where
  abbrev pub length : List A → ℕ
  length [] = 0
  length (x ∷ xs) = suc (length xs)

  -- `not xs`
  abbrev pub is_empty : List A → Bool
  is_empty [] = true
  is_empty (x ∷ xs) = false

  abbrev pub any : (A → Bool) → List A → Bool
  any p [] = false
  any p (x ∷ xs) = p x || any p xs

  abbrev pub filterb : (A → Bool) → List A → List A
  filterb p [] = []
  filterb p (x ∷ xs) = let rest = filterb p xs in if p x then x ∷ rest else rest

  abbrev pub All {κ} : (A → Type κ) → List A → Type κ
  All P [] = Unit
  All P (x ∷ xs) = P x × All P xs

module _ {A : Type 0} where
  -- Membership by recursion, which the tactics read.
  abbrev pub Member : A → List A → Type 0
  Member a [] = ⊥
  Member a (x ∷ xs) = (x ≡ a) ⊎ Member a xs

-- `k in xs`, for texts.
unfoldable pub elem : String → List String → Bool
elem k [] = false
elem k (x ∷ xs) = x === k || elem k xs

pub elem-Member : (k : String) (xs : List String) → elem k xs ≡ true → Member k xs
unfolding elem
elem-Member k [] h = cc
elem-Member k (x ∷ xs) h = ground (arith, eq_iff x k, elem-Member k xs)

pub Member-elem : (k : String) (xs : List String) → Member k xs → elem k xs ≡ true
unfolding elem
Member-elem k [] h = absurd h
Member-elem k (x ∷ xs) h = ground (arith, eq_iff x k, Member-elem k xs)

pub elem-append : (k : String) (xs ys : List String) → elem k (xs ++ ys) ≡ elem k xs || elem k ys
unfolding elem
elem-append k [] ys = refl
elem-append k (x ∷ xs) ys = ground (arith, elem-append k xs ys)

pub is_empty-elem : (k : String) (xs : List String) → elem k xs ≡ true → is_empty xs ≡ false
unfolding elem
is_empty-elem k [] h = cc
is_empty-elem k (x ∷ xs) h = refl

pub All-Member : {A : Type 0} (P : A → Type 0) (a : A) (xs : List A) → All P xs → Member a xs → P a
All-Member P a [] h m = absurd m
All-Member P a (x ∷ xs) (h, hs) m = elim m [
  | inl here ↦ subst P here h
  | inr later ↦ All-Member P a xs hs later
]

pub Member-append :
    {A : Type 0} (a : A) (xs ys : List A) → Member a (xs ++ ys) → Member a xs ⊎ Member a ys
Member-append a [] ys m = inr m
Member-append a (x ∷ xs) ys m = elim m [
  | inl here ↦ inl (inl here)
  | inr later ↦ elim (Member-append a xs ys later) [ inl p ↦ inl (inr p) | inr q ↦ inr q ]
]

pub append-Member :
    {A : Type 0} (a : A) (xs ys : List A) → Member a xs ⊎ Member a ys → Member a (xs ++ ys)
append-Member a [] ys m = elim m [ inl p ↦ absurd p | inr q ↦ q ]
append-Member a (x ∷ xs) ys m = elim m [
  | inl p ↦ elim p [ inl here ↦ inl here | inr later ↦ inr (append-Member a xs ys (inl later)) ]
  | inr q ↦ inr (append-Member a xs ys (inr q))
]

pub append_nil : {A : Type 0} (xs : List A) → xs ++ [] ≡ xs
append_nil [] = refl
append_nil (x ∷ xs) = ap (λ l. x ∷ l) (append_nil xs)
