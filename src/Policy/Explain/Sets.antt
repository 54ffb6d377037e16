-- ===== src/Policy/Explain/Sets.antt =====
-- Sorted sets of texts, and what the difference of two lists says of them (core/policy/explain.py).
use Prim.Native.String.{◌++◌ as append}
use Prim.Native.String
use Prim.Native.Nat.{Ordering}
use text.Mathlib.TextEquality.{path_by_compare}
use guardmcp.Prelude.{
  String, ◌≡◌, ◌↔◌, refl, sym, ap, subst, ◌∙◌, inl, inr, true, false, List, [], ◌∷◌, ◌++◌, ◌||◌,
  not, elem, filterb, ◌===◌, Bool-cases, arith, eq_iff, eq_self, or-cases, or-left, or-right, ◌⊎◌,
}
use guardmcp.Policy.Explain.{place, insert_text, sorted_set, minus, lines}

pub append-empty : (xs ys : List String) → xs ++ ys ≡ [] → (xs ≡ []) × (ys ≡ [])
append-empty [] ys h = (refl, h)
append-empty (x ∷ xs) ys h = cc

pub empty-append : (xs ys : List String) → xs ≡ [] → ys ≡ [] → xs ++ ys ≡ []
empty-append xs ys h k = rw (h, k) refl

pub and_empty :
    {P Q : Type 0} (xs ys : List String) → (xs ≡ []) ↔ P → (ys ≡ []) ↔ Q → (xs ++ ys ≡ []) ↔ (P × Q)
and_empty xs ys f g = (
  (λ h. let (x, y) = append-empty xs ys h in (f.0 x, g.0 y)),
  (λ h. empty-append xs ys (f.1 h.0) (g.1 h.1)),
)

pub lines-empty :
    (before after : String) (items : List String) → lines before after items ≡ [] → items ≡ []
lines-empty before after [] h = refl
lines-empty before after (x ∷ xs) h = cc

place-some :
    {A : Type 0} (o : Ordering) (x y : String) (ys rest : List String)
    → place o x y ys rest ≡ []
    → A
place-some Ordering.lt x y ys rest h = cc
place-some Ordering.eq x y ys rest h = cc
place-some Ordering.gt x y ys rest h = cc

sorted_set-empty : (xs : List String) → sorted_set xs ≡ [] → xs ≡ []
unfolding sorted_set
sorted_set-empty [] h = refl
sorted_set-empty (x ∷ xs) h = inserted (sorted_set xs) h
  where
    inserted : {A : Type 0} (ys : List String) → insert_text x ys ≡ [] → A
    inserted [] h = cc
    inserted (y ∷ ys) h = place-some (String.compare x y) x y ys (insert_text x ys) h

place-elem :
    (k : String) (o : Ordering) (x y : String) (ys rest : List String)
    → (o ≡ Ordering.eq → x ≡ y)
    → elem k rest ≡ ((x === k) || elem k ys)
    → elem k (place o x y ys rest) ≡ ((x === k) || elem k (y ∷ ys))
unfolding elem
place-elem k Ordering.lt x y ys rest eq h = refl
place-elem k Ordering.eq x y ys rest eq h = ground (arith, ap (λ s. s === k) (eq refl))
place-elem k Ordering.gt x y ys rest eq h = ground arith

elem-insert_text :
    (k x : String) (ys : List String) → elem k (insert_text x ys) ≡ ((x === k) || elem k ys)
unfolding insert_text
elem-insert_text k x [] = unfold elem in refl
elem-insert_text k x (y ∷ ys) =
    place-elem k (String.compare x y) x y ys (insert_text x ys) (path_by_compare x y)
      (elem-insert_text k x ys)

pub elem-cons : (k x : String) (xs : List String) → elem k (x ∷ xs) ≡ ((x === k) || elem k xs)
unfolding elem
elem-cons k x xs = refl

pub elem-nil : (k : String) → elem k [] ≡ false
unfolding elem
elem-nil k = refl

pub elem-sorted_set : (k : String) (xs : List String) → elem k (sorted_set xs) ≡ elem k xs
unfolding sorted_set
elem-sorted_set k [] = refl
elem-sorted_set k (x ∷ xs) =
    elem-insert_text k x (sorted_set xs)
    ∙ ap (λ b. (x === k) || b) (elem-sorted_set k xs)
    ∙ sym (elem-cons k x xs)

-- What is in the one is in the other.
abbrev Within : List String → List String → Type 0
Within a b = (k : String) → elem k a ≡ true → elem k b ≡ true

filter-empty : (b a : List String) → filterb (λ x. not (elem x b)) a ≡ [] → Within a b
filter-empty b [] h k m = cc (elem-nil k)
filter-empty b (x ∷ xs) h k m = elim (Bool-cases (elem x b)) [
  | inr out ↦ cc (rw out at h)
  | inl there ↦
      by_head (or-cases (x === k) (elem k xs) (sym (elem-cons k x xs) ∙ m)) there
        (filter-empty b xs (rw there at h) k)
]
  where
    by_head :
        ((x === k) ≡ true) ⊎ (elem k xs ≡ true)
        → elem x b ≡ true
        → (elem k xs ≡ true → elem k b ≡ true)
        → elem k b ≡ true
    by_head (inl here) there rest = subst (λ i. elem i b ≡ true) ((eq_iff x k).0 here) there
    by_head (inr later) there rest = rest later

Within-filter : (b a : List String) → Within a b → filterb (λ x. not (elem x b)) a ≡ []
Within-filter b [] h = refl
Within-filter b (x ∷ xs) h =
    rw (h x (elem-cons x x xs ∙ or-left (x === x) (elem x xs) (eq_self x)))
      (Within-filter b xs (λ k m. h k (elem-cons k x xs ∙ or-right (x === k) (elem k xs) m)))

-- The same members: as sets, the lists are equal.
abbrev pub SameMembers : List String → List String → Type 0
SameMembers a b = (k : String) → elem k a ≡ elem k b

pub same_of_Within : (a b : List String) → Within a b → Within b a → SameMembers a b
same_of_Within a b h g k = ground (arith, h k, g k)

pub minus-empty : (a b : List String) → minus a b ≡ [] → Within a b
unfolding minus
minus-empty a b h = filter-empty b a (sorted_set-empty (filterb (λ x. not (elem x b)) a) h)

pub same-minus : (a b : List String) → SameMembers a b → minus a b ≡ []
unfolding minus
same-minus a b h = rw (Within-filter b a (λ k m. sym (h k) ∙ m)) (unfold sorted_set in refl)
