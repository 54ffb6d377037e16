-- ===== src/Planning/Ranked.antt =====
-- The ranking puts the best plan first.
use guardmcp.Prelude.{
  ℕ, suc, ◌≡◌, ◌↔◌, refl, subst, inl, inr, true, false, Option, none, some, List, [], ◌∷◌,
  Bool-cases, arith, All, Member, All-Member,
}
use guardmcp.Planning.{Plan}
use guardmcp.Planning.Plans.{
  leb_score, score, insert_plan, sort_plans, number, rank, is_refused, first_open,
}

leb_score_trans :
    (s t u : ℕ × ℕ × ℕ) → leb_score s t ≡ true → leb_score t u ≡ true → leb_score s u ≡ true
leb_score_trans (a, b, c) (d, e, f) (x, y, z) h k = ground arith

leb_score-total : (s t : ℕ × ℕ × ℕ) → leb_score s t ≡ false → leb_score t s ≡ true
leb_score-total (a, b, c) (d, e, f) h = ground arith

leb_score_refl : (s : ℕ × ℕ × ℕ) → leb_score s s ≡ true
leb_score_refl (a, b, c) = ground arith

-- No plan of the list has a better score.
abbrev pub Best : Plan → List Plan → Type 0
Best p = All (λ q. leb_score (score p) (score q) ≡ true)

abbrev Sorted : List Plan → Type 0
Sorted [] = Unit
Sorted (p ∷ ps) = Best p ps × Sorted ps

Best-insert :
    (p x : Plan) (ys : List Plan)
    → leb_score (score p) (score x) ≡ true
    → Best p ys
    → Best p (insert_plan x ys)
unfolding insert_plan
Best-insert p x [] h b = (h, tt)
Best-insert p x (y ∷ ys) h (k, b) = elim (Bool-cases (leb_score (score x) (score y))) [
  | inl before ↦ rw before (h, (k, b))
  | inr after ↦ rw after (k, Best-insert p x ys h b)
]

Best-trans :
    (x y : Plan) (ys : List Plan) → leb_score (score x) (score y) ≡ true → Best y ys → Best x ys
Best-trans x y [] h b = tt
Best-trans x y (z ∷ zs) h (k, b) =
    (leb_score_trans (score x) (score y) (score z) h k, Best-trans x y zs h b)

insert-Sorted : (x : Plan) (ys : List Plan) → Sorted ys → Sorted (insert_plan x ys)
unfolding insert_plan
insert-Sorted x [] s = (tt, tt)
insert-Sorted x (y ∷ ys) (b, s) = elim (Bool-cases (leb_score (score x) (score y))) [
  | inl before ↦ rw before ((before, Best-trans x y ys before b), (b, s))
  | inr after ↦
      rw after
        (Best-insert y x ys (leb_score-total (score x) (score y) after) b, insert-Sorted x ys s)
]

sort-Sorted : (ps : List Plan) → Sorted (sort_plans ps)
unfolding sort_plans
sort-Sorted [] = tt
sort-Sorted (p ∷ ps) = insert-Sorted p (sort_plans ps) (sort-Sorted ps)

insert-Member : (q x : Plan) (ys : List Plan) → Member q (insert_plan x ys) ↔ Member q (x ∷ ys)
unfolding insert_plan
insert-Member q x [] = ((λ m. m), (λ m. m))
insert-Member q x (y ∷ ys) = elim (Bool-cases (leb_score (score x) (score y))) [
  | inl before ↦ rw before ((λ m. m), (λ m. m))
  | inr after ↦ rw after (swap (insert-Member q x ys))
]
  where
    swap :
        Member q (insert_plan x ys) ↔ Member q (x ∷ ys)
        → Member q (y ∷ insert_plan x ys) ↔ Member q (x ∷ y ∷ ys)
    swap ih = (
      (λ m. elim m [
        | inl e ↦ inr (inl e)
        | inr l ↦ elim (ih.0 l) [ inl e ↦ inl e | inr k ↦ inr (inr k) ]
      ]),
      (λ m. elim m [
        | inl e ↦ inr (ih.1 (inl e))
        | inr l ↦ elim l [ inl e ↦ inl e | inr k ↦ inr (ih.1 (inr k)) ]
      ]),
    )

sort-Member : (q : Plan) (ps : List Plan) → Member q (sort_plans ps) ↔ Member q ps
unfolding sort_plans
sort-Member q [] = ((λ m. m), (λ m. m))
sort-Member q (p ∷ ps) =
    let i = insert-Member q p (sort_plans ps) in
    let ih = sort-Member q ps in
    (
      (λ m. elim (i.0 m) [ inl e ↦ inl e | inr l ↦ inr (ih.0 l) ]),
      (λ m. i.1 (elim m [ inl e ↦ inl e | inr l ↦ inr (ih.1 l) ])),
    )

-- A ranked plan is a plan, with its rank and its tradeoff.
abbrev pub Ranks : Plan → Plan → Type 0
Ranks p q =
    (q.request ≡ p.request)
    × (q.governance ≡ p.governance)
    × (q.risk_level ≡ p.risk_level)
    × (q.est_cost ≡ p.est_cost)
    × (q.index_used ≡ p.index_used)

-- The first plan that is not denied is the best of those.
abbrev pub FirstOpen : List Plan → Option Plan → Type 0
FirstOpen ps none = (q : Plan) → Member q ps → is_refused q.governance ≡ true
FirstOpen ps (some p) =
    Member p ps
    × (is_refused p.governance ≡ false)
    × ((q : Plan)
        → Member q ps
        → is_refused q.governance ≡ false
        → leb_score (score p) (score q) ≡ true)

module _ (p : Plan) (ps : List Plan) where
  shut_first :
      is_refused p.governance ≡ true → (o : Option Plan) → FirstOpen ps o → FirstOpen (p ∷ ps) o
  shut_first shut none h = none_open
    where
      none_open : (q : Plan) → Member q (p ∷ ps) → is_refused q.governance ≡ true
      none_open q (inl e) = subst (λ r. is_refused r.governance ≡ true) e shut
      none_open q (inr m) = h q m
  shut_first shut (some o) (m, open_, k) = (inr m, open_, more)
    where
      more :
          (q : Plan)
          → Member q (p ∷ ps)
          → is_refused q.governance ≡ false
          → leb_score (score o) (score q) ≡ true
      more q (inl e) g = cc (subst (λ r. is_refused r.governance ≡ true) e shut)
      more q (inr l) g = k q l g

  Best-first : Best p ps → (q : Plan) → Member q (p ∷ ps) → leb_score (score p) (score q) ≡ true
  Best-first b q (inl e) =
      subst (λ r. leb_score (score p) (score r) ≡ true) e (leb_score_refl (score p))
  Best-first b q (inr m) = All-Member (λ q. leb_score (score p) (score q) ≡ true) q ps b m

first-FirstOpen : (ps : List Plan) → Sorted ps → FirstOpen ps (first_open ps)
unfolding first_open
first-FirstOpen [] s = λ q m. absurd m
first-FirstOpen (p ∷ ps) (b, s) = elim (Bool-cases (is_refused p.governance)) [
  | inl shut ↦ rw shut (shut_first p ps shut (first_open ps) (first-FirstOpen ps s))
  | inr open_ ↦ rw open_ (inl refl, open_, (λ q m g. Best-first p ps b q m))
]

Best-number :
    (p : Plan) (s : ℕ × ℕ × ℕ) (n : ℕ) (ps : List Plan)
    → s ≡ score p
    → Best p ps
    → All (λ q. leb_score s (score q) ≡ true) (number n ps)
unfolding number
Best-number p s n [] e b = tt
Best-number p s n (q ∷ ps) e (h, b) = (rw e h, Best-number p s (suc n) ps e b)

number-Sorted : (n : ℕ) (ps : List Plan) → Sorted ps → Sorted (number n ps)
unfolding number
number-Sorted n [] s = tt
number-Sorted n (p ∷ ps) (b, s) =
    (Best-number p (score p) (suc n) ps refl b, number-Sorted (suc n) ps s)

-- In a ranking the first plan that is not denied is the best of those: by governance, then cost, then
-- index. Without one, all are denied.
pub rank-FirstOpen : (ps : List Plan) → FirstOpen (rank ps) (first_open (rank ps))
unfolding rank
rank-FirstOpen ps =
    first-FirstOpen (number 1 (sort_plans ps)) (number-Sorted 1 (sort_plans ps) (sort-Sorted ps))

number-Ranks :
    (n : ℕ) (q : Plan) (ps : List Plan)
    → Member q (number n ps)
    → (p : Plan) × Member p ps × Ranks p q
unfolding number
number-Ranks n q [] m = absurd m
number-Ranks n q (p ∷ ps) (inl e) = (p, inl refl, subst (Ranks p) e (refl, refl, refl, refl, refl))
number-Ranks n q (p ∷ ps) (inr m) = let (o, l, r) = number-Ranks (suc n) q ps m in (o, inr l, r)

pub rank-Ranks :
    (q : Plan) (ps : List Plan) → Member q (rank ps) → (p : Plan) × Member p ps × Ranks p q
unfolding rank
rank-Ranks q ps m =
    let (p, l, r) = number-Ranks 1 q (sort_plans ps) m in (p, (sort-Member p ps).0 l, r)
