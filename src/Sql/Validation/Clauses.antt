-- ===== src/Sql/Validation/Clauses.antt =====
-- When the WHERE clause of a statement is not empty.
use Prim.Native.String.{◌++◌ as append}
use Prim.Native.String.append.{cons as append_cons, nil as append_nil}
use Prim.Native.Char.{Char}
use guardmcp.Prelude.{
  subst, String, Bool, true, false, ◌||◌, ◌≡◌, refl, ap, ◌∙◌, inl, inr, Option, none, some, List,
  [], ◌∷◌, ◌++◌, is_some, ◌===◌, eq_iff, Bool-cases,
}
use guardmcp.Json.{
  Value, null, bool, natural, negative, str, scalar, arr, obj, Items, nil, cons, items, Fields, end,
  field,
}
use guardmcp.Sql.{
  T, bound, ◌>>=◌, pure, Dialect, quote, add, add_each, expand, build_in, compare_with, condition,
  conditions, column, columns, build_where, operator, concat, join,
}
use guardmcp.Sql.Validation.Returns.{Gives}

-- What holds of each value that a translation returns.
abbrev pub Yields : {A : Type 0} → (A → Type 0) → T A → Type 0
Yields {A} P m = (args args' : List Value) (a : A) → m args ≡ some (a, args') → P a

bound-Yields :
    {A B : Type 0} (P : A → Type 0) (Q : B → Type 0) (o : Option (A × List Value)) (k : A → T B)
    → ((a : A) (l : List Value) → o ≡ some (a, l) → P a)
    → ((a : A) → P a → Yields Q (k a))
    → (args' : List Value) (b : B) → bound k o ≡ some (b, args')
    → Q b
bound-Yields P Q none k h g args' b e = cc
bound-Yields P Q (some (a, l)) k h g args' b e = g a (h a l refl) l args' b e

bind-Yields :
    {A B : Type 0} (P : A → Type 0) (Q : B → Type 0) (m : T A) (k : A → T B)
    → Yields P m
    → ((a : A) → P a → Yields Q (k a))
    → Yields Q (m >>= k)
bind-Yields P Q m k h g args args' b e = bound-Yields P Q (m args) k (λ a l. h args l a) g args' b e

-- Whatever a first step returns.
after-Yields :
    {A B : Type 0} (Q : B → Type 0) (m : T A) (k : A → T B)
    → ((a : A) → Yields Q (k a))
    → Yields Q (m >>= k)
after-Yields Q m k g = bind-Yields (λ a. Unit) Q m k (λ args args' a e. tt) (λ a u. g a)

some_pair_first :
    {A : Type 0} (a b : A) (xs ys : List Value)
    → (let o : Option (A × List Value) = some (a, xs) in o) ≡ some (b, ys)
    → a ≡ b
some_pair_first a b xs ys e = ap (λ o. elim o [ none ↦ a | some p ↦ p.0 ]) e

pure-Yields : {A : Type 0} (P : A → Type 0) (a : A) → P a → Yields P (pure a)
pure-Yields P a h args args' b e = subst P (some_pair_first a b args args' e) h

bound_full :
    {A B : Type 0} (P : A → Type 0) (o : Option (A × List Value)) (k : A → T B) (b : Bool)
    → is_some o ≡ b
    → ((a : A) (l : List Value) → o ≡ some (a, l) → P a)
    → ((a : A) → P a → Gives (k a) true)
    → is_some (bound k o) ≡ b
bound_full P none k b e y g = e
bound_full P (some (a, l)) k b e y g = g a (y a l refl) l ∙ e

-- A step after which the next one cannot fail, for what the first one returns.
pub bind_full-Gives :
    {A B : Type 0} (P : A → Type 0) (m : T A) (k : A → T B) (b : Bool)
    → Gives m b
    → Yields P m
    → ((a : A) → P a → Gives (k a) true)
    → Gives (m >>= k) b
bind_full-Gives P m k b h y g args = bound_full P (m args) k b (h args) (λ a l. y args l a) g

abbrev pub Full : String → Type 0
Full s = (s === "") ≡ false

cons-Full : (c : Char) (s : String) → Full (String.◌∷◌ c s)
cons-Full c s = elim (Bool-cases (String.◌∷◌ c s === "")) [
  | inl e ↦ let eq = (eq_iff (String.◌∷◌ c s) "").0 e in cc
  | inr e ↦ e
]

append-left_Full : (s t : String) → Full s → Full (append s t)
append-left_Full String.[] t h = cc
append-left_Full (String.◌∷◌ c s) t h = rw (append_cons c s t) (cons-Full c (append s t))

append-right_Full : (s t : String) → Full t → Full (append s t)
append-right_Full String.[] t h = rw (append_nil t) h
append-right_Full (String.◌∷◌ c s) t h = rw (append_cons c s t) (cons-Full c (append s t))

-- A word in a clause, after its column.
word-Full :
    (ident word : String) (rest : List String) → Full word → Full (concat (ident ∷ word ∷ rest))
word-Full ident word rest h = append-right_Full ident _ (append-left_Full word (concat rest) h)

-- The first clause is there, and is not empty.
abbrev StartsFull : List String → Type 0
StartsFull [] = ⊥
StartsFull (c ∷ cs) = Full c

append-StartsFull : (cs os : List String) → StartsFull cs → StartsFull (cs ++ os)
append-StartsFull [] os h = absurd h
append-StartsFull (c ∷ cs) os h = h

join-Full : (sep : String) (cs : List String) → StartsFull cs → Full (join sep cs)
join-Full sep [] h = absurd h
join-Full sep (c ∷ []) h = h
join-Full sep (c ∷ e ∷ cs) h = append-left_Full c _ h

-- A column without a condition gives no clause.
abbrev pub has_condition : Value → Bool
has_condition (obj end) = false
has_condition _ = true

unfoldable pub has_clause : Fields → Bool
has_clause end = false
has_clause (field col cond fs) = has_condition cond || has_clause fs

module _ (d : Dialect) where
  build_in_list-Full : (ident : String) (xs : Items) → Yields Full (build_in d ident (arr xs))
  unfolding build_in expand
  build_in_list-Full ident nil = elim (Bool-cases d.in_uses_array) [
    | inl array ↦ rw array (
        after-Yields Full (add d (arr nil)) _ (λ ph.
          pure-Yields Full (concat (ident ∷ " = ANY(" ∷ ph ∷ ")" ∷ []))
            (word-Full ident " = ANY(" (ph ∷ ")" ∷ []) refl)))
    | inr listed ↦ rw listed (λ args args' a e. cc)
  ]
  build_in_list-Full ident (cons v vs) = elim (Bool-cases d.in_uses_array) [
    | inl array ↦ rw array (
        after-Yields Full (add d (arr (cons v vs))) _ (λ ph.
          pure-Yields Full (concat (ident ∷ " = ANY(" ∷ ph ∷ ")" ∷ []))
            (word-Full ident " = ANY(" (ph ∷ ")" ∷ []) refl)))
    | inr listed ↦ rw listed (
        after-Yields Full (add_each d (items (cons v vs))) _ (λ phs.
          pure-Yields Full (concat (ident ∷ " IN (" ∷ join ", " phs ∷ ")" ∷ []))
            (word-Full ident " IN (" (join ", " phs ∷ ")" ∷ []) refl)))
  ]

  build_in-Full : (ident : String) (v : Value) → Yields Full (build_in d ident v)
  unfolding build_in
  build_in-Full ident (arr xs) args args' a e = build_in_list-Full ident xs args args' a e
  build_in-Full ident null args args' a e = cc
  build_in-Full ident (bool b) args args' a e = cc
  build_in-Full ident (natural n) args args' a e = cc
  build_in-Full ident (negative n) args args' a e = cc
  build_in-Full ident (str s) args args' a e = cc
  build_in-Full ident (scalar r t) args args' a e = cc
  build_in-Full ident (obj fs) args args' a e = cc

  compare_with-Full :
      (ident : String) (v : Value) (sign : Option String)
      → Yields Full (compare_with d ident v sign)
  unfolding compare_with
  compare_with-Full ident v none args args' a e = cc
  compare_with-Full ident v (some sign) args args' a e =
      after-Yields Full (add d v) (λ ph. pure (concat (ident ∷ " " ∷ sign ∷ " " ∷ ph ∷ [])))
        (λ ph.
          pure-Yields Full (concat (ident ∷ " " ∷ sign ∷ " " ∷ ph ∷ []))
            (word-Full ident " " (sign ∷ " " ∷ ph ∷ []) refl))
        args args' a e

  condition-Full : (ident op : String) (v : Value) → Yields Full (condition d ident op v)
  unfolding condition
  condition-Full ident op v = elim (Bool-cases (op === "$in")) [
    | inl is_in ↦ rw is_in (build_in-Full ident v)
    | inr other ↦ rw other (compare_with-Full ident v (operator op))
  ]

  abbrev Clauses : Bool → List String → Type 0
  Clauses true cs = StartsFull cs
  Clauses false cs = cs ≡ []

  one_Clause :
      (ident : String) (v : Value)
      → Yields (Clauses true) (add d v >>= λ ph. pure (concat (ident ∷ " = " ∷ ph ∷ []) ∷ []))
  one_Clause ident v =
      after-Yields (Clauses true) (add d v) (λ ph. pure (concat (ident ∷ " = " ∷ ph ∷ []) ∷ []))
        (λ ph.
          pure-Yields (Clauses true) (concat (ident ∷ " = " ∷ ph ∷ []) ∷ [])
            (word-Full ident " = " (ph ∷ []) refl))

  column-Clauses :
      (ident : String) (v : Value) → Yields (Clauses (has_condition v)) (column d ident v)
  unfolding column conditions
  column-Clauses ident (obj end) args args' a e = pure-Yields (Clauses false) [] refl args args' a e
  column-Clauses ident (obj (field op v fs)) args args' a e =
      bind-Yields Full (Clauses true) (condition d ident op v)
        (λ clause. conditions d ident fs >>= λ clauses. pure (clause ∷ clauses))
        (condition-Full ident op v)
        (λ clause full.
          after-Yields (Clauses true) (conditions d ident fs) (λ clauses. pure (clause ∷ clauses))
            (λ clauses. pure-Yields (Clauses true) (clause ∷ clauses) full))
        args args' a e
  column-Clauses ident null args args' a e = one_Clause ident null args args' a e
  column-Clauses ident (bool b) args args' a e = one_Clause ident (bool b) args args' a e
  column-Clauses ident (natural n) args args' a e = one_Clause ident (natural n) args args' a e
  column-Clauses ident (negative n) args args' a e = one_Clause ident (negative n) args args' a e
  column-Clauses ident (str s) args args' a e = one_Clause ident (str s) args args' a e
  column-Clauses ident (scalar r t) args args' a e = one_Clause ident (scalar r t) args args' a e
  column-Clauses ident (arr xs) args args' a e = one_Clause ident (arr xs) args args' a e

  columns-Clauses : (fs : Fields) → Yields (Clauses (has_clause fs)) (columns d fs)
  unfolding columns has_clause
  columns-Clauses end args args' a e = pure-Yields (Clauses false) [] refl args args' a e
  columns-Clauses (field col cond fs) args args' a e =
      after-Yields (Clauses (has_condition cond || has_clause fs)) (quote d col)
        (λ ident.
          column d ident cond >>= λ clauses. columns d fs >>= λ others. pure (clauses ++ others))
        (λ ident.
          bind-Yields (Clauses (has_condition cond)) (Clauses (has_condition cond || has_clause fs))
            (column d ident cond) (λ clauses. columns d fs >>= λ others. pure (clauses ++ others))
            (column-Clauses ident cond)
            (λ clauses here.
              bind-Yields (Clauses (has_clause fs)) (Clauses (has_condition cond || has_clause fs))
                (columns d fs) (λ others. pure (clauses ++ others)) (columns-Clauses fs)
                (λ others later.
                  pure-Yields (Clauses (has_condition cond || has_clause fs)) (clauses ++ others)
                    (join_clauses (has_condition cond) (has_clause fs) clauses others here later))))
        args args' a e
    where
      join_clauses :
          (b c : Bool) (cs os : List String)
          → Clauses b cs
          → Clauses c os
          → Clauses (b || c) (cs ++ os)
      join_clauses true c cs os h k = append-StartsFull cs os h
      join_clauses false true cs os h k = rw h k
      join_clauses false false cs os h k = rw (h, k) refl

  pub build_where-Full :
      (fs : Fields) → has_clause fs ≡ true → Yields Full (build_where d (some fs))
  unfolding build_where
  build_where-Full fs h =
      bind-Yields (Clauses true) Full (columns d fs) (λ clauses. pure (join " AND " clauses))
        (subst (λ b. Yields (Clauses b) (columns d fs)) h (columns-Clauses fs))
        (λ clauses full. pure-Yields Full (join " AND " clauses) (join-Full " AND " clauses full))
