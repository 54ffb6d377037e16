-- ===== src/Sql/Validation/Returns.antt =====
-- When the clauses of a statement are translated: the names that a dialect quotes and the operands of
-- `$in` decide it.
use guardmcp.Prelude.{
  String, Bool, true, false, ◌&&◌, ◌≡◌, refl, ◌∙◌, Option, none, some, List, [], ◌∷◌, is_some,
  arith, ◌===◌, Bool-cases, inl, inr, ◌++◌, if◌then◌else◌,
}
use guardmcp.Json.{
  Value, null, bool, natural, negative, str, scalar, arr, obj, nil, cons, items, Fields, end, field,
}
use guardmcp.Sql.{
  T, bound, ◌>>=◌, pure, lift, Dialect, quote, add, add_each, quote_each, expand, build_in, concat,
  join, compare_with, condition, conditions, column, columns, build_where, operator,
}
use guardmcp.Sql.Validation.{
  is_allowed_operator, operators_allowed, condition_allowed, accepts, all_accepted,
  conditions_accepted, validate_filter,
}

-- Whether a translation returns does not depend on the values that are already bound.
abbrev pub Gives : {A : Type 0} → T A → Bool → Type 0
Gives m b = (args : List Value) → is_some (m args) ≡ b

is_some-bound :
    {A B : Type 0} (o : Option (A × List Value)) (k : A → T B) (b c : Bool)
    → is_some o ≡ b
    → ((a : A) → Gives (k a) c)
    → is_some (bound k o) ≡ b && c
is_some-bound none k b c h g = cc
is_some-bound (some (a, args)) k b c h g = g a args ∙ cc

pub bind-Gives :
    {A B : Type 0} (m : T A) (k : A → T B) (b c : Bool)
    → Gives m b
    → ((a : A) → Gives (k a) c)
    → Gives (m >>= k) (b && c)
bind-Gives m k b c h g args = is_some-bound (m args) k b c (h args) g

pub pure-Gives : {A : Type 0} (a : A) → Gives (pure a) true
pure-Gives a args = refl

-- A step that cannot fail.
pub then-Gives :
    {A B : Type 0} (m : T A) (k : A → T B) (c : Bool)
    → Gives m true
    → ((a : A) → Gives (k a) c)
    → Gives (m >>= k) c
then-Gives m k c h g = bind-Gives m k true c h g

-- A last step that cannot fail.
pub last-Gives :
    {A B : Type 0} (m : T A) (k : A → B) (b : Bool) → Gives m b → Gives (m >>= λ a. pure (k a)) b
last-Gives m k b h args =
    bind-Gives m (λ a. pure (k a)) b true h (λ a args. refl) args ∙ ground arith

lift-Gives : {A : Type 0} (o : Option A) → Gives (lift o) (is_some o)
lift-Gives none args = refl
lift-Gives (some a) args = refl

module _ (d : Dialect) where
  pub quote-Gives : (name : String) → Gives (quote d name) (accepts d.quote_ident name)
  quote-Gives name = lift-Gives (d.quote_ident name)

  pub add_each-Gives : (vs : List Value) → Gives (add_each d vs) true
  add_each-Gives [] args = refl
  add_each-Gives (v ∷ vs) args =
      then-Gives (add d v) (λ ph. add_each d vs >>= λ phs. pure (ph ∷ phs)) true (λ args. refl)
        (λ ph. last-Gives (add_each d vs) (λ phs. ph ∷ phs) true (add_each-Gives vs)) args

  pub quote_each-Gives :
      (names : List String) → Gives (quote_each d names) (all_accepted d.quote_ident names)
  unfolding all_accepted
  quote_each-Gives [] args = refl
  quote_each-Gives (name ∷ names) args =
      bind-Gives (quote d name) (λ q. quote_each d names >>= λ qs. pure (q ∷ qs))
        (accepts d.quote_ident name) (all_accepted d.quote_ident names) (quote-Gives name)
        (λ q. last-Gives (quote_each d names) (λ qs. q ∷ qs) _ (quote_each-Gives names)) args

  -- A list, which is not empty where the dialect writes it out.
  abbrev pub is_operand : Value → Bool
  is_operand (arr nil) = d.in_uses_array
  is_operand (arr (cons v vs)) = true
  is_operand _ = false

  unfoldable pub operands : Fields → Bool
  operands end = true
  operands (field op val fs) = (if op === "$in" then is_operand val else true) && operands fs

  abbrev pub column_operands : Value → Bool
  column_operands (obj cond) = operands cond
  column_operands _ = true

  unfoldable pub all_operands : Fields → Bool
  all_operands end = true
  all_operands (field col cond fs) = column_operands cond && all_operands fs

  -- Each operand of `$in` in a filter is a list that the dialect can write.
  abbrev pub filter_operands : Option Fields → Bool
  filter_operands none = true
  filter_operands (some filter) = all_operands filter

  build_in-Gives : (ident : String) (v : Value) → Gives (build_in d ident v) (is_operand v)
  unfolding build_in expand
  build_in-Gives ident (arr nil) args = ground arith
  build_in-Gives ident (arr (cons v vs)) args = elim (Bool-cases d.in_uses_array) [
    | inl array ↦ cc array
    | inr none_such ↦ cc (
      none_such,
      last-Gives (add_each d (items (cons v vs)))
          (λ phs. concat (ident ∷ " IN (" ∷ join ", " phs ∷ ")" ∷ [])) true
          (add_each-Gives (items (cons v vs))) args,
    )
  ]
  build_in-Gives ident null args = refl
  build_in-Gives ident (bool b) args = refl
  build_in-Gives ident (natural n) args = refl
  build_in-Gives ident (negative n) args = refl
  build_in-Gives ident (str s) args = refl
  build_in-Gives ident (scalar r t) args = refl
  build_in-Gives ident (obj fs) args = refl

  compare_with-Gives :
      (ident : String) (v : Value) (sign : Option String)
      → Gives (compare_with d ident v sign) (is_some sign)
  unfolding compare_with
  compare_with-Gives ident v none args = refl
  compare_with-Gives ident v (some sign) args = refl

  condition-Gives :
      (ident op : String) (v : Value)
      → Gives
          (condition d ident op v)
          (is_allowed_operator op && (if op === "$in" then is_operand v else true))
  unfolding condition
  condition-Gives ident op v args = elim (Bool-cases (op === "$in")) [
    | inl is_in ↦ rw is_in (build_in-Gives ident v args)
    | inr other ↦ rw other (compare_with-Gives ident v (operator op) args ∙ ground arith)
  ]

  conditions-Gives :
      (ident : String) (fs : Fields)
      → Gives (conditions d ident fs) (operators_allowed fs && operands fs)
  unfolding conditions operators_allowed operands
  conditions-Gives ident end args = refl
  conditions-Gives ident (field op v fs) args =
      bind-Gives (condition d ident op v)
        (λ clause. conditions d ident fs >>= λ clauses. pure (clause ∷ clauses)) _ _
        (condition-Gives ident op v)
        (λ clause.
          last-Gives (conditions d ident fs) (λ clauses. clause ∷ clauses) _
            (conditions-Gives ident fs))
        args
      ∙ ground arith

  column-Gives :
      (ident : String) (v : Value)
      → Gives (column d ident v) (condition_allowed v && column_operands v)
  unfolding column
  column-Gives ident (obj cond) args = conditions-Gives ident cond args
  column-Gives ident null args = refl
  column-Gives ident (bool b) args = refl
  column-Gives ident (natural n) args = refl
  column-Gives ident (negative n) args = refl
  column-Gives ident (str s) args = refl
  column-Gives ident (scalar r t) args = refl
  column-Gives ident (arr vs) args = refl

  columns-Gives :
      (fs : Fields) → Gives (columns d fs) (conditions_accepted d.quote_ident fs && all_operands fs)
  unfolding columns conditions_accepted all_operands
  columns-Gives end args = refl
  columns-Gives (field col cond fs) args =
      bind-Gives (quote d col)
        (λ ident.
          column d ident cond >>= λ clauses. columns d fs >>= λ others. pure (clauses ++ others))
        _ _ (quote-Gives col)
        (λ ident.
          bind-Gives (column d ident cond)
            (λ clauses. columns d fs >>= λ others. pure (clauses ++ others)) _ _
            (column-Gives ident cond)
            (λ clauses.
              last-Gives (columns d fs) (λ others. clauses ++ others) _ (columns-Gives fs)))
        args
      ∙ ground arith

  pub build_where-Gives :
      (filter : Option Fields)
      → Gives
          (build_where d filter)
          (validate_filter d.quote_ident filter && filter_operands filter)
  unfolding build_where
  build_where-Gives none args = refl
  build_where-Gives (some filter) args =
      last-Gives (columns d filter) (λ clauses. join " AND " clauses) _ (columns-Gives filter) args
