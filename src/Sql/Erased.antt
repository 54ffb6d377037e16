-- ===== src/Sql/Erased.antt =====
-- The text of a statement does not depend on the values of its request: they are bound to
-- placeholders only.
pub mod Statements
pub mod Translated
use guardmcp.Prelude.{
  ℕ, suc, String, ◌≡◌, refl, sym, ap, ◌∙◌, Bool, true, false, Option, none, some, List, [], ◌∷◌,
  ◌++◌, ◌===◌, length, if◌then◌else◌, inl, inr, Bool-cases, subst, map, arith,
}
use guardmcp.Json.{
  Value, null, natural, negative, bool, str, scalar, arr, obj, Items, nil, cons, Fields, end, field,
  get, keys, items,
}
use guardmcp.Capability.{Capability}
use guardmcp.Sql.{
  SqlRequest, T, bound, ◌>>=◌, ◌>>◌, pure, refuse, lift, Dialect, DeleteStrategy, concat, join,
  operator, where_clause, quote, add, add_each, quote_each, expand, build_in, compare_with,
  condition, conditions, column, columns, build_where,
}
use guardmcp.Sql.Statements.{
  projection_columns, bounded_by, translate_read, translate_count, values_at, rows, insert_into,
  insert_rows, assignments, set_clauses, set_doc, translate_update, delete_sql, translate_delete,
  translate_insert, translate_insert_many, by_capability, translate, delete_one_sql,
}
use guardmcp.Sql.Erasure.{
  nulls, erase_operand, erase_operands, erase_condition, erase_filter, mapped,
}

-- Both fail, or both succeed with the same text and as many values.
abbrev pub Alike : {A : Type 0} → Option (A × List Value) → Option (A × List Value) → Type 0
Alike none none = Unit
Alike (some (a, xs)) (some (b, ys)) = (a ≡ b) × (length xs ≡ length ys)
Alike _ _ = ⊥

record Respects {A : Type 0} (m m' : T A) : Type 0 where
  at : (xs ys : List Value) → length xs ≡ length ys → Alike (m xs) (m' ys)

module _ {A B : Type 0} where
  bound-Alike :
      (f f' : A → T B) (o o' : Option (A × List Value))
      → ((a : A) → Respects (f a) (f' a))
      → Alike o o'
      → Alike (bound f o) (bound f' o')
  bound-Alike f f' none none h r = tt
  bound-Alike f f' none (some x) h r = absurd r
  bound-Alike f f' (some x) none h r = absurd r
  bound-Alike f f' (some (a, xs)) (some (b, ys)) h (same, len) =
      subst (λ x. Alike (f a xs) (f' x ys)) same ((h a).at xs ys len)

  bind-Respects :
      {m m' : T A} {f f' : A → T B}
      → Respects m m'
      → ((a : A) → Respects (f a) (f' a))
      → Respects (m >>= f) (m' >>= f')
  bind-Respects {m} {m'} {f} {f'} h hs = record {
    at = λ xs ys len. bound-Alike f f' (m xs) (m' ys) hs (h.at xs ys len);
  }

module _ {A : Type 0} where
  pure-Respects : (a : A) → Respects (pure a) (pure a)
  pure-Respects a = record { at = λ xs ys len. (refl, len) }

  refuse-Respects : Respects {A = A} refuse refuse
  refuse-Respects = record { at = λ xs ys len. tt }

  lift-Respects : (o : Option A) → Respects (lift o) (lift o)
  lift-Respects none = record { at = λ xs ys len. tt }
  lift-Respects (some a) = record { at = λ xs ys len. (refl, len) }

  if-Respects :
      {m m' n n' : T A} (b : Bool)
      → Respects m m'
      → Respects n n'
      → Respects (if b then m else n) (if b then m' else n')
  if-Respects true h k = h
  if-Respects false h k = k

length-snoc : (xs : List Value) (v : Value) → length (xs ++ v ∷ []) ≡ suc (length xs)
length-snoc [] v = refl
length-snoc (x ∷ xs) v = ap suc (length-snoc xs v)

module _ (d : Dialect) where
  add-Respects : (v v' : Value) → Respects (add d v) (add d v')
  add-Respects v v' = record {
    at = λ xs ys len. (
      ap (λ n. d.placeholder (suc n)) len,
      length-snoc xs v ∙ ap suc len ∙ sym (length-snoc ys v'),
    );
  }

  add_each-Respects :
      (vs ws : List Value) → length vs ≡ length ws → Respects (add_each d vs) (add_each d ws)
  add_each-Respects [] [] same = pure-Respects []
  add_each-Respects [] (w ∷ ws) same = absurd (ground arith)
  add_each-Respects (v ∷ vs) [] same = absurd (ground arith)
  add_each-Respects (v ∷ vs) (w ∷ ws) same = bind-Respects (add-Respects v w) (λ ph.
      bind-Respects (add_each-Respects vs ws (omega arith)) (λ phs. pure-Respects (ph ∷ phs)))

  quote_each-Respects : (names : List String) → Respects (quote_each d names) (quote_each d names)
  quote_each-Respects [] = pure-Respects []
  quote_each-Respects (name ∷ names) =
      bind-Respects (lift-Respects (d.quote_ident name))
        (λ q. bind-Respects (quote_each-Respects names) (λ qs. pure-Respects (q ∷ qs)))

  length-nulls : (xs : Items) → length (items xs) ≡ length (items (nulls xs))
  length-nulls nil = refl
  length-nulls (cons x xs) = ap suc (length-nulls xs)

  expand-Respects :
      (ident : String) (xs : Items) → Respects (expand d ident xs) (expand d ident (nulls xs))
  unfolding expand
  expand-Respects ident nil = refuse-Respects
  expand-Respects ident (cons x xs) =
      bind-Respects
        (add_each-Respects (items (cons x xs)) (items (cons null (nulls xs)))
          (ap suc (length-nulls xs)))
        (λ phs. pure-Respects (concat (ident ∷ " IN (" ∷ join ", " phs ∷ ")" ∷ [])))

  build_in-Respects :
      (ident : String) (val : Value)
      → Respects (build_in d ident val) (build_in d ident (erase_operand val))
  unfolding build_in
  build_in-Respects ident (arr xs) =
      if-Respects d.in_uses_array
        (bind-Respects (add-Respects (arr xs) (arr (nulls xs)))
          (λ ph. pure-Respects (concat (ident ∷ " = ANY(" ∷ ph ∷ ")" ∷ []))))
        (expand-Respects ident xs)
  build_in-Respects ident _ = refuse-Respects

  compare_with-Respects :
      (ident : String) (val val' : Value) (sign : Option String)
      → Respects (compare_with d ident val sign) (compare_with d ident val' sign)
  unfolding compare_with
  compare_with-Respects ident val val' none = refuse-Respects
  compare_with-Respects ident val val' (some sign) =
      bind-Respects (add-Respects val val')
        (λ ph. pure-Respects (concat (ident ∷ " " ∷ sign ∷ " " ∷ ph ∷ [])))

  condition-Respects :
      (ident op : String) (val : Value)
      → Respects (condition d ident op val) (condition d ident op (erase_operand val))
  unfolding condition
  condition-Respects ident op val =
      if-Respects (op === "$in") (build_in-Respects ident val)
        (compare_with-Respects ident val (erase_operand val) (operator op))

  conditions-Respects :
      (ident : String) (fs : Fields)
      → Respects (conditions d ident fs) (conditions d ident (erase_operands fs))
  unfolding conditions
  conditions-Respects ident end = pure-Respects []
  conditions-Respects ident (field op val fs) =
      bind-Respects (condition-Respects ident op val) (λ clause.
        bind-Respects (conditions-Respects ident fs) (λ clauses. pure-Respects (clause ∷ clauses)))

  leaf-Respects :
      (ident : String) (v : Value)
      → Respects
          (add d v >>= λ ph. pure (concat (ident ∷ " = " ∷ ph ∷ []) ∷ []))
          (add d null >>= λ ph. pure (concat (ident ∷ " = " ∷ ph ∷ []) ∷ []))
  leaf-Respects ident v =
      bind-Respects (add-Respects v null)
        (λ ph. pure-Respects (concat (ident ∷ " = " ∷ ph ∷ []) ∷ []))

  column-Respects :
      (ident : String) (cond : Value)
      → Respects (column d ident cond) (column d ident (erase_condition cond))
  unfolding column
  column-Respects ident (obj cond) = conditions-Respects ident cond
  column-Respects ident null = leaf-Respects ident null
  column-Respects ident (bool b) = leaf-Respects ident (bool b)
  column-Respects ident (natural n) = leaf-Respects ident (natural n)
  column-Respects ident (negative n) = leaf-Respects ident (negative n)
  column-Respects ident (str s) = leaf-Respects ident (str s)
  column-Respects ident (scalar r t) = leaf-Respects ident (scalar r t)
  column-Respects ident (arr xs) = leaf-Respects ident (arr xs)

  columns-Respects : (fs : Fields) → Respects (columns d fs) (columns d (erase_filter fs))
  unfolding columns
  columns-Respects end = pure-Respects []
  columns-Respects (field col cond fs) = bind-Respects (lift-Respects (d.quote_ident col)) (λ ident.
      bind-Respects (column-Respects ident cond) (λ clauses.
        bind-Respects (columns-Respects fs) (λ others. pure-Respects (clauses ++ others))))

  build_where-Respects :
      (filter : Option Fields)
      → Respects (build_where d filter) (build_where d (mapped erase_filter filter))
  unfolding build_where
  build_where-Respects none = pure-Respects ""
  build_where-Respects (some filter) =
      bind-Respects (columns-Respects filter) (λ clauses. pure-Respects (join " AND " clauses))
