-- ===== src/Guard/Operators.antt =====
-- What the checks on operators and stages accept.
use guardmcp.Prelude.{
  ℕ, suc, String, ◌≡◌, ◌↔◌, refl, inl, inr, true, false, Option, none, some, arith, elem, Member,
  elem-Member, Member-elem, All, All-Member, Bool-cases,
}
use guardmcp.Json.{Value, obj, Items, nil, cons, Fields, end, field}
use guardmcp.Guard.{
  ToolError, banned_pipeline_stages, is_banned, has_dangerous_operators, allowed_stages,
  check_stage, first_error, check_stages, validate_pipeline_stages, validate_filter,
  db_aggregate_stage_operators, check_db_stage, check_db_stages, validate_db_pipeline_stages,
}
use guardmcp.Guard.Dangerous.{IsDangerous, banned_sound, banned_complete}

-- A value is found dangerous exactly when a banned operator is a key in it, at any depth of objects
-- and lists.
pub has_dangerous_operators_iff : (v : Value) → (has_dangerous_operators v ≡ true) ↔ IsDangerous v
has_dangerous_operators_iff v = (banned_sound v, (λ d. banned_complete d.0 d.1 v d.2))

safe_iff : (v : Value) → (has_dangerous_operators v ≡ false) ↔ (¬ IsDangerous v)
safe_iff v = elim (Bool-cases (has_dangerous_operators v)) [
  | inl bad ↦ ((λ e. cc), (λ h. absurd (h (banned_sound v bad))))
  | inr safe ↦ ((λ e d. cc (banned_complete d.0 d.1 v d.2)), (λ h. safe))
]

-- A filter passes exactly when it is an object with no banned operator at any depth.
pub validate_filter_iff :
    (v : Value) → (validate_filter v ≡ none) ↔ (((fs : Fields) × (v ≡ obj fs)) × (¬ IsDangerous v))
unfolding validate_filter
validate_filter_iff (obj fs) = (
  (λ e. ((fs, refl), (safe_iff (obj fs)).0 (ground arith))),
  (λ h. rw ((safe_iff (obj fs)).1 h.1)),
)
validate_filter_iff _ = ((λ e. cc), (λ h. cc (h.0.1)))

-- Every stage is an object with one key, whose name `P` admits, over a body with no banned operator.
abbrev pub AllStages : (String → Type 0) → Items → Type 0
AllStages P nil = Unit
AllStages P (cons (obj (field op body end)) rest) = (P op × (¬ IsDangerous body)) × AllStages P rest
AllStages P (cons _ rest) = ⊥

first_error_iff : (a b : Option ToolError) → (first_error a b ≡ none) ↔ ((a ≡ none) × (b ≡ none))
first_error_iff none b = ((λ e. (refl, e)), (λ h. h.1))
first_error_iff (some x) b = ((λ e. cc), (λ h. cc (h.0)))

listed_not_banned : All (λ op. elem op banned_pipeline_stages ≡ false) allowed_stages
unfolding elem
listed_not_banned = (
  refl,
  (
    refl,
    (
      refl,
      (
        refl,
        (
          refl,
          (
            refl,
            (
              refl,
              (
                refl,
                (
                  refl,
                  (
                    refl,
                    (
                      refl,
                      (refl, (refl, (refl, (refl, (refl, (refl, (refl, (refl, (refl, tt))))))))),
                    ),
                  ),
                ),
              ),
            ),
          ),
        ),
      ),
    ),
  ),
)

not_banned : (op : String) → Member op allowed_stages → elem op banned_pipeline_stages ≡ false
not_banned op =
    All-Member (λ k. elem k banned_pipeline_stages ≡ false) op allowed_stages listed_not_banned

check_stage_iff :
    (op : String) (body : Value)
    → (check_stage op body ≡ none) ↔ (Member op allowed_stages × (¬ IsDangerous body))
unfolding check_stage
check_stage_iff op body = (
  (λ e. (elem-Member op allowed_stages (ground arith), (safe_iff body).0 (ground arith))),
  (λ h. rw (not_banned op h.0, Member-elem op allowed_stages h.0, (safe_iff body).1 h.1)),
)

check_stages_iff :
    (i : ℕ) (xs : Items)
    → (check_stages i xs ≡ none) ↔ AllStages (λ op. Member op allowed_stages) xs
unfolding check_stages
check_stages_iff i nil = ((λ e. tt), (λ h. refl))
check_stages_iff i (cons (obj (field op body end)) rest) =
    let (to, from) = check_stage_iff op body in
    let (tos, froms) = check_stages_iff (suc i) rest in
    let (split, join) = first_error_iff (check_stage op body) (check_stages (suc i) rest) in
    ((λ e. (to (split e).0, tos (split e).1)), (λ h. join (from h.0, froms h.1)))
check_stages_iff i (cons _ rest) = ((λ e. cc), (λ h. absurd h))

-- A pipeline passes exactly when every stage is an object with one key, which is on the list of
-- allowed stages, over a body with no banned operator at any depth.
pub validate_pipeline_stages_iff :
    (pipeline : Items)
    → (validate_pipeline_stages pipeline ≡ none)
      ↔ AllStages (λ op. Member op allowed_stages) pipeline
unfolding validate_pipeline_stages
validate_pipeline_stages_iff pipeline = check_stages_iff 0 pipeline

check_db_stage_iff :
    (op : String) (body : Value)
    → (check_db_stage op body ≡ none) ↔ ((is_banned op ≡ false) × (¬ IsDangerous body))
unfolding check_db_stage
check_db_stage_iff op body = (
  (λ e. (ground arith, (safe_iff body).0 (ground arith))),
  (λ h. rw (h.0, (safe_iff body).1 h.1)),
)

check_db_stages_iff :
    (i : ℕ) (xs : Items) → (check_db_stages i xs ≡ none) ↔ AllStages (λ op. is_banned op ≡ false) xs
unfolding check_db_stages
check_db_stages_iff i nil = ((λ e. tt), (λ h. refl))
check_db_stages_iff i (cons (obj (field op body end)) rest) =
    let (to, from) = check_db_stage_iff op body in
    let (tos, froms) = check_db_stages_iff (suc i) rest in
    let (split, join) = first_error_iff (check_db_stage op body) (check_db_stages (suc i) rest) in
    ((λ e. (to (split e).0, tos (split e).1)), (λ h. join (from h.0, froms h.1)))
check_db_stages_iff i (cons _ rest) = ((λ e. cc), (λ h. absurd h))

-- The first stage is an object with one key, one of the operators on the whole database.
abbrev pub StartsAtDb : Items → Type 0
StartsAtDb (cons (obj (field op body end)) rest) = Member op db_aggregate_stage_operators
StartsAtDb _ = ⊥

-- A pipeline on the whole database passes exactly when its first stage is one of the operators for
-- that, and every stage is an object with one key that is not a banned operator, over a body with
-- no banned operator at any depth.
pub validate_db_pipeline_stages_iff :
    (pipeline : Items)
    → (validate_db_pipeline_stages pipeline ≡ none)
      ↔ (StartsAtDb pipeline × AllStages (λ op. is_banned op ≡ false) pipeline)
unfolding validate_db_pipeline_stages
validate_db_pipeline_stages_iff (cons (obj (field op body end)) rest) =
    let (to, from) = check_db_stages_iff 0 (cons (obj (field op body end)) rest) in
    (
      (λ e. (elem-Member op db_aggregate_stage_operators (ground arith), to (ground arith))),
      (λ h. rw (Member-elem op db_aggregate_stage_operators h.0) (from h.1)),
    )
validate_db_pipeline_stages_iff _ = ((λ e. cc), (λ h. absurd h.0))
