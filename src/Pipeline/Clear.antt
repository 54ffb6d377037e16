-- ===== src/Pipeline/Clear.antt =====
-- When the guards of a pipeline and of a filter let a request through (core/pipeline.py).
use guardmcp.Prelude.{
  String, ◌≡◌, ◌↔◌, refl, inl, inr, true, Option, none, some, List, [], ◌∷◌, Member, Bool-cases,
  subst,
}
use guardmcp.Json.{get, truthy_option}
use guardmcp.Domain.{Decision, Request}
use guardmcp.Policy.{Policy, DatabaseScope, scope_for, mask_fields_for}
use guardmcp.Policy.Engine.{collection_permitted}
use guardmcp.Policy.Engine.Laws.{Permits, collection_permitted_iff}
use guardmcp.Backend.{Backend}
use guardmcp.Pipeline.{
  first_forbidden, guard_refs, guard_leaks, refs_of, leaks_of, guard_aggregation,
}

pub first_forbidden_iff :
    (scope : DatabaseScope) (refs : List String)
    → (first_forbidden scope refs ≡ none)
      ↔ ((c : String) → Member c refs → Permits scope.collections c)
unfolding first_forbidden
first_forbidden_iff scope [] = ((λ e c m. absurd m), (λ h. refl))
first_forbidden_iff scope (ref ∷ refs) =
    elim (Bool-cases (collection_permitted ref scope.collections.allow scope.collections.deny)) [
      | inl hit ↦ (
        (λ e c m. elim m [
          | inl here ↦
              subst (Permits scope.collections) here
                ((collection_permitted_iff scope.collections ref).0 hit)
          | inr later ↦ (first_forbidden_iff scope refs).0 (rw hit at e) c later
        ]),
        (λ h. rw hit ((first_forbidden_iff scope refs).1 (λ c m. h c (inr m)))),
      )
      | inr miss ↦ (
        (λ e. cc (rw miss at e)),
        (λ h. cc (miss, (collection_permitted_iff scope.collections ref).1 (h ref (inl refl)))),
      )
    ]

-- What the aggregation guard asks of a request, of what the backend finds in its pipeline.
abbrev pub PipelineIsClear : Backend → Request → Policy → Type 0
PipelineIsClear backend request policy =
    (truthy_option (get "pipeline" request.params) ≡ true)
    → (((c : String)
          → Member c (refs_of backend request.params)
          → Permits (scope_for policy request.database).collections c)
        × (leaks_of backend request.params
              (mask_fields_for policy request.collection request.database)
            ≡ []))

guard_leaks_iff : (leaked : List String) → (guard_leaks leaked ≡ none) ↔ (leaked ≡ [])
unfolding guard_leaks
guard_leaks_iff [] = ((λ e. refl), (λ e. refl))
guard_leaks_iff (x ∷ xs) = ((λ e. cc), (λ e. cc))

guards_iff :
    (o : Option String) (next : Option Decision)
    → (guard_refs o next ≡ none) ↔ ((o ≡ none) × (next ≡ none))
unfolding guard_refs
guards_iff none next = ((λ e. (refl, e)), (λ h. h.1))
guards_iff (some ref) next = ((λ e. cc), (λ h. cc (h.0)))

-- The aggregation guard has no objection exactly when the request has no pipeline, or the scope of
-- its database permits each collection that the backend finds in it, and the backend finds none of
-- the masked fields of its collection in it.
pub guard_aggregation_iff :
    (backend : Backend) (request : Request) (policy : Policy)
    → (guard_aggregation backend request policy ≡ none) ↔ PipelineIsClear backend request policy
unfolding guard_aggregation
guard_aggregation_iff backend request policy =
    let scope = scope_for policy request.database in
    let refs = refs_of backend request.params in
    let leaked =
      leaks_of backend request.params
        (mask_fields_for policy request.collection request.database) in
    elim (Bool-cases (truthy_option (get "pipeline" request.params))) [
      | inl hit ↦ (
        (λ e t.
            let (f, g) =
              (guards_iff (first_forbidden scope refs) (guard_leaks leaked)).0 (rw hit at e) in
            ((first_forbidden_iff scope refs).0 f, (guard_leaks_iff leaked).0 g)),
        (λ h. rw hit (
            (guards_iff (first_forbidden scope refs) (guard_leaks leaked)).1 (
              (first_forbidden_iff scope refs).1 (h hit).0,
              (guard_leaks_iff leaked).1 (h hit).1,
            ))),
      )
      | inr miss ↦ ((λ e t. cc), (λ h. rw miss refl))
    ]
