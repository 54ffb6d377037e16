-- ===== src/Examples/Planned.antt =====
-- A plan for an intent of the analyst.
use guardmcp.Prelude.{All, Member, ◌≡◌, none, some, [], ◌∷◌, ◌⊎◌, inl, inr, ap, sym}
use guardmcp.Connections.{Session, discover_collections}
use guardmcp.Planning.{PlanRequest}
use guardmcp.Planning.Plans.{AlternativeRequest}
use guardmcp.Planning.Pipeline.{Tools, plan}
use guardmcp.Planning.Recommended.{Recommends, plan-Recommends, plan-discovered}
use guardmcp.Examples.{mongo, env}

abbrev session : Session
session = record { registry = []; active = "default"; databases = none }

abbrev tools : Tools
tools = record {
  schema_of = λ collection masks database. ("status", "string") ∷ ("total", "int") ∷ [];
  indexes_of = λ resource. some (("status" ∷ []) ∷ []);
  alternatives = some (λ r.
      record { request = r; strategy = "aggregation"; complexity = "medium"; tradeoff = "" } ∷ []);
  estimate = none;
}

plan-Recommends_example :
    let r = plan env session mongo tools "analyst" "top 5 active users by total" none in
    Recommends env "analyst" r.plans r.recommended_plan
plan-Recommends_example =
    plan-Recommends env "analyst" tools session mongo "top 5 active users by total" none

plan-discovered_example :
    All
      (λ q.
        Member q.request.resource
          (discover_collections (env.policies "analyst") session mongo "analyst" none).0)
      (plan env session mongo tools "analyst" "top 5 active users by total" (some "secrets")).plans
plan-discovered_example =
    plan-discovered env "analyst" tools session mongo "top 5 active users by total" (some "secrets")
      same_resource
  where
    same_resource :
        (r : PlanRequest) (a : AlternativeRequest)
        → (record { request = r; strategy = "aggregation"; complexity = "medium"; tradeoff = "" }
            ≡ a)
          ⊎ ⊥
        → a.request.resource ≡ r.resource
    same_resource r a (inl e) = ap (λ x. x.request.resource) (sym e)
    same_resource r a (inr m) = absurd m
