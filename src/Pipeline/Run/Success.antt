-- ===== src/Pipeline/Run/Success.antt =====
-- What a successful response rests on, and what a denied request leaves.
use guardmcp.Prelude.{◌≡◌, ◌≢◌, refl, ◌∙◌, inl, inr, Option, none, some, Bool-cases, subst}
use guardmcp.Json.{Value}
use guardmcp.Domain.{DecisionStatus, Decision, Request}
use guardmcp.Policy.{Policy}
use guardmcp.Approvals.{Status}
use guardmcp.Neutral.{Neutral, neutralize}
use guardmcp.Backend.{Execution, returned, type_marshal_error, failed}
use guardmcp.Pipeline.{Env, EvalResult, evaluate}
use guardmcp.Pipeline.Evaluation.{Admits, evaluate-Admitted_iff, evaluate-Keeps}
use guardmcp.Pipeline.Execute.{Response, success, State}
use guardmcp.Pipeline.Execute.Escalation.{maybe_escalate_for_cost-denied}
use guardmcp.Pipeline.Run
use guardmcp.Pipeline.Run.{
  Draws, limited, inject, masked_data, build_success, execute_and_build, escalated, ask_human,
  by_status, settle, escalate, run, approve, execute_approved,
}

-- The backend answered the request's call, and the response shows its answer as `build_success` does.
abbrev pub Shows : Env → Request → Option Policy → Response → Type 0
Shows env req policy response =
    (raw : Value) × (env.executor.execute req.collection req.action (inject req policy) req.database
      ≡ returned raw)
    × (build_success raw req.action policy req.collection req.database ≡ response)

some_injective : {A : Type 0} {a b : A} → some a ≡ some b → a ≡ b
some_injective e = cc e

module _ (env : Env) (req : Request) (v : Value) (n : Neutral) where
  conclude-Shows :
      (policy : Option Policy) (o : Execution) (s : State)
      → env.executor.execute req.collection req.action (inject req policy) req.database ≡ o
      → (Run.conclude env req policy o s).0 ≡ success v n
      → Shows env req policy (success v n)
  conclude-Shows policy (returned raw) s h e = (raw, h, e)
  conclude-Shows policy (type_marshal_error text) s h e = cc e
  conclude-Shows policy (failed text) s h e = cc e

  execute_and_build-Shows :
      (policy : Option Policy) (s : State)
      → (execute_and_build env req policy s).0 ≡ success v n
      → Shows env req policy (success v n)
  unfolding execute_and_build
  execute_and_build-Shows policy s e = conclude-Shows policy _ _ refl e

  after_human-Shows :
      (policy : Option Policy) (decision : Decision) (outcome : Status) (s : State)
      → (Run.after_human env req policy decision outcome s).0 ≡ success v n
      → Shows env req policy (success v n)
  after_human-Shows policy decision Status.approved s e = execute_and_build-Shows policy _ e
  after_human-Shows policy decision _ s e = cc e

  by_status-Shows :
      (policy : Option Policy) (decision : Decision) (d : Draws) (st : DecisionStatus) (s : State)
      → (by_status env req policy decision d st s).0 ≡ success v n
      → (st ≢ DecisionStatus.denied) × Shows env req policy (success v n)
  unfolding by_status
  by_status-Shows policy decision d DecisionStatus.denied s e = cc e
  by_status-Shows policy decision d DecisionStatus.allowed s e =
      ((λ q. cc), execute_and_build-Shows policy s e)
  by_status-Shows policy decision d DecisionStatus.approval_required s e =
      ((λ q. cc), after_human-Shows policy decision _ _ e)

  settle-Shows :
      (policy : Option Policy) (first decision : Decision) (d : Draws) (s : State)
      → (settle env (record { request = req; decision = first; policy = policy }) d decision s).0
        ≡ success v n
      → (decision.status ≢ DecisionStatus.denied) × Shows env req policy (success v n)
  unfolding settle
  settle-Shows policy first decision d s e = by_status-Shows policy decision d decision.status _ e

  escalate-Shows :
      (policy : Option Policy) (first : Decision) (d : Draws) (o : Option Decision) (s : State)
      → (escalate env (record { request = req; decision = first; policy = policy }) d o s).0
        ≡ some (success v n)
      → (decision : Decision) × (o ≡ some decision)
        × (decision.status ≢ DecisionStatus.denied)
        × Shows env req policy (success v n)
  unfolding escalate
  escalate-Shows policy first d none s e = cc e
  escalate-Shows policy first d (some decision) s e =
      let (undenied, shows) = settle-Shows policy first decision d s (some_injective e) in
      (decision, refl, undenied, shows)

pub escalated-denied :
    (env : Env) (result : EvalResult) (policy : Option Policy)
    → result.policy ≡ policy
    → result.decision.status ≡ DecisionStatus.denied
    → escalated env result ≡ some result.decision
escalated-denied env result none p h = rw p refl
escalated-denied env result (some policy) p h =
    rw p (maybe_escalate_for_cost-denied env result.decision policy result.request h)

shown :
    (env : Env) (req : Request) (policy : Policy) (v : Value) (n : Neutral)
    → Shows env req (some policy) (success v n)
    → (raw : Value) × (env.executor.execute req.collection req.action
          (inject req (some policy))
          req.database
        ≡ returned raw)
      × (v ≡ masked_data raw req.action policy req.collection req.database)
      × (n ≡ neutralize req.action v)
unfolding build_success
shown env req policy v n (raw, h, e) = (raw, h, cc e, cc e)

-- The answer to a request under the agent's policy as it is loaded, which admits the request: what
-- the backend returned, masked by the policy, and its neutral view.
abbrev pub Answered : Env → Request → Value → Neutral → Type 0
Answered env request v n =
    (policy : Policy) × (raw : Value) × (env.policies request.agent ≡ some policy)
    × Admits env request policy
    × (env.executor.execute request.collection request.action (inject request (some policy))
          request.database
        ≡ returned raw)
    × (v ≡ masked_data raw request.action policy request.collection request.database)
    × (n ≡ neutralize request.action v)

-- A run succeeds only if its agent's policy is loaded and admits the request, and the backend
-- answered: what it returns is the answer, masked by that policy, and the neutral view of that.
pub run-success :
    (env : Env) (request : Request) (d : Draws) (s : State) (v : Value) (n : Neutral)
    → (run env request d s).0 ≡ some (success v n)
    → Answered env request v n
unfolding run
run-success env request d s v n e = elim (Bool-cases (limited d)) [
  | inl hit ↦ cc (rw hit at e)
  | inr miss ↦
      let result = (evaluate env request none none).0 in
      let (kept, same) = evaluate-Keeps env request none none in
      let (decision, q, undenied, shows) =
        escalate-Shows env result.request v n result.policy result.decision d (escalated env result)
          s (rw miss at e) in
      let (policy, loaded, admits) =
        (evaluate-Admitted_iff env request none none).0
          (λ h. undenied (cc (h, q, escalated-denied env result result.policy refl h))) in
      let (raw, answer, v_is, n_is) = shown env request policy v n (
        subst (λ r. Shows env r (some policy) (success v n)) kept
          (subst (λ p. Shows env result.request p (success v n)) (same ∙ loaded) shows)) in
      (policy, raw, loaded, admits, answer, v_is, n_is)
]

approve-Shows :
    (env : Env) (req : Request) (decision : Decision) (policy : Option Policy) (st : DecisionStatus)
    (s : State) (v : Value) (n : Neutral)
    → (approve env req decision policy st s).0 ≡ success v n
    → (st ≢ DecisionStatus.denied) × Shows env req policy (success v n)
unfolding approve
approve-Shows env req decision policy DecisionStatus.denied s v n e = cc e
approve-Shows env req decision policy DecisionStatus.allowed s v n e =
    ((λ q. cc), execute_and_build-Shows env req v n policy _ e)
approve-Shows env req decision policy DecisionStatus.approval_required s v n e =
    ((λ q. cc), execute_and_build-Shows env req v n policy _ e)

-- What a human confirmed succeeds only if the policy that is loaded by then admits the request,
-- whatever the earlier evaluation said; the answer is masked by that policy.
pub execute_approved-success :
    (env : Env) (eval_result : EvalResult) (s : State) (v : Value) (n : Neutral)
    → (execute_approved env eval_result s).0 ≡ success v n
    → Answered env eval_result.request v n
unfolding execute_approved
execute_approved-success env eval_result s v n e =
    let request = eval_result.request in
    let fresh = (evaluate env request none none).0 in
    let (kept, same) = evaluate-Keeps env request none none in
    let (undenied, shows) =
      approve-Shows env request fresh.decision fresh.policy fresh.decision.status s v n e in
    let (policy, loaded, admits) = (evaluate-Admitted_iff env request none none).0 undenied in
    let (raw, answer, v_is, n_is) =
      shown env request policy v n
        (subst (λ p. Shows env request p (success v n)) (same ∙ loaded) shows) in
    (policy, raw, loaded, admits, answer, v_is, n_is)
