-- ===== src/Pipeline/Run/Refused.antt =====
-- What a request leaves that the policy refuses: one record, and no call of the backend.
use guardmcp.Prelude.{◌≡◌, refl, ap, false, Option, none, some, ◌∷◌, subst}
use guardmcp.Domain.{DecisionStatus, Decision, Request, Reason}
use guardmcp.Policy.{Policy}
use guardmcp.Pipeline.{Env, EvalResult, evaluate}
use guardmcp.Pipeline.Evaluation.{evaluate-Keeps}
use guardmcp.Pipeline.Execute.{denial, State, AuditStatus, audit_status, AuditRecord, audited}
use guardmcp.Pipeline.Run.{
  Draws, limited, by_status, settle, escalate, run, approve, execute_approved,
}
use guardmcp.Pipeline.Run.Courses.{IsOf, record_of-IsOf}
use guardmcp.Pipeline.Run.Success.{escalated-denied}

-- The answer is this refusal; one record of it is added, and nothing else changes.
abbrev pub Refuses : {A : Type 0} → Request → State → (refusal : A) → A × State → Type 0
Refuses req s refusal (answer, s') =
    (answer ≡ refusal)
    × ((r : AuditRecord) × IsOf req AuditStatus.denied r × (s'.history ≡ audited r ∷ s.history))
    × (s'.approvals ≡ s.approvals)

by_status-Refuses :
    (env : Env) (req : Request) (policy : Option Policy) (decision : Decision) (d : Draws)
    (s : State) (st : DecisionStatus) (r : AuditRecord)
    → IsOf req (audit_status st) r
    → st ≡ DecisionStatus.denied
    → Refuses req s
        (denial decision.reason decision.code)
        (by_status env req policy decision d st (record s { history = audited r ∷ s.history }))
unfolding by_status
by_status-Refuses env req policy decision d s DecisionStatus.denied r is h =
    (refl, (r, is, refl), refl)
by_status-Refuses env req policy decision d s DecisionStatus.allowed r is h = cc h
by_status-Refuses env req policy decision d s DecisionStatus.approval_required r is h = cc h

settle-Refuses :
    (env : Env) (req : Request) (policy : Option Policy) (decision : Decision) (d : Draws)
    (s : State)
    → decision.status ≡ DecisionStatus.denied
    → Refuses req s
        (denial decision.reason decision.code)
        (settle env (record { request = req; decision = decision; policy = policy }) d decision s)
unfolding settle
settle-Refuses env req policy decision d s h =
    by_status-Refuses env req policy decision d s decision.status _
      (record_of-IsOf req policy decision.reason decision.risk (audit_status decision.status)) h

escalate-Refuses :
    (env : Env) (req : Request) (policy : Option Policy) (decision : Decision) (d : Draws)
    (s : State)
    → decision.status ≡ DecisionStatus.denied
    → Refuses req s (some (denial decision.reason decision.code)) (
        escalate env
          (record { request = req; decision = decision; policy = policy })
          d
          (some decision)
          s)
unfolding escalate
escalate-Refuses env req policy decision d s h =
    let (answer, recorded, kept) = settle-Refuses env req policy decision d s h in
    (ap some answer, recorded, kept)

-- A request that passes the rate limit and that the policy denies is answered with that denial,
-- leaves one record, of the denial, and neither calls the backend nor asks for an approval.
pub run-denied :
    (env : Env) (request : Request) (d : Draws) (s : State)
    → limited d ≡ false
    → (evaluate env request none none).0.decision.status ≡ DecisionStatus.denied
    → let decision = (evaluate env request none none).0.decision in
      Refuses request s (some (denial decision.reason decision.code)) (run env request d s)
unfolding run
run-denied env request d s miss h =
    let result = (evaluate env request none none).0 in
    let refusal = some (denial result.decision.reason result.decision.code) in
    rw (miss, escalated-denied env result result.policy refl h)
      (subst (λ r. Refuses r s refusal (escalate env result d (some result.decision) s))
        (evaluate-Keeps env request none none).0
        (escalate-Refuses env result.request result.policy result.decision d s h))

approve-Refuses :
    (env : Env) (req : Request) (decision : Decision) (policy : Option Policy) (s : State)
    (st : DecisionStatus)
    → st ≡ DecisionStatus.denied
    → Refuses req s (denial decision.reason decision.code) (approve env req decision policy st s)
unfolding approve
approve-Refuses env req decision policy s DecisionStatus.denied h = (
  refl,
  (_, record_of-IsOf req policy (Reason.policy_changed decision.reason) none _, refl),
  refl,
)
approve-Refuses env req decision policy s DecisionStatus.allowed h = cc h
approve-Refuses env req decision policy s DecisionStatus.approval_required h = cc h

-- A confirmed request that the policy denies by then is refused: one record, of the denial, and no
-- call of the backend, whatever the earlier evaluation said.
pub execute_approved-denied :
    (env : Env) (eval_result : EvalResult) (s : State)
    → (evaluate env eval_result.request none none).0.decision.status ≡ DecisionStatus.denied
    → let decision = (evaluate env eval_result.request none none).0.decision in
      Refuses eval_result.request s
        (denial decision.reason decision.code)
        (execute_approved env eval_result s)
unfolding execute_approved
execute_approved-denied env eval_result s h =
    let fresh = (evaluate env eval_result.request none none).0 in
    approve-Refuses env eval_result.request fresh.decision fresh.policy s fresh.decision.status h
