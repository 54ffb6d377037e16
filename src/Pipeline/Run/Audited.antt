-- ===== src/Pipeline/Run/Audited.antt =====
-- What a request leaves in the history: the courses that `run` and `execute_approved` can take, each
-- with its response. The latest event stands first.
use guardmcp.Prelude.{
  ◌≡◌, refl, ap, ◌∙◌, inl, inr, true, Option, none, some, List, [], ◌∷◌, ◌++◌, Member, Bool-cases,
  subst,
}
use guardmcp.Json.{Value, Fields}
use guardmcp.Domain.{DecisionStatus, Decision, Request, Reason}
use guardmcp.Dict.{lookup-insert_self}
use guardmcp.Policy.{Policy}
use guardmcp.Approvals
use guardmcp.Approvals.{Status, Op, resolves, Draft}
use guardmcp.Approvals.Laws.{wait_for_decision-approved}
use guardmcp.Backend.{Execution, returned, type_marshal_error, failed}
use guardmcp.Pipeline.{Env, evaluate}
use guardmcp.Pipeline.Evaluation.{evaluate-Keeps}
use guardmcp.Pipeline.Execute.{
  AuditStatus, AuditRecord, Event, audited, executed, State, audit_status,
}
use guardmcp.Pipeline.Run
use guardmcp.Pipeline.Run.{
  Draws, build_success, limited, execute_and_build, run, execute_approved, ask_human, after_human,
  by_status, settle, escalate, approve, escalated,
}
use guardmcp.Pipeline.Run.Courses.{
  Course, IsOf, Ending, answered, raised, throttled, broken, denied, allowed, declined, approved,
  Adds, record_of, record_of-IsOf,
}

append_one : (es : List Event) (a : Event) (h : List Event) → es ++ a ∷ h ≡ (es ++ a ∷ []) ++ h
append_one [] a h = refl
append_one (x ∷ es) a h = rw (append_one es a h)

append_two :
    (es : List Event) (a b : Event) (h : List Event) → es ++ a ∷ b ∷ h ≡ (es ++ a ∷ b ∷ []) ++ h
append_two [] a b h = refl
append_two (x ∷ es) a b h = rw (append_two es a b h)

module _ (env : Env) (req : Request) where
  success-Ending :
      (policy : Option Policy) (raw : Value) (params : Fields)
      → Ending req
          (build_success raw req.action policy req.collection req.database)
          (executed req.collection req.action params req.database ∷ [])
  unfolding build_success
  success-Ending none raw params = answered
  success-Ending (some policy) raw params = answered

  conclude-Ending :
      (policy : Option Policy) (o : Execution) (params : Fields) (s : State)
      → Adds
          (λ response es.
            Ending req response (es ++ executed req.collection req.action params req.database ∷ []))
          (Run.conclude env req policy o)
          s
  conclude-Ending policy (returned raw) params s = ([], refl, success-Ending policy raw params)
  conclude-Ending policy (type_marshal_error text) params s = (
    audited _ ∷ [],
    refl,
    raised (record_of-IsOf req policy (Reason.message text) none AuditStatus.error),
  )
  conclude-Ending policy (failed text) params s = (
    audited _ ∷ [],
    refl,
    raised (
        record_of-IsOf req policy (Reason.message (Run.safe_message env.executor text)) none
          AuditStatus.error),
  )

  execute_and_build-Ending :
      (policy : Option Policy) (s : State) → Adds (Ending req) (execute_and_build env req policy) s
  unfolding execute_and_build
  execute_and_build-Ending policy s =
      let params = Run.inject req policy in
      let event = executed req.collection req.action params req.database in
      let (es, h, ending) =
        conclude-Ending policy (env.executor.execute req.collection req.action params req.database)
          params (record s { history = event ∷ s.history }) in
      (es ++ event ∷ [], h ∙ append_one es event s.history, ending)

  module _ (d : Draws) (s : State) where
    after_human-Course :
        (policy : Option Policy) (decision : Decision) (outcome : Status) (r : AuditRecord)
        (before : State)
        → IsOf req AuditStatus.approval_required r
        → (outcome ≡ Status.approved → Member (resolves d.approval_id true) d.waiting)
        → before.history ≡ audited r ∷ s.history
        → (es : List Event) × ((Run.after_human env req policy decision outcome before).1.history
            ≡ es ++ s.history)
          × Course req d.approval_id d.waiting
              (some (Run.after_human env req policy decision outcome before).0)
              es
    after_human-Course policy decision Status.approved r before is h e =
        let r' = record_of req policy Reason.human_approved decision.risk AuditStatus.approved in
        let (es, added, ending) =
          execute_and_build-Ending policy
            (record before { history = audited r' ∷ before.history }) in
        (
          es ++ audited r' ∷ audited r ∷ [],
          added
              ∙ ap (λ l. es ++ audited r' ∷ l) e
              ∙ append_two es (audited r') (audited r) s.history,
          approved is (record_of-IsOf req policy Reason.human_approved decision.risk _) (h refl)
              ending,
        )
    after_human-Course policy decision _ r before is h e = (
      audited _ ∷ audited r ∷ [],
      ap
          (λ l.
            audited
              (record_of req policy Reason.declined_or_timed_out decision.risk AuditStatus.denied)
            ∷ l)
          e,
      declined is (record_of-IsOf req policy Reason.declined_or_timed_out decision.risk _),
    )

    ask_human-approved :
        (decision : Decision) (before : State)
        → (ask_human req decision d before).0 ≡ Status.approved
        → Member (resolves d.approval_id true) d.waiting
    unfolding Approvals.create
    ask_human-approved decision before e =
        wait_for_decision-approved d.approval_id d.waiting _ (rw lookup-insert_self (λ e. cc)) e

    by_status-Course :
        (policy : Option Policy) (decision : Decision) (st : DecisionStatus) (r : AuditRecord)
        → IsOf req (audit_status st) r
        → (es : List Event) × ((by_status env req policy decision d st
              (record s { history = audited r ∷ s.history })).1.history
            ≡ es ++ s.history)
          × Course req d.approval_id d.waiting
              (some
                (by_status env req policy decision d st
                  (record s { history = audited r ∷ s.history })).0)
              es
    unfolding by_status
    by_status-Course policy decision DecisionStatus.denied r is = (audited r ∷ [], refl, denied is)
    by_status-Course policy decision DecisionStatus.allowed r is =
        let (es, added, ending) =
          execute_and_build-Ending policy (record s { history = audited r ∷ s.history }) in
        (es ++ audited r ∷ [], added ∙ append_one es (audited r) s.history, allowed is ending)
    by_status-Course policy decision DecisionStatus.approval_required r is =
        let before = record s { history = audited r ∷ s.history } in
        let asked = ask_human req decision d before in
        after_human-Course policy decision asked.0 r asked.1 is (ask_human-approved decision before)
          refl

    escalate-Course :
        (policy : Option Policy) (first : Decision) (o : Option Decision)
        → Adds
            (Course req d.approval_id d.waiting)
            (escalate env (record { request = req; decision = first; policy = policy }) d o)
            s
    unfolding escalate settle
    escalate-Course policy first none = ([], refl, broken)
    escalate-Course policy first (some decision) =
        by_status-Course policy decision decision.status _
          (record_of-IsOf req policy decision.reason decision.risk (audit_status decision.status))

-- Every run takes one of six courses: a throttled one leaves nothing; one that is broken off has no
-- response and leaves nothing; a denied one leaves one record;
-- an allowed one is recorded before its only backend call; one that needs approval is recorded, and
-- then either it is recorded as denied and the backend is not called, or, while it waited, its
-- approval was resolved as approved, which is recorded before the only backend call; a call that
-- raises is recorded after it.
pub run-Course :
    (env : Env) (request : Request) (d : Draws) (s : State)
    → Adds (Course request d.approval_id d.waiting) (run env request d) s
unfolding run
run-Course env request d s = elim (Bool-cases (limited d)) [
  | inl hit ↦ rw hit ([], refl, throttled)
  | inr miss ↦
      let result = (evaluate env request none none).0 in
      rw miss (
        subst
          (λ req.
            Adds (Course req d.approval_id d.waiting) (escalate env result d (escalated env result))
              s)
          (evaluate-Keeps env request none none).0
          (escalate-Course env result.request d s result.policy result.decision
            (escalated env result)))
]
