-- ===== src/Pipeline/Run/Courses.antt =====
-- The courses of a request, and what each of them records (core/pipeline.py).
use guardmcp.Prelude.{String, ◌≡◌, refl, true, Option, none, some, List, [], ◌∷◌, ◌++◌, Member}
use guardmcp.Json.{Value, Fields}
use guardmcp.Domain.{value, RiskLevel, Request, ErrorCode, Reason}
use guardmcp.Policy.{Policy}
use guardmcp.Approvals.{Op, resolves}
use guardmcp.Neutral.{Neutral}
use guardmcp.Pipeline.Execute.{
  AuditStatus, AuditRecord, audit_params, Event, audited, executed, Response, denial, failure,
  success, State, M,
}

-- The record is of this request, with this status. It never names the database.
pub record IsOf (req : Request) (outcome : AuditStatus) (r : AuditRecord) : Type 0 where
  pub agent : r.agent ≡ req.agent
  pub collection : r.collection ≡ req.collection
  pub action : r.action ≡ value req.action
  pub status : r.status ≡ outcome
  pub request_id : r.request_id ≡ some req.request_id
  pub database : r.database ≡ none

-- The backend is called once, and a call that raises is recorded.
pub data Ending (req : Request) : Response → List Event → Type 0 where
  answered :
      {data_ : Value} {neutral : Neutral} {params : Fields}
      → Ending req
          (success data_ neutral)
          (executed req.collection req.action params req.database ∷ [])
  raised :
      {reason : Reason} {code : ErrorCode} {params : Fields} {r : AuditRecord}
      → IsOf req AuditStatus.error r
      → Ending req
          (failure reason code)
          (audited r ∷ executed req.collection req.action params req.database ∷ [])

-- The courses of `run`, where the approval has this id and these are the operations of other tasks
-- while it waits.
pub data Course (req : Request) (id : String) (waiting : List Op)
    : Option Response → List Event → Type 0 where
  throttled :
      Course req id waiting
        (some (failure (Reason.rate_limit_exceeded req.agent) ErrorCode.rate_limited))
        []
  broken : Course req id waiting none []
  denied :
      {reason : Reason} {code : Option ErrorCode} {r : AuditRecord}
      → IsOf req AuditStatus.denied r
      → Course req id waiting (some (denial reason code)) (audited r ∷ [])
  allowed :
      {response : Response} {es : List Event} {r : AuditRecord}
      → IsOf req AuditStatus.allowed r
      → Ending req response es
      → Course req id waiting (some response) (es ++ audited r ∷ [])
  declined :
      {r r' : AuditRecord}
      → IsOf req AuditStatus.approval_required r
      → IsOf req AuditStatus.denied r'
      → Course req id waiting
          (some (denial Reason.declined_or_timed_out (some ErrorCode.approval_declined)))
          (audited r' ∷ audited r ∷ [])
  approved :
      {response : Response} {es : List Event} {r r' : AuditRecord}
      → IsOf req AuditStatus.approval_required r
      → IsOf req AuditStatus.approved r'
      → Member (resolves id true) waiting
      → Ending req response es
      → Course req id waiting (some response) (es ++ audited r' ∷ audited r ∷ [])

-- The events that an action adds, with what holds of its answer and of them.
abbrev pub Adds : {A : Type 0} → (A → List Event → Type 0) → M A → State → Type 0
Adds P m s = (es : List Event) × ((m s).1.history ≡ es ++ s.history) × P (m s).0 es

module _ (req : Request) (policy : Option Policy) (reason : Reason) (risk : Option RiskLevel) where
  abbrev pub record_of : AuditStatus → AuditRecord
  record_of outcome = record {
    agent = req.agent;
    collection = req.collection;
    action = value req.action;
    status = outcome;
    reason = some reason;
    risk = risk;
    request_id = some req.request_id;
    params = some (audit_params req policy);
    database = none;
  }

  pub record_of-IsOf : (outcome : AuditStatus) → IsOf req outcome (record_of outcome)
  record_of-IsOf outcome = record {
    agent = refl;
    collection = refl;
    action = refl;
    status = refl;
    request_id = refl;
    database = refl;
  }
