-- ===== src/Policy/Engine.antt =====
-- core/policy/engine.py and core/policy/trace.py: the rules in their order, each of which records
-- its step in the trace, if there is one, and may end the evaluation by a decision.
-- `collection_permitted` is in core/validation.py.
pub mod Laws
pub mod Tracing
use guardmcp.Prelude.{
  String, Bool, true, false, Option, none, some, List, [], ◌∷◌, ◌++◌, ◌&&◌, not, elem, is_empty,
  if◌then◌else◌,
}
use guardmcp.Domain.{
  Action, value, is_write, is_db_level, RiskLevel, is_high, is_critical, DecisionStatus, allowed,
  denied, approval_required, Request, ErrorCode, Reason, Decision,
}
use guardmcp.Policy.{Policy, Mode, DatabaseScope, scope_for}

unfoldable pub collection_permitted : String → (allow deny : List String) → Bool
collection_permitted name allow deny =
    if elem name deny then false else if elem "*" allow then true else elem name allow

pub data Outcome : Type 0 where
  matched passed skipped : Outcome

-- The free-text detail of a step is left out.
pub record TraceStep : Type 0 where
  pub stage : String
  pub rule : String
  pub result : Outcome

-- `trace: PolicyTrace | None`
abbrev pub Trace : Type 0
Trace = Option (List TraceStep)

-- `if trace is not None: trace.add(…)`
unfoldable pub add : (stage rule : String) → Outcome → Trace → Trace
add stage rule result none = none
add stage rule result (some steps) =
    some (steps ++ record { stage = stage; rule = rule; result = result } ∷ [])

-- A rule returns a decision, by which the evaluation returns early, or falls through.
abbrev pub Rule : Type 0
Rule = Trace → Option Decision × Trace

infixl 5 ◌>>◌
abbrev pub ◌>>◌ : Rule → Rule → Rule
◌>>◌ m k t = let (o, t') = m t in elim o [ none ↦ k t' | some d ↦ (some d, t') ]

-- A rule's test: what it records and decides where it matches, and what it records where not.
abbrev pub test : Bool → (stage rule : String) → Decision → (passing : Trace → Trace) → Rule
test hit stage rule decision passing t =
    if hit then (some decision, add stage rule matched t) else (none, passing t)

abbrev pub deny : RiskLevel → Reason → ErrorCode → Decision
deny risk reason code = record {
  status = denied;
  reason = reason;
  risk = some risk;
  code = some code;
}

abbrev pub ask : RiskLevel → Action → Decision
ask risk action = record {
  status = approval_required;
  reason = Reason.needs_approval action risk;
  risk = some risk;
  code = none;
}

abbrev pub permit : RiskLevel → Decision
permit risk = record { status = allowed; reason = Reason.permitted; risk = some risk; code = none }

abbrev pub is_readonly : Mode → Bool
is_readonly Mode.readonly = true
is_readonly Mode.readwrite = false

module _ (request : Request) (policy : Policy) (risk : RiskLevel) (scope : DatabaseScope) where
  -- Rule 1: readonly mode blocks all writes.
  readonly_rule : Rule
  readonly_rule =
      test (is_readonly policy.mode && is_write request.action) "policy" "readonly_mode"
        (deny risk (Reason.readonly_blocks request.action) ErrorCode.readonly)
        (add "policy" "readonly_mode" passed)

  collection_reason : Reason
  collection_reason =
      if elem request.collection scope.collections.deny
      then Reason.collection_denied request.collection
      else Reason.collection_unlisted request.collection scope.collections.allow

  -- Rules 2 and 3: the collection, except for actions on the whole database.
  collection_rule : Rule
  unfolding collection_reason
  collection_rule t =
      if is_db_level request.action
      then (none, add "policy" "collection_access" skipped t)
      else test
          (not (
            collection_permitted request.collection scope.collections.allow scope.collections.deny))
          "policy" "collection_access"
          (deny risk collection_reason ErrorCode.collection_not_allowed)
          (add "policy" "collection_access" passed) t

  -- Rule 4: actions denied by name.
  action_deny_rule : Rule
  action_deny_rule =
      test (elem (value request.action) policy.actions.deny) "policy" "action_deny"
        (deny risk (Reason.action_denied request.action policy.actions.deny)
          ErrorCode.action_not_allowed)
        (add "policy" "action_deny" passed)

  -- Rule 5: the allow-list of actions, if there is one.
  action_allow_rule : Rule
  action_allow_rule =
      test
        (not (is_empty policy.actions.allow)
          && not (elem (value request.action) policy.actions.allow))
        "policy" "action_allow"
        (deny risk (Reason.action_unlisted request.action policy.actions.allow)
          ErrorCode.action_not_allowed)
        (add "policy" "action_allow" passed)

  -- Rule 6: the approval gates.
  critical_gate : Rule
  critical_gate =
      test (is_critical risk && policy.approval.critical) "approval" "approval_critical"
        (ask risk request.action) (λ t. t)

  high_gate : Rule
  high_gate =
      test (is_high risk && policy.approval.high) "approval" "approval_high"
        (ask risk request.action) (add "approval" "approval_gate" passed)

  default_allow : Rule
  default_allow t = (some (permit risk), add "policy" "default_allow" matched t)

  rules : Rule
  rules =
      readonly_rule >> collection_rule >> action_deny_rule >> action_allow_rule >> critical_gate
      >> high_gate >> default_allow

-- The last rule always decides, so that the other case is never met.
abbrev pub decided : RiskLevel → Option Decision → Decision
decided risk none = permit risk
decided risk (some d) = d

-- `PolicyEngine.evaluate`: the decision, and the trace after it.
unfoldable pub evaluate :
    (request : Request) (policy : Policy) (risk : RiskLevel) (trace : Trace)
    (database : Option String)
    → Decision × Trace
unfolding rules readonly_rule collection_rule action_deny_rule action_allow_rule critical_gate
    high_gate default_allow
evaluate request policy risk trace database =
    let (o, t) = rules request policy risk (scope_for policy database) trace in (decided risk o, t)
