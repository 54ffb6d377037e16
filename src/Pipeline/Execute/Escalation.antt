-- ===== src/Pipeline/Execute/Escalation.antt =====
-- What the cost escalation may change in a decision (core/pipeline.py, `_maybe_escalate_for_cost`).
use guardmcp.Prelude.{
  ◌≤◌, ◌<◌, ◌≡◌, ◌≢◌, ◌⊎◌, refl, ap, inl, inr, Bool, true, false, Option, none, some, arith,
  Bool-cases, subst, ◌||◌, not,
}
use guardmcp.Domain.{RiskLevel, Decision, allowed, denied, approval_required, Request}
use guardmcp.Cost.{CostLevel, CostEstimate}
use guardmcp.Risk.{order, escalate_for_cost}
use guardmcp.Risk.Laws.{escalate_for_cost-least}
use guardmcp.Policy.{Policy}
use guardmcp.Policy.Engine.Laws.{NeedsApproval}
use guardmcp.Backend.{Plugin}
use guardmcp.Pipeline.{Env}
use guardmcp.Pipeline.Execute.{
  same_risk, base_risk_of, at_risk, is_denied, estimable, cost_capability, with_risk, with_reached,
  with_estimate, with_plugin, with_max_cost, maybe_escalate_for_cost,
}

escalate_for_cost-le :
    (base : RiskLevel) (cost : CostEstimate) → order base ≤ order (escalate_for_cost base cost)
escalate_for_cost-le base cost =
    ((escalate_for_cost-least base cost (escalate_for_cost base cost)).0 (omega arith)).0

same_risk-order : (a b : RiskLevel) → same_risk b a ≡ false → order a ≤ order b → order a < order b
same_risk-order a b h le = ground arith

-- The decision with a risk above its own, or above that of the request if it has none. An allowed
-- decision needs approval exactly where the policy asks for it at that risk; else the status stays.
pub record Raised (decision : Decision) (policy : Policy) (req : Request) (risk : RiskLevel)
    (d : Decision) : Type 0 where
  pub higher : order (base_risk_of decision.risk req) < order risk
  pub at : d.risk ≡ some risk
  pub code : d.code ≡ decision.code
  pub asks : decision.status ≡ allowed → NeedsApproval policy risk → d.status ≡ approval_required
  pub keeps :
      (decision.status ≢ allowed) ⊎ (¬ NeedsApproval policy risk) → d.status ≡ decision.status

abbrev pub Escalated : Decision → Policy → Request → Decision → Type 0
Escalated decision policy req d =
    (d ≡ decision) ⊎ ((risk : RiskLevel) × Raised decision policy req risk d)

at_risk-Raised :
    (decision : Decision) (policy : Policy) (req : Request) (risk : RiskLevel)
    → order (base_risk_of decision.risk req) < order risk
    → Raised decision policy req risk (at_risk decision policy risk)
unfolding at_risk
at_risk-Raised decision policy req risk h = record {
  higher = h;
  at = ground arith;
  code = ground arith;
  asks = λ e n. ground arith;
  keeps = λ k. ground arith;
}

module _ (decision : Decision) (policy : Policy) (req : Request) where
  risk_step :
      (risk : RiskLevel)
      → order (base_risk_of decision.risk req) ≤ order risk
      → Escalated decision policy req
          (with_risk decision policy (base_risk_of decision.risk req) risk)
  unfolding with_risk
  risk_step risk le = elim (Bool-cases (same_risk risk (base_risk_of decision.risk req))) [
    | inl same ↦ rw same (inl refl)
    | inr other ↦ rw other (
        inr (
          risk,
          at_risk-Raised decision policy req risk
              (same_risk-order (base_risk_of decision.risk req) risk other le),
        ))
  ]

  reached_step :
      (estimate : CostEstimate) (o : Option Bool) (d : Decision)
      → with_reached decision policy req estimate o ≡ some d
      → Escalated decision policy req d
  unfolding with_reached
  reached_step estimate none d e = cc e
  reached_step estimate (some false) d e = inl (cc e)
  reached_step estimate (some true) d e =
      let base = base_risk_of decision.risk req in
      subst (Escalated decision policy req) (cc e)
        (risk_step (escalate_for_cost base estimate) (escalate_for_cost-le base estimate))

  estimate_step :
      (max_cost : CostLevel) (o : Option CostEstimate) (d : Decision)
      → with_estimate decision policy max_cost req o ≡ some d
      → Escalated decision policy req d
  unfolding with_estimate
  estimate_step max_cost none d e = inl (cc e)
  estimate_step max_cost (some estimate) d e = reached_step estimate _ d e

  plugin_step :
      (max_cost : CostLevel) (o : Option Plugin) (d : Decision)
      → with_plugin decision policy max_cost req o ≡ some d
      → Escalated decision policy req d
  unfolding with_plugin
  plugin_step max_cost none d e = inl (cc e)
  plugin_step max_cost (some plugin) d e = estimate_step max_cost _ d e

  max_cost_step :
      (env : Env) (o : Option CostLevel) (d : Decision)
      → with_max_cost env decision policy req o ≡ some d
      → Escalated decision policy req d
  unfolding with_max_cost
  max_cost_step env none d e = inl (cc e)
  max_cost_step env (some max_cost) d e =
      elim (Bool-cases
        (is_denied decision.status || not (estimable (cost_capability req.action)))) [
          | inl skip ↦ inl (cc (rw skip at e))
          | inr go ↦ plugin_step max_cost env.plugin d (rw go at e)
        ]

  max_cost_denied :
      (env : Env) (o : Option CostLevel)
      → decision.status ≡ denied
      → with_max_cost env decision policy req o ≡ some decision
  unfolding with_max_cost
  max_cost_denied env none h = refl
  max_cost_denied env (some max_cost) h = ground arith

  plugin_none :
      (max_cost : CostLevel) (o : Option Plugin)
      → with_plugin decision policy max_cost req o ≡ none
      → max_cost ≡ CostLevel.unknown
  unfolding with_plugin with_estimate with_reached
  plugin_none max_cost none e = cc e
  plugin_none max_cost (some plugin) e = ground arith

  max_cost_none :
      (env : Env) (o : Option CostLevel)
      → with_max_cost env decision policy req o ≡ none
      → o ≡ some CostLevel.unknown
  unfolding with_max_cost
  max_cost_none env none e = cc e
  max_cost_none env (some max_cost) e =
      elim (Bool-cases
        (is_denied decision.status || not (estimable (cost_capability req.action)))) [
          | inl skip ↦ cc (rw skip at e)
          | inr go ↦ ap some (plugin_none max_cost env.plugin (rw go at e))
        ]

-- The escalation, where it does not raise, leaves the decision as it is, or raises its risk, above
-- the risk that it had: then an allowed decision needs approval exactly where the policy asks for it
-- at the new risk, and every other status stays. It never denies, and never lowers a risk.
pub maybe_escalate_for_cost-Escalated :
    (env : Env) (decision d : Decision) (policy : Policy) (req : Request)
    → maybe_escalate_for_cost env decision policy req ≡ some d
    → Escalated decision policy req d
unfolding maybe_escalate_for_cost
maybe_escalate_for_cost-Escalated env decision d policy req e =
    max_cost_step decision policy req env policy.max_cost d e

-- A denied decision stays as it is.
pub maybe_escalate_for_cost-denied :
    (env : Env) (decision : Decision) (policy : Policy) (req : Request)
    → decision.status ≡ denied
    → maybe_escalate_for_cost env decision policy req ≡ some decision
unfolding maybe_escalate_for_cost
maybe_escalate_for_cost-denied env decision policy req h =
    max_cost_denied decision policy req env policy.max_cost h

-- The escalation raises only where the policy's threshold is UNKNOWN.
pub maybe_escalate_for_cost-raises :
    (env : Env) (decision : Decision) (policy : Policy) (req : Request)
    → maybe_escalate_for_cost env decision policy req ≡ none
    → policy.max_cost ≡ some CostLevel.unknown
unfolding maybe_escalate_for_cost
maybe_escalate_for_cost-raises env decision policy req e =
    max_cost_none decision policy req env policy.max_cost e
