-- ===== src/Examples/Waits.antt =====
-- An approval store over a few steps.
use guardmcp.Prelude.{◌≡◌, ◌⊎◌, refl, true, false, none, some, [], ◌∷◌, Member}
use guardmcp.Dict.{lookup, Distinct}
use guardmcp.Json.{end}
use guardmcp.Domain.{RiskLevel, Reason}
use guardmcp.Approvals
use guardmcp.Approvals.{
  Status, is_pending, ApprovalRequest, ApprovalStore, Op, resolves, shuts_down, shutdown, prune,
  perform, wait_for_decision,
}
use guardmcp.Approvals.Laws.{wait_for_decision-approved}
use guardmcp.Approvals.Final.{perform-final}

abbrev asked : Status → ApprovalRequest
asked status = record {
  approval_id = "a1";
  agent = "analyst";
  action = "insert_one";
  collection = "users";
  risk = RiskLevel.high;
  reason = Reason.permitted;
  params = end;
  created_at = 5;
  status = status;
}

abbrev holding : Status → ApprovalStore
holding status = record { store = ("a1", asked status) ∷ []; events = ("a1", false) ∷ [] }

asked_pending : Approvals.status_of (lookup "a1" (holding Status.pending).store) ≡ Status.pending
unfolding lookup
asked_pending = refl

wait_for_decision-approved_example : Member (resolves "a1" true) (resolves "a1" true ∷ [])
unfolding wait_for_decision lookup Approvals.await_event perform Approvals.resolve
    guardmcp.Dict.modify
wait_for_decision-approved_example =
    wait_for_decision-approved "a1" (resolves "a1" true ∷ []) (holding Status.pending)
      (λ e. cc (asked_pending, e)) refl

perform-final_example :
    (lookup "a1" (perform (resolves "a1" true) (holding Status.denied)).store
      ≡ some (asked Status.denied))
    ⊎ (lookup "a1" (perform (resolves "a1" true) (holding Status.denied)).store ≡ none)
unfolding lookup
perform-final_example =
    perform-final (resolves "a1" true) (holding Status.denied) "a1" (asked Status.denied) (refl, tt)
      (λ d e. cc) refl refl
