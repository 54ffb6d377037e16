-- ===== src/Policy/Engine/Laws.antt =====
-- When the engine allows, denies and asks.
use guardmcp.Prelude.{
  String, ◌≡◌, ◌≢◌, refl, ◌↔◌, ◌⊎◌, true, false, Option, [], arith, Member, elem-Member,
  Member-elem,
}
use guardmcp.Domain.{
  value, is_write, is_db_level, RiskLevel, high, critical, DecisionStatus, allowed, denied,
  approval_required, Request,
}
use guardmcp.Policy.{Policy, Mode, CollectionPolicy, DatabaseScope, scope_for}
use guardmcp.Policy.Engine.{collection_permitted, Trace, evaluate}

-- Deny wins; else the wildcard or the name itself is on the allow-list.
abbrev pub Permits : CollectionPolicy → String → Type 0
Permits c name = (¬ Member name c.deny) × (Member "*" c.allow ⊎ Member name c.allow)

-- `collection_permitted` decides it: an empty allow-list permits nothing.
pub collection_permitted_iff :
    (c : CollectionPolicy) (name : String)
    → (collection_permitted name c.allow c.deny ≡ true) ↔ Permits c name
unfolding collection_permitted
collection_permitted_iff c name = ground (
  arith,
  elem-Member name c.deny,
  Member-elem name c.deny,
  elem-Member name c.allow,
  Member-elem name c.allow,
  elem-Member "*" c.allow,
  Member-elem "*" c.allow,
)

-- What the policy asks of a request before approvals, in terms of its lists.
pub record IsClear (request : Request) (policy : Policy) (scope : DatabaseScope) : Type 0 where
  pub mode : (policy.mode ≡ Mode.readwrite) ⊎ (is_write request.action ≡ false)
  pub collection :
      (is_db_level request.action ≡ true) ⊎ Permits scope.collections request.collection
  pub not_denied : ¬ Member (value request.action) policy.actions.deny
  pub listed : (policy.actions.allow ≡ []) ⊎ Member (value request.action) policy.actions.allow

-- The policy asks for approval at this risk.
abbrev pub NeedsApproval : Policy → RiskLevel → Type 0
NeedsApproval policy risk =
    ((risk ≡ critical) × (policy.approval.critical ≡ true))
    ⊎ ((risk ≡ high) × (policy.approval.high ≡ true))

-- The three statuses, from what each excludes.
module _ {P Q : Type 0} where
  statuses :
      (s : DecisionStatus)
      → (s ≢ denied → P)
      → (P → s ≢ denied)
      → (s ≡ approval_required → Q)
      → (Q → s ≢ allowed)
      → ((s ≡ denied) ↔ (¬ P)) × ((s ≡ allowed) ↔ (P × (¬ Q))) × ((s ≡ approval_required) ↔ (P × Q))
  statuses allowed p np q nq = (
    ((λ e. cc), (λ h. absurd (h (p (λ e. cc))))),
    ((λ e. (p (λ e'. cc), λ b. nq b refl)), (λ h. refl)),
    ((λ e. cc), (λ h. absurd (nq h.1 refl))),
  )
  statuses denied p np q nq = (
    ((λ e a. np a refl), (λ h. refl)),
    ((λ e. cc), (λ h. absurd (np h.0 refl))),
    ((λ e. cc), (λ h. absurd (np h.0 refl))),
  )
  statuses approval_required p np q nq = (
    ((λ e. cc), (λ h. absurd (h (p (λ e. cc))))),
    ((λ e. cc), (λ h. absurd (h.1 (q refl)))),
    ((λ e. (p (λ e'. cc), q refl)), (λ h. refl)),
  )

module _ (request : Request) (policy : Policy) (risk : RiskLevel) (trace : Trace)
    (db : Option String) where
  pub lists_of_status :
      (evaluate request policy risk trace db).0.status ≢ denied
      → IsClear request policy (scope_for policy db)
  unfolding evaluate
  lists_of_status h = record {
    mode = ground arith;
    collection =
        ground
          (arith, collection_permitted_iff (scope_for policy db).collections request.collection);
    not_denied = ground (arith, Member-elem (value request.action) policy.actions.deny);
    listed = ground (arith, elem-Member (value request.action) policy.actions.allow);
  }

  pub status_of_lists :
      IsClear request policy (scope_for policy db)
      → (evaluate request policy risk trace db).0.status ≢ denied
  unfolding evaluate
  status_of_lists h = ground (
    arith,
    h.mode,
    h.collection,
    collection_permitted_iff (scope_for policy db).collections request.collection,
    h.not_denied,
    elem-Member (value request.action) policy.actions.deny,
    h.listed,
    Member-elem (value request.action) policy.actions.allow,
  )

  status_of_gate :
      (evaluate request policy risk trace db).0.status ≡ approval_required
      → NeedsApproval policy risk
  unfolding evaluate
  status_of_gate h = ground arith

  gate_of_status :
      NeedsApproval policy risk → (evaluate request policy risk trace db).0.status ≢ allowed
  unfolding evaluate
  gate_of_status h = ground arith

  status_laws :
      (((evaluate request policy risk trace db).0.status ≡ denied)
        ↔ (¬ IsClear request policy (scope_for policy db)))
      × (((evaluate request policy risk trace db).0.status ≡ allowed)
          ↔ (IsClear request policy (scope_for policy db) × (¬ NeedsApproval policy risk)))
      × (((evaluate request policy risk trace db).0.status ≡ approval_required)
          ↔ (IsClear request policy (scope_for policy db) × NeedsApproval policy risk))
  status_laws = statuses _ lists_of_status status_of_lists status_of_gate gate_of_status

  -- A request is denied exactly when it is not clear: when the mode forbids its action, its
  -- collection is denied or unlisted, or its action is denied or unlisted. No collection is listed by
  -- an empty list; an empty list of actions lists each.
  pub evaluate-denied_iff :
      ((evaluate request policy risk trace db).0.status ≡ denied)
      ↔ (¬ IsClear request policy (scope_for policy db))
  evaluate-denied_iff = status_laws.0

  -- A request is allowed exactly when it is clear and the policy asks for no approval at its risk. On a
  -- collection that an empty list would have to list it is not clear.
  pub evaluate-allowed_iff :
      ((evaluate request policy risk trace db).0.status ≡ allowed)
      ↔ (IsClear request policy (scope_for policy db) × (¬ NeedsApproval policy risk))
  evaluate-allowed_iff = status_laws.1

  -- A request waits for approval exactly when it is clear and the policy asks for approval at its
  -- risk.
  pub evaluate-approval_iff :
      ((evaluate request policy risk trace db).0.status ≡ approval_required)
      ↔ (IsClear request policy (scope_for policy db) × NeedsApproval policy risk)
  evaluate-approval_iff = status_laws.2
