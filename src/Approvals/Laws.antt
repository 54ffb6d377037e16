-- ===== src/Approvals/Laws.antt =====
-- Only a human's approval approves, a decision is final, and a shutdown leaves nothing pending.
use guardmcp.Prelude.{
  String, ◌≡◌, ◌≢◌, ◌⊎◌, ap, inl, inr, Bool, true, false, Option, none, some, List, [], ◌∷◌, ◌||◌,
  Member, ◌===◌, eq_iff, Bool-cases,
}
use guardmcp.Dict.{
  Dict, lookup, remove, modify, modified, lookup-insert, lookup-remove, lookup-modify,
}
use guardmcp.Approvals.{
  approved, denied, is_pending, ApprovalRequest, ApprovalStore, Draft, create, set_status, verdict,
  resolve, resolve_found, remove_all, prune, pending_ids, deny_one, deny_all, shutdown, Op, creates,
  resolves, prunes, shuts_down, times_out, expire, perform, await_event, status_of, conclude,
  wait_on, wait_for_decision, is_set,
}

-- The store does not say that `id` is approved.
abbrev pub Unapproved : String → ApprovalStore → Type 0
Unapproved id s = status_of (lookup id s.store) ≢ approved

module _ (id : String) where
  modified-denied :
      (o : Option ApprovalRequest) → status_of (modified (set_status denied) o) ≢ approved
  modified-denied none h = cc
  modified-denied (some req) h = cc

  -- Denying a request, at this id or another, approves none.
  modify-Unapproved :
      (k : String) (d : Dict ApprovalRequest)
      → status_of (lookup id d) ≢ approved
      → status_of (lookup id (modify k (set_status denied) d)) ≢ approved
  modify-Unapproved k d h = elim (Bool-cases (k === id)) [
    | inl same ↦ rw (lookup-modify, same) (modified-denied (lookup id d))
    | inr other ↦ rw (lookup-modify, other) h
  ]

  deny_one-Unapproved :
      (k : String) (s : ApprovalStore) → Unapproved id s → Unapproved id (deny_one k s)
  deny_one-Unapproved k s h = modify-Unapproved k s.store h

  deny_all-Unapproved :
      (ks : List String) (s : ApprovalStore) → Unapproved id s → Unapproved id (deny_all ks s)
  unfolding deny_all
  deny_all-Unapproved [] s h = h
  deny_all-Unapproved (k ∷ ks) s h =
      deny_all-Unapproved ks (deny_one k s) (deny_one-Unapproved k s h)

  remove_all-Unapproved :
      (ks : List String) (d : Dict ApprovalRequest)
      → status_of (lookup id d) ≢ approved
      → status_of (lookup id (remove_all ks d)) ≢ approved
  unfolding remove_all
  remove_all-Unapproved [] d h = h
  remove_all-Unapproved (k ∷ ks) d h =
      remove_all-Unapproved ks (remove k d) (elim (Bool-cases (k === id)) [
        | inl same ↦ rw (lookup-remove, same) (λ e. cc)
        | inr other ↦ rw (lookup-remove, other) h
      ])

  create-Unapproved :
      (d : Draft) (s : ApprovalStore) → Unapproved id s → Unapproved id (create d s).1
  unfolding create
  create-Unapproved d s h = elim (Bool-cases (d.approval_id === id)) [
    | inl same ↦ rw (lookup-insert, same) (λ e. cc)
    | inr other ↦ rw (lookup-insert, other) h
  ]

  resolve_found-Unapproved :
      (k : String) (ok : Bool) (o : Option ApprovalRequest) (s : ApprovalStore)
      → Unapproved id s
      → status_of (lookup id (modify k (set_status (verdict ok)) s.store)) ≢ approved
      → Unapproved id (resolve_found k ok o s).1
  resolve_found-Unapproved k ok none s h m = h
  resolve_found-Unapproved k ok (some req) s h m = elim (Bool-cases (is_pending req.status)) [
    | inl p ↦ rw p m
    | inr n ↦ rw n h
  ]

  resolve-Unapproved :
      (k : String) (ok : Bool) (s : ApprovalStore)
      → Unapproved id s
      → Unapproved id (resolve k ok s).1 ⊎ (resolves k ok ≡ resolves id true)
  unfolding resolve
  resolve-Unapproved k true s h = elim (Bool-cases (k === id)) [
    | inl same ↦ inr (ap (λ j. resolves j true) ((eq_iff k id).0 same))
    | inr other ↦
        inl (resolve_found-Unapproved k true (lookup k s.store) s h (rw (lookup-modify, other) h))
  ]
  resolve-Unapproved k false s h =
      inl (resolve_found-Unapproved k false (lookup k s.store) s h (modify-Unapproved k s.store h))

  expire-Unapproved :
      (k : String) (o : Option ApprovalRequest) (s : ApprovalStore)
      → Unapproved id s
      → Unapproved id (expire o k s)
  expire-Unapproved k none s h = h
  expire-Unapproved k (some req) s h = elim (Bool-cases (is_pending req.status)) [
    | inl p ↦ rw p (modify-Unapproved k s.store h)
    | inr n ↦ rw n h
  ]

  perform-Unapproved :
      (op : Op) (s : ApprovalStore)
      → Unapproved id s
      → Unapproved id (perform op s) ⊎ (op ≡ resolves id true)
  unfolding perform prune shutdown
  perform-Unapproved (creates d) s h = inl (create-Unapproved d s h)
  perform-Unapproved (resolves k ok) s h = resolve-Unapproved k ok s h
  perform-Unapproved (prunes now age) s h = inl (remove_all-Unapproved _ s.store h)
  perform-Unapproved shuts_down s h = inl (deny_all-Unapproved (pending_ids s.store) s h)
  perform-Unapproved (times_out k) s h = inl (expire-Unapproved k (lookup k s.store) s h)

  await_event-Unapproved :
      (ops : List Op) (seen : Bool) (s : ApprovalStore)
      → Unapproved id s
      → Unapproved id (await_event id ops seen s).1 ⊎ Member (resolves id true) ops
  unfolding await_event
  await_event-Unapproved [] seen s h = inl h
  await_event-Unapproved (op ∷ ops) seen s h = elim (perform-Unapproved op s h) [
    | inl kept ↦
        elim (await_event-Unapproved ops (seen || is_set (lookup id (perform op s).events))
          (perform op s) kept) [ inl rest ↦ inl rest | inr found ↦ inr (inr found) ]
    | inr same ↦ inr (inl same)
  ]

  conclude-approved :
      (out : Bool × ApprovalStore)
      → (conclude id out).0 ≡ approved
      → status_of (lookup id out.1.store) ≡ approved
  conclude-approved (true, s) e = e
  conclude-approved (false, s) e = cc

  wait_on-approved :
      (o : Option Bool) (ops : List Op) (s : ApprovalStore)
      → Unapproved id s
      → (wait_on o id ops s).0 ≡ approved
      → Member (resolves id true) ops
  wait_on-approved none ops s h e = cc
  wait_on-approved (some b) ops s h e = elim (await_event-Unapproved ops b s h) [
    | inl kept ↦ absurd (kept (conclude-approved (await_event id ops b s) e))
    | inr found ↦ found
  ]

-- The wait for a request that is not approved when it starts ends with an approval only if, while it
-- waited, the request was resolved as approved: neither a timeout, nor a shutdown, a pruning, another request or an unknown id approves.
pub wait_for_decision-approved :
    (id : String) (ops : List Op) (s : ApprovalStore)
    → status_of (lookup id s.store) ≢ approved
    → (wait_for_decision id ops s).0 ≡ approved
    → Member (resolves id true) ops
unfolding wait_for_decision
wait_for_decision-approved id ops s h e = wait_on-approved id (lookup id s.events) ops s h e
