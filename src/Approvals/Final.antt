-- ===== src/Approvals/Final.antt =====
-- A decision is final; a shutdown leaves nothing pending; pruning keeps what is pending.
use guardmcp.Prelude.{
  ℕ, ◌-◌, String, ◌≡◌, ◌≢◌, ◌⊎◌, refl, ◌∙◌, inl, inr, Bool, true, false, Option, none, some, List,
  [], ◌∷◌, ◌&&◌, not, arith, elem, Member, elem-Member, Member-elem, ◌===◌, eq_iff, Bool-cases,
  if◌then◌else◌, ltb,
}
use guardmcp.Dict.{
  Dict, lookup, remove, modified, lookup-insert, lookup-modify, Distinct, insert-Distinct,
  modify-Distinct, remove-Distinct,
}
use guardmcp.Approvals.{
  denied, is_pending, ApprovalRequest, ApprovalStore, Draft, of_draft, create, set_status, verdict,
  resolve, resolve_found, ids_where, is_stale, remove_all, prune, pending_ids, deny_one, deny_all,
  shutdown, Op, creates, resolves, prunes, shuts_down, times_out, expire, perform,
}
use guardmcp.Approvals.Settled.{
  ids_where-lookup, lookup-ids_where, lookup-deny_all, lookup-remove_all,
}

not_member : (id : String) (ks : List String) → (¬ Member id ks) → elem id ks ≡ false
not_member id ks h = elim (Bool-cases (elem id ks)) [
  | inl e ↦ absurd (h (elem-Member id ks e))
  | inr e ↦ e
]

-- A listed request is denied; one that is not listed was not pending.
settled :
    (b : Bool) (o : Option ApprovalRequest) (req : ApprovalRequest)
    → (if b then modified (set_status denied) o else o) ≡ some req
    → (b ≡ false → o ≡ some req → is_pending req.status ≡ false)
    → is_pending req.status ≡ false
settled true none req e rest = cc
settled true (some r) req e rest = ground arith
settled false o req e rest = rest refl e

unlisted_not :
    (p : ApprovalRequest → Bool) (id : String) (d : Dict ApprovalRequest) (req : ApprovalRequest)
    → elem id (ids_where p d) ≡ false
    → lookup id d ≡ some req
    → p req ≡ false
unlisted_not p id d req out e = elim (Bool-cases (p req)) [
  | inl hit ↦ cc (out, Member-elem id (ids_where p d) (lookup-ids_where p id d req e hit))
  | inr miss ↦ miss
]

-- After a shutdown no request is pending.
pub shutdown-none_pending :
    (s : ApprovalStore) (id : String) (req : ApprovalRequest)
    → lookup id (shutdown s).1.store ≡ some req
    → is_pending req.status ≡ false
unfolding shutdown
shutdown-none_pending s id req e =
    settled (elem id (pending_ids s.store)) (lookup id s.store) req
      (rw (lookup-deny_all id (pending_ids s.store) s) at e)
      (unlisted_not (λ r. is_pending r.status) id s.store req)

unlisted_of :
    (p : ApprovalRequest → Bool) (id : String) (d : Dict ApprovalRequest) (req : ApprovalRequest)
    → Distinct d
    → lookup id d ≡ some req
    → p req ≡ false
    → elem id (ids_where p d) ≡ false
unlisted_of p id d req h e miss =
    not_member id (ids_where p d)
      (λ m. let (r, e', hit) = ids_where-lookup p id d h m in cc (e, e', hit, miss))

elem-ids_where :
    (p : ApprovalRequest → Bool) (id : String) (d : Dict ApprovalRequest) (req : ApprovalRequest)
    → Distinct d
    → lookup id d ≡ some req
    → elem id (ids_where p d) ≡ p req
elem-ids_where p id d req h e = elim (Bool-cases (p req)) [
  | inl hit ↦ rw hit (Member-elem id _ (lookup-ids_where p id d req e hit))
  | inr miss ↦ rw miss (unlisted_of p id d req h e miss)
]

-- Pruning removes exactly the decided requests that are too old: a request is there afterwards as it
-- was, unless it is decided and older than the age.
pub lookup-prune :
    (now max_age : ℕ) (s : ApprovalStore) (id : String) (req : ApprovalRequest)
    → Distinct s.store
    → lookup id s.store ≡ some req
    → lookup id (prune now max_age s).1.store ≡ (
        if not (is_pending req.status) && ltb max_age (now - req.created_at)
        then none
        else some req)
unfolding prune
lookup-prune now max_age s id req h e =
    lookup-remove_all id _ s.store
    ∙ (rw (elem-ids_where (is_stale now max_age) id s.store req h e, e))

module _ (s : ApprovalStore) (id : String) (req : ApprovalRequest)
    (e : lookup id s.store ≡ some req) (decided : is_pending req.status ≡ false) where
  resolve_found-final :
      (k : String) (ok : Bool) (o : Option ApprovalRequest)
      → (k ≡ id → o ≡ some req)
      → lookup id (resolve_found k ok o s).1.store ≡ some req
  resolve_found-final k ok none h = e
  resolve_found-final k ok (some r) h = elim (Bool-cases (is_pending r.status)) [
    | inr done ↦ rw done e
    | inl open_one ↦ elim (Bool-cases (k === id)) [
      | inl same ↦ let r≡req : some r ≡ some req = h ((eq_iff k id).0 same) in ground arith
      | inr other ↦
          rw open_one (lookup-modify id k (set_status (verdict ok)) s.store ∙ (rw other e))
    ]
  ]

  expire-final :
      (k : String) (o : Option ApprovalRequest)
      → (k ≡ id → o ≡ some req)
      → lookup id (expire o k s).store ≡ some req
  expire-final k none h = e
  expire-final k (some r) h = elim (Bool-cases (is_pending r.status)) [
    | inr done ↦ rw done e
    | inl open_one ↦ elim (Bool-cases (k === id)) [
      | inl same ↦ let r≡req : some r ≡ some req = h ((eq_iff k id).0 same) in ground arith
      | inr other ↦ rw open_one (lookup-modify id k (set_status denied) s.store ∙ (rw other e))
    ]
  ]

  shutdown-final : Distinct s.store → lookup id (shutdown s).1.store ≡ some req
  unfolding shutdown
  shutdown-final h =
      lookup-deny_all id (pending_ids s.store) s
      ∙ (rw (elem-ids_where (λ r. is_pending r.status) id s.store req h e, decided) e)

  create-final : (d : Draft) → d.approval_id ≢ id → lookup id (create d s).1.store ≡ some req
  unfolding create
  create-final d other =
      lookup-insert id d.approval_id (of_draft d) s.store
      ∙ (ground (arith, e, eq_iff d.approval_id id))

  prune-final :
      (now max_age : ℕ)
      → Distinct s.store
      → (lookup id (prune now max_age s).1.store ≡ some req)
        ⊎ (lookup id (prune now max_age s).1.store ≡ none)
  prune-final now max_age h =
      either (ltb max_age (now - req.created_at))
        (rw decided at (lookup-prune now max_age s id req h e))
    where
      either :
          {o : Option ApprovalRequest} (b : Bool)
          → o ≡ (if b then none else some req)
          → (o ≡ some req) ⊎ (o ≡ none)
      either true q = inr q
      either false q = inl q

-- Once decided, a request is final: whatever other tasks do, timeouts of their waits included, short
-- of creating a request with its id, it stays as it is or is pruned.
pub perform-final :
    (op : Op) (s : ApprovalStore) (id : String) (req : ApprovalRequest)
    → Distinct s.store
    → ((d : Draft) → op ≡ creates d → d.approval_id ≢ id)
    → lookup id s.store ≡ some req
    → is_pending req.status ≡ false
    → (lookup id (perform op s).store ≡ some req) ⊎ (lookup id (perform op s).store ≡ none)
unfolding perform resolve
perform-final (creates d) s id req h fresh e decided =
    inl (create-final s id req e decided d (fresh d refl))
perform-final (resolves k ok) s id req h fresh e decided =
    inl (resolve_found-final s id req e decided k ok (lookup k s.store) (λ same. rw same e))
perform-final (prunes now max_age) s id req h fresh e decided =
    prune-final s id req e decided now max_age h
perform-final shuts_down s id req h fresh e decided = inl (shutdown-final s id req e decided h)
perform-final (times_out k) s id req h fresh e decided =
    inl (expire-final s id req e decided k (lookup k s.store) (λ same. rw same e))

expire-Distinct :
    (k : String) (o : Option ApprovalRequest) (s : ApprovalStore)
    → Distinct s.store
    → Distinct (expire o k s).store
expire-Distinct k none s h = h
expire-Distinct k (some r) s h = elim (Bool-cases (is_pending r.status)) [
  | inl p ↦ rw p (modify-Distinct k (set_status denied) s.store h)
  | inr n ↦ rw n h
]

deny_all-Distinct :
    (ks : List String) (s : ApprovalStore) → Distinct s.store → Distinct (deny_all ks s).store
unfolding deny_all
deny_all-Distinct [] s h = h
deny_all-Distinct (k ∷ ks) s h =
    deny_all-Distinct ks (deny_one k s) (modify-Distinct k (set_status denied) s.store h)

remove_all-Distinct :
    (ks : List String) (d : Dict ApprovalRequest) → Distinct d → Distinct (remove_all ks d)
unfolding remove_all
remove_all-Distinct [] d h = h
remove_all-Distinct (k ∷ ks) d h = remove_all-Distinct ks (remove k d) (remove-Distinct k d h)

resolve_found-Distinct :
    (k : String) (ok : Bool) (o : Option ApprovalRequest) (s : ApprovalStore)
    → Distinct s.store
    → Distinct (resolve_found k ok o s).1.store
resolve_found-Distinct k ok none s h = h
resolve_found-Distinct k ok (some r) s h = elim (Bool-cases (is_pending r.status)) [
  | inl p ↦ rw p (modify-Distinct k (set_status (verdict ok)) s.store h)
  | inr n ↦ rw n h
]

-- No operation lists an id twice.
pub perform-Distinct :
    (op : Op) (s : ApprovalStore) → Distinct s.store → Distinct (perform op s).store
unfolding perform prune shutdown create resolve
perform-Distinct (creates d) s h = insert-Distinct d.approval_id (of_draft d) s.store h
perform-Distinct (resolves k ok) s h = resolve_found-Distinct k ok (lookup k s.store) s h
perform-Distinct (prunes now max_age) s h = remove_all-Distinct _ s.store h
perform-Distinct shuts_down s h = deny_all-Distinct _ s h
perform-Distinct (times_out k) s h = expire-Distinct k (lookup k s.store) s h
