-- ===== src/Approvals.antt =====
-- core/approval/store.py and core/approval/models.py: the store of approval requests. The waiting
-- coroutine and the operations that run while it waits are a sequence of steps.
pub mod Laws
pub mod Settled
pub mod Final
use guardmcp.Prelude.{
  ℕ, suc, ◌-◌, String, Bool, true, false, Option, none, some, List, [], ◌∷◌, ◌&&◌, ◌||◌, not, ltb,
  length, if◌then◌else◌,
}
use guardmcp.Dict.{Dict, lookup, insert, modify, remove}
use guardmcp.Json.{Fields}
use guardmcp.Domain.{RiskLevel, Reason}

pub data Status : Type 0 where
  pending approved denied : Status

abbrev pub is_pending : Status → Bool
is_pending pending = true
is_pending _ = false

-- The instant is in the unit of the ages below; the clock does not run back.
pub record ApprovalRequest : Type 0 where
  pub approval_id : String
  pub agent : String
  pub action : String
  pub collection : String
  pub risk : RiskLevel
  pub reason : Reason
  pub params : Fields
  pub created_at : ℕ
  pub status : Status

-- `_store` and `_events`; an event is whether it is set.
pub record ApprovalStore : Type 0 where
  pub store : Dict ApprovalRequest
  pub events : Dict Bool

-- What the caller passes to `create`; the id and the time are drawn in the source.
pub record Draft : Type 0 where
  pub approval_id : String
  pub agent : String
  pub action : String
  pub collection : String
  pub risk : RiskLevel
  pub reason : Reason
  pub params : Fields
  pub created_at : ℕ

abbrev pub of_draft : Draft → ApprovalRequest
of_draft d = record {
  approval_id = d.approval_id;
  agent = d.agent;
  action = d.action;
  collection = d.collection;
  risk = d.risk;
  reason = d.reason;
  params = d.params;
  created_at = d.created_at;
  status = pending;
}

unfoldable pub create : Draft → ApprovalStore → ApprovalRequest × ApprovalStore
create d s = (
  of_draft d,
  record {
    store = insert d.approval_id (of_draft d) s.store;
    events = insert d.approval_id false s.events;
  },
)

pending_in : Dict ApprovalRequest → List ApprovalRequest
pending_in [] = []
pending_in ((k, r) ∷ rest) =
    let tail = pending_in rest in if is_pending r.status then r ∷ tail else tail

unfoldable pub list_pending : ApprovalStore → List ApprovalRequest
unfolding pending_in
list_pending s = pending_in s.store

-- `event = self._events.get(id)`, and `event.set()` if there is one
abbrev pub set_event : String → Dict Bool → Dict Bool
set_event id events = modify id (λ e. true) events

-- `req.status = …`, where the store holds `req`
abbrev pub set_status : Status → ApprovalRequest → ApprovalRequest
set_status st req = record req { status = st }

abbrev pub verdict : Bool → Status
verdict true = approved
verdict false = denied

abbrev pub resolve_found :
    String → Bool → Option ApprovalRequest → ApprovalStore → Option ApprovalRequest × ApprovalStore
resolve_found id ok none s = (none, s)
resolve_found id ok (some req) s =
    if is_pending req.status
    then (
      some (set_status (verdict ok) req),
      record {
        store = modify id (set_status (verdict ok)) s.store;
        events = set_event id s.events;
      },
    )
    else (none, s)

unfoldable pub resolve : String → Bool → ApprovalStore → Option ApprovalRequest × ApprovalStore
resolve id ok s = resolve_found id ok (lookup id s.store) s

-- `[aid for aid, req in self._store.items() if …]`
unfoldable pub ids_where : (ApprovalRequest → Bool) → Dict ApprovalRequest → List String
ids_where p [] = []
ids_where p ((id, req) ∷ rest) = let tail = ids_where p rest in if p req then id ∷ tail else tail

-- A resolved request older than `max_age`.
abbrev pub is_stale : (now max_age : ℕ) → ApprovalRequest → Bool
is_stale now max_age req = not (is_pending req.status) && ltb max_age (now - req.created_at)

unfoldable pub remove_all {ℓ} : {V : Type ℓ} → List String → Dict V → Dict V
remove_all [] d = d
remove_all (id ∷ ids) d = remove_all ids (remove id d)

unfoldable pub prune : (now max_age : ℕ) → ApprovalStore → ℕ × ApprovalStore
prune now max_age s =
    let ids = ids_where (is_stale now max_age) s.store in
    (length ids, record { store = remove_all ids s.store; events = remove_all ids s.events })

abbrev pub pending_ids : Dict ApprovalRequest → List String
pending_ids store = ids_where (λ req. is_pending req.status) store

-- `self._store[aid].status = "denied"`, and its event set
abbrev pub deny_one : String → ApprovalStore → ApprovalStore
deny_one id s = record {
  store = modify id (set_status denied) s.store;
  events = set_event id s.events;
}

unfoldable pub deny_all : List String → ApprovalStore → ApprovalStore
deny_all [] s = s
deny_all (id ∷ ids) s = deny_all ids (deny_one id s)

unfoldable pub shutdown : ApprovalStore → ℕ × ApprovalStore
shutdown s = let ids = pending_ids s.store in (length ids, deny_all ids s)

-- The branch of `TimeoutError`: the event is not set.
abbrev pub expire : Option ApprovalRequest → String → ApprovalStore → ApprovalStore
expire none id s = s
expire (some req) id s =
    if is_pending req.status then record s { store = modify id (set_status denied) s.store } else s

abbrev pub time_out : String → ApprovalStore → ApprovalStore
time_out id s = expire (lookup id s.store) id s

-- What other tasks may run during a wait; `times_out` is the end of another wait by its timeout.
pub data Op : Type 0 where
  creates : Draft → Op
  resolves : (id : String) (ok : Bool) → Op
  prunes : (now max_age : ℕ) → Op
  shuts_down : Op
  times_out : (id : String) → Op

unfoldable pub perform : Op → ApprovalStore → ApprovalStore
perform (creates d) s = (create d s).1
perform (resolves id ok) s = (resolve id ok s).1
perform (prunes now max_age) s = (prune now max_age s).1
perform shuts_down s = (shutdown s).1
perform (times_out id) s = time_out id s

abbrev pub is_set : Option Bool → Bool
is_set none = false
is_set (some e) = e

-- The waiter holds the event object: once set it stays set for it, also if the store drops it.
unfoldable pub await_event : String → List Op → Bool → ApprovalStore → Bool × ApprovalStore
await_event id [] seen s = (seen, s)
await_event id (op ∷ ops) seen s =
    let s' = perform op s in await_event id ops (seen || is_set (lookup id s'.events)) s'

-- `req.status if req else "denied"`
abbrev pub status_of : Option ApprovalRequest → Status
status_of none = denied
status_of (some req) = req.status

abbrev pub conclude : String → Bool × ApprovalStore → Status × ApprovalStore
conclude id (true, s) = (status_of (lookup id s.store), s)
conclude id (false, s) = (denied, time_out id s)

abbrev pub wait_on : Option Bool → String → List Op → ApprovalStore → Status × ApprovalStore
wait_on none id ops s = (denied, s)
wait_on (some e) id ops s = conclude id (await_event id ops e s)

-- `wait_for_decision`, while the other tasks run `ops`; the wait times out if none sets the event.
unfoldable pub wait_for_decision : String → List Op → ApprovalStore → Status × ApprovalStore
wait_for_decision id ops s = wait_on (lookup id s.events) id ops s
