-- ===== src/Connections/Audited.antt =====
-- The audited operations on connections and discovery.
use guardmcp.Prelude.{
  String, ◌≡◌, sym, ◌↔◌, ◌⊎◌, refl, inl, inr, true, false, Option, none, some, List, [], ◌∷◌,
  elem-Member, Member-elem, Member, is_some, Bool-cases, arith, if◌then◌else◌, subst,
}
use guardmcp.Dict.{lookup}
use guardmcp.Policy.{Policy, DatabaseScope, scope_for}
use guardmcp.Policy.Engine.{collection_permitted}
use guardmcp.Policy.Engine.Laws.{Permits, collection_permitted_iff}
use guardmcp.Backend.{Backend}
use guardmcp.Pipeline.Execute.{allowed, denied}
use guardmcp.Connections.{
  Session, switch, bars, switch_connection_audited, permitted_of, discover_collections,
  get_executor,
}

-- The policy, if there is one, has no list of connections, or lists this one.
abbrev pub Allows : Option Policy → String → Type 0
Allows none name = Unit
Allows (some policy) name = (policy.connections_allow ≡ []) ⊎ Member name policy.connections_allow

bars_iff :
    (policy : Option Policy) (name : String) → (bars policy name ≡ false) ↔ Allows policy name
bars_iff none name = ((λ e. tt), (λ h. refl))
bars_iff (some policy) name =
    ground
      (arith, elem-Member name policy.connections_allow, Member-elem name policy.connections_allow)

-- A switch succeeds exactly when the connection is registered and the policy, if the agent has one,
-- does not bar it; the record says which, and only then the active connection changes, to that one.
pub switch_connection_audited_iff :
    (policy : Option Policy) (agent name : String) (s : Session)
    → let (switched_, r, s') = switch_connection_audited policy agent name s in
      ((switched_ ≡ true) ↔ ((is_some (lookup name s.registry) ≡ true) × Allows policy name))
      × (r.status ≡ (if switched_ then allowed else denied))
      × (s' ≡ (if switched_ then record s { active = name } else s))
unfolding switch_connection_audited switch
switch_connection_audited_iff policy agent name s = elim (Bool-cases (bars policy name)) [
  | inl barred ↦
      rw barred (((λ e. cc), (λ h. cc (barred, (bars_iff policy name).1 h.1))), refl, refl)
  | inr free ↦ elim (Bool-cases (is_some (lookup name s.registry))) [
    | inl known ↦
        rw (free, known) (((λ e. (refl, (bars_iff policy name).0 free)), (λ h. refl)), refl, refl)
    | inr missing ↦ rw (free, missing) (((λ e. cc), (λ h. cc (h.0))), refl, refl)
  ]
]

-- Keeping the head, which has the property, or dropping it, which has not.
module _ {A : Type 0} (P : A → Type 0) (c x : A) (xs ys : List A)
    (rest : Member c ys ↔ (Member c xs × P c)) where
  kept_iff : (x ≡ c → P c) → Member c (x ∷ ys) ↔ (Member c (x ∷ xs) × P c)
  kept_iff has = (
    (λ m. elim m [
      | inl here ↦ (inl here, has here)
      | inr later ↦ (inr (rest.0 later).0, (rest.0 later).1)
    ]),
    (λ h. elim (h.0) [ inl here ↦ inl here | inr later ↦ inr (rest.1 (later, h.1)) ]),
  )

  dropped_iff : (x ≡ c → ¬ P c) → Member c ys ↔ (Member c (x ∷ xs) × P c)
  dropped_iff lacks = (
    (λ m. (inr (rest.0 m).0, (rest.0 m).1)),
    (λ h. elim (h.0) [ inl here ↦ absurd (lacks here h.1) | inr later ↦ rest.1 (later, h.1) ]),
  )

abbrev pub Discoverable : Option Policy → (database : Option String) → String → Type 0
Discoverable none database c = ⊥
Discoverable (some policy) database c = Permits (scope_for policy database).collections c

permitted_of_iff :
    (scope : DatabaseScope) (c : String) (cs : List String)
    → Member c (permitted_of scope cs) ↔ (Member c cs × Permits scope.collections c)
permitted_of_iff scope c [] = ((λ m. absurd m), (λ h. h.0))
permitted_of_iff scope c (x ∷ xs) =
    elim (Bool-cases (collection_permitted x scope.collections.allow scope.collections.deny)) [
      | inl hit ↦ rw hit (
          kept_iff (Permits scope.collections) c x xs (permitted_of scope xs)
            (permitted_of_iff scope c xs)
            (λ e.
              subst (Permits scope.collections) e
                ((collection_permitted_iff scope.collections x).0 hit)))
      | inr miss ↦ rw miss (
          dropped_iff (Permits scope.collections) c x xs (permitted_of scope xs)
            (permitted_of_iff scope c xs)
            (λ e p. cc (
              miss,
              (collection_permitted_iff scope.collections x).1
                  (subst (Permits scope.collections) (sym e) p),
            )))
    ]

-- A collection is discovered exactly when the agent has a policy, the executor of the active
-- connection, or else the default, lists the collection, and the scope of the policy for the database
-- permits it; the record is denied exactly without a policy.
pub discover_collections_iff :
    (policy : Option Policy) (s : Session) (default : Backend) (agent : String)
    (database : Option String) (c : String)
    → let (found, r) = discover_collections policy s default agent database in
      (Member c found ↔ (
        Member c ((get_executor s default).list_collections database)
        × Discoverable policy database c))
      × (r.status ≡ (if is_some policy then allowed else denied))
unfolding discover_collections
discover_collections_iff none s default agent database c =
    (((λ m. absurd m), (λ h. absurd (h.1))), refl)
discover_collections_iff (some policy) s default agent database c = (
  permitted_of_iff (scope_for policy database) c
      ((get_executor s default).list_collections database),
  refl,
)
