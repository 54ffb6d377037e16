-- ===== src/Policy/Explain/Rating.antt =====
-- How changes of a policy are rated.
use guardmcp.Prelude.{String, ◌≡◌, refl, Bool, Option, List, [], starts_with, has_text}
use guardmcp.Cost.{CostLevel}
use guardmcp.Policy.{Policy, Mode, DateTime, DatabaseScope}
use guardmcp.Policy.Explain.{diff_policies, diff_mode, classify_impact, effect_of, Security}
use guardmcp.Policy.Explain.Sets.{append-empty}
use guardmcp.Policy.Explain.Differences.{Agrees, diff_policies-empty_iff}

Agrees-self : (p : Policy) → Agrees p p
Agrees-self p = record {
  mode = refl;
  collections_allow = λ k. refl;
  collections_deny = λ k. refl;
  actions_allow = λ k. refl;
  actions_deny = λ k. refl;
  connections = λ k. refl;
  fields = λ k. refl;
  masks = λ c k. refl;
  high = refl;
  critical = refl;
  not_before = refl;
  not_after = refl;
  extends = refl;
}

module _ (show_time : Option DateTime → String) (p : Policy) (changed : Bool) where
  -- Whatever a proposal opens or closes by its databases, their scopes and its cost limit, nothing is
  -- reported of it and its impact is rated low.
  pub classify_impact-databases_unseen :
      (allow : List String) (scopes : List (String × DatabaseScope))
      (default : Option DatabaseScope) (cost : Option CostLevel)
      → let proposed = record p {
        databases_allow = allow;
        databases = scopes;
        default_database_scope = default;
        max_cost = cost;
      } in
        let lines = diff_policies show_time p proposed in
        (lines ≡ []) × ((classify_impact lines changed).security ≡ Security.low)
  unfolding classify_impact
  classify_impact-databases_unseen allow scopes default cost =
      let proposed = record p {
        databases_allow = allow;
        databases = scopes;
        default_database_scope = default;
        max_cost = cost;
      } in
      let none_ =
        (diff_policies-empty_iff show_time p proposed).1 (same_policy allow scopes default cost) in
      (none_, rw none_ refl)
    where
      same_policy :
          (allow : List String) (scopes : List (String × DatabaseScope))
          (default : Option DatabaseScope) (cost : Option CostLevel)
          → Agrees p (record p {
            databases_allow = allow;
            databases = scopes;
            default_database_scope = default;
            max_cost = cost;
          })
      same_policy allow scopes default cost = record {
        mode = refl;
        collections_allow = λ k. refl;
        collections_deny = λ k. refl;
        actions_allow = λ k. refl;
        actions_deny = λ k. refl;
        connections = λ k. refl;
        fields = λ k. refl;
        masks = λ c k. refl;
        high = refl;
        critical = refl;
        not_before = refl;
        not_after = refl;
        extends = refl;
      }

  -- A proposal that takes the right to write is rated as if it gave one: high.
  pub classify_impact-readonly :
      let lines =
        diff_policies show_time
          (record p { mode = Mode.readwrite })
          (record p { mode = Mode.readonly }) in
      (classify_impact lines changed).security ≡ Security.high
  unfolding classify_impact diff_policies diff_mode effect_of starts_with has_text
  classify_impact-readonly =
      let same = (diff_policies-empty_iff show_time p p).1 (Agrees-self p) in
      let (_, rest) = append-empty (diff_mode p.mode p.mode) _ same in rw rest refl
