-- ===== src/Planning/Recommended.antt =====
-- What the planning pipeline recommends.
use guardmcp.Prelude.{
  All, String, ◌≡◌, ◌≢◌, ◌↔◌, refl, sym, ap, subst, ◌∙◌, inl, inr, Bool, true, false, Option, none,
  some, List, [], ◌∷◌, if◌then◌else◌, Bool-cases, arith, Member, map, elem, elem-Member,
}
use guardmcp.Domain.{DecisionStatus, denied, allowed, approval_required, Reason}
use guardmcp.Backend.{Backend}
use guardmcp.Pipeline.{Env}
use guardmcp.Connections.{Session, discover_collections}
use guardmcp.Planning.{Plan, PlanRequest, AmbiguityReport, Index, indexed_fields}
use guardmcp.Planning.Plans.{
  leb_score, score, is_refused, first_open, rank, expand, build, alternative, AlternativeRequest,
}
use guardmcp.Planning.Ranked.{FirstOpen, rank-FirstOpen, rank-Ranks}
use guardmcp.Planning.Pipeline.{
  Tools, judged, enrich, planned, plan_among, plan, PlannerResult, pick_resource, unless_ambiguous,
  named_or, asked_for, first_of, is_named, fields_of, indexes_or_none,
}
use guardmcp.Planning.Intent.{lower, runs, is_letter}
use guardmcp.Planning.Ambiguity.{detect}
use guardmcp.Connections.Describe.{describe_collection}

map-Member :
    {A B : Type 0} (f : A → B) (b : B) (xs : List A)
    → Member b (map f xs)
    → (a : A) × Member a xs × (f a ≡ b)
map-Member f b [] m = absurd m
map-Member f b (x ∷ xs) (inl e) = (x, inl refl, e)
map-Member f b (x ∷ xs) (inr m) = let (a, n, e) = map-Member f b xs m in (a, inr n, e)

All-of-Member :
    {A : Type 0} (P : A → Type 0) (xs : List A) → ((x : A) → Member x xs → P x) → All P xs
All-of-Member P [] h = tt
All-of-Member P (x ∷ xs) h = (h x (inl refl), All-of-Member P xs (λ y m. h y (inr m)))

module _ (env : Env) (agent : String) where
  -- The governance of a plan is what the guard decides about its own request.
  abbrev pub Governed : Plan → Type 0
  Governed p =
      p.governance
      ≡ some (
        (judged env agent p.request).decision.status,
        (judged env agent p.request).decision.reason,
      )

  enrich-Governed : (tools : Tools) (p : Plan) → Governed (enrich env tools agent p)
  unfolding enrich
  enrich-Governed tools p = refl

  denied_of : (s : DecisionStatus) (r : Reason) → is_refused (some (s, r)) ≡ false → s ≢ denied
  denied_of allowed r h e = cc
  denied_of denied r h e = cc
  denied_of approval_required r h e = cc

  open_of : (s : DecisionStatus) (r : Reason) → s ≢ denied → is_refused (some (s, r)) ≡ false
  open_of allowed r h = refl
  open_of denied r h = absurd (h refl)
  open_of approval_required r h = refl

  open_iff :
      (p : Plan)
      → Governed p
      → (is_refused p.governance ≡ false) ↔ ((judged env agent p.request).decision.status ≢ denied)
  open_iff p g =
      let d = (judged env agent p.request).decision in
      (
        (λ h. denied_of d.status d.reason (sym (ap is_refused g) ∙ h)),
        (λ h. ap is_refused g ∙ open_of d.status d.reason h),
      )

  -- A recommendation: not denied by the guard, and of the plans that it does not deny the best. Without
  -- one, the guard denies all.
  abbrev pub Recommends : List Plan → Option Plan → Type 0
  Recommends plans none =
      (q : Plan) → Member q plans → ¬ ((judged env agent q.request).decision.status ≢ denied)
  Recommends plans (some p) =
      Member p plans
      × ((judged env agent p.request).decision.status ≢ denied)
      × ((q : Plan)
          → Member q plans
          → (judged env agent q.request).decision.status ≢ denied
          → leb_score (score p) (score q) ≡ true)

  first-Recommends :
      (plans : List Plan) (o : Option Plan)
      → ((q : Plan) → Member q plans → Governed q)
      → FirstOpen plans o
      → Recommends plans o
  first-Recommends plans none g h = λ q m open_. cc (h q m, (open_iff q (g q m)).1 open_)
  first-Recommends plans (some p) g (m, open_, best) =
      (m, (open_iff p (g p m)).0 open_, (λ q n o. best q n ((open_iff q (g q n)).1 o)))

  module _ (tools : Tools) where
    ranked-Governed :
        (ps : List Plan) (q : Plan) → Member q (rank (map (enrich env tools agent) ps)) → Governed q
    ranked-Governed ps q m =
        let (p, l, same) = rank-Ranks q (map (enrich env tools agent) ps) m in
        let (o, _, e) = map-Member (enrich env tools agent) p ps l in
        let governed = subst Governed e (enrich-Governed tools o) in
        same.1
        ∙ governed
        ∙ ap
            (λ r. some ((judged env agent r).decision.status, (judged env agent r).decision.reason))
            (sym same.0)

    planned-Recommends :
        (intent resource : String) (fields : List String) (indexes : List Index)
        (report : AmbiguityReport)
        → let r = planned env tools agent intent resource fields indexes report in
          Recommends r.plans r.recommended_plan
    unfolding planned
    planned-Recommends intent resource fields indexes report =
        let ps =
          expand (build intent resource fields indexes (first_of report.interpretations))
            tools.alternatives in
        first-Recommends (rank (map (enrich env tools agent) ps))
          (first_open (rank (map (enrich env tools agent) ps))) (ranked-Governed ps)
          (rank-FirstOpen (map (enrich env tools agent) ps))

    unless-Recommends :
        (report : AmbiguityReport) (r : PlannerResult)
        → Recommends r.plans r.recommended_plan
        → Recommends (unless_ambiguous report r).plans (unless_ambiguous report r).recommended_plan
    unless-Recommends report r h = elim (Bool-cases report.ambiguous) [
      | inl a ↦ rw a (λ q m. absurd m)
      | inr c ↦ rw c h
    ]

    among-Recommends :
        (intent : String) (resource : Option String) (allowed : List String)
        → let r = plan_among env tools agent intent resource allowed in
          Recommends r.plans r.recommended_plan
    unfolding plan_among
    among-Recommends intent resource [] = λ q m. absurd m
    among-Recommends intent resource (first ∷ rest) =
        let chosen = pick_resource intent resource first rest in
        let fields =
          fields_of
            (describe_collection (env.policies agent) tools.schema_of agent chosen none).0 in
        let indexes = indexes_or_none (tools.indexes_of chosen) in
        let report = detect intent fields (indexed_fields indexes) in
        unless-Recommends report (planned env tools agent intent chosen fields indexes report)
          (planned-Recommends intent chosen fields indexes report)

    -- The plan that is recommended is one that the guard, asked for the plan's own request, does not
    -- deny, and of those plans the best. Without a recommendation the guard denies every plan.
    pub plan-Recommends :
        (s : Session) (default : Backend) (intent : String) (resource : Option String)
        → let r = plan env s default tools agent intent resource in
          Recommends r.plans r.recommended_plan
    unfolding plan
    plan-Recommends s default intent resource =
        among-Recommends intent resource
          (discover_collections (env.policies agent) s default agent none).0

    -- Every plan reads one of these collections.
    abbrev pub AllWithin : List String → List Plan → Type 0
    AllWithin collections plans =
        (q : Plan) → Member q plans → Member q.request.resource collections

    -- An alternative is another form of the same read.
    abbrev pub KeepsResource : Option (PlanRequest → List AlternativeRequest) → Type 0
    KeepsResource none = Unit
    KeepsResource (some f) =
        (r : PlanRequest) (a : AlternativeRequest)
        → Member a (f r)
        → a.request.resource ≡ r.resource

    expand-resource :
        (base : Plan) (o : Option (PlanRequest → List AlternativeRequest))
        → KeepsResource o
        → (q : Plan) → Member q (expand base o)
        → q.request.resource ≡ base.request.resource
    unfolding expand
    expand-resource base none k q (inl e) = ap (λ p. p.request.resource) (sym e)
    expand-resource base none k q (inr m) = absurd m
    expand-resource base (some f) k q (inl e) = ap (λ p. p.request.resource) (sym e)
    expand-resource base (some f) k q (inr m) =
        let (a, n, e) = map-Member alternative q (f base.request) m in
        ap (λ p. p.request.resource) (sym e) ∙ k base.request a n

    named_or-Member :
        (tokens : List String) (d : String) (rs all : List String)
        → ((r : String) → Member r rs → Member r all)
        → Member d all
        → Member (named_or tokens d rs) all
    named_or-Member tokens d [] all h m = m
    named_or-Member tokens d (r ∷ rs) all h m = elim (Bool-cases (is_named tokens r)) [
      | inl hit ↦ rw hit (h r (inl refl))
      | inr miss ↦ rw miss (named_or-Member tokens d rs all (λ x l. h x (inr l)) m)
    ]

    pick-Member :
        (intent : String) (resource : Option String) (first : String) (rest : List String)
        → Member (pick_resource intent resource first rest) (first ∷ rest)
    unfolding pick_resource
    pick-Member intent none first rest =
        named_or-Member _ first (first ∷ rest) (first ∷ rest) (λ r m. m) (inl refl)
    pick-Member intent (some r) first rest = by_test (asked_for (some r) (first ∷ rest)) refl
      where
        asked_elem : asked_for (some r) (first ∷ rest) ≡ true → elem r (first ∷ rest) ≡ true
        asked_elem h = ground arith

        by_test :
            (b : Bool)
            → asked_for (some r) (first ∷ rest) ≡ b
            → Member
                (if b then r else named_or (runs is_letter (lower intent)) first (first ∷ rest))
                (first ∷ rest)
        by_test true h = elem-Member r (first ∷ rest) (asked_elem h)
        by_test false h =
            named_or-Member (runs is_letter (lower intent)) first (first ∷ rest) (first ∷ rest)
              (λ r m. m) (inl refl)

    planned-Within :
        (intent resource : String) (fields : List String) (indexes : List Index)
        (report : AmbiguityReport) (collections : List String)
        → KeepsResource tools.alternatives
        → Member resource collections
        → AllWithin collections
            (planned env tools agent intent resource fields indexes report).plans
    unfolding planned enrich build
    planned-Within intent resource fields indexes report collections k m q n =
        let base = build intent resource fields indexes (first_of report.interpretations) in
        let ps = expand base tools.alternatives in
        let (p, l, same) = rank-Ranks q (map (enrich env tools agent) ps) n in
        let (o, u, e) = map-Member (enrich env tools agent) p ps l in
        let kept : q.request.resource ≡ resource =
          ap (λ r. r.resource) same.0
          ∙ ap (λ x. x.request.resource) (sym e)
          ∙ expand-resource base tools.alternatives k o u in
        subst (λ x. Member x collections) (sym kept) m

    unless-Within :
        (report : AmbiguityReport) (r : PlannerResult) (collections : List String)
        → AllWithin collections r.plans
        → AllWithin collections (unless_ambiguous report r).plans
    unless-Within report r collections h = elim (Bool-cases report.ambiguous) [
      | inl a ↦ rw a (λ q m. absurd m)
      | inr c ↦ rw c h
    ]

    among-Within :
        (intent : String) (resource : Option String) (collections : List String)
        → KeepsResource tools.alternatives
        → AllWithin collections (plan_among env tools agent intent resource collections).plans
    unfolding plan_among
    among-Within intent resource [] k = λ q m. absurd m
    among-Within intent resource (first ∷ rest) k =
        let chosen = pick_resource intent resource first rest in
        let fields =
          fields_of
            (describe_collection (env.policies agent) tools.schema_of agent chosen none).0 in
        let indexes = indexes_or_none (tools.indexes_of chosen) in
        let report = detect intent fields (indexed_fields indexes) in
        unless-Within report (planned env tools agent intent chosen fields indexes report)
          (first ∷ rest)
          (planned-Within intent chosen fields indexes report (first ∷ rest) k
            (pick-Member intent resource first rest))

    -- Whatever collection is asked for, every plan reads one that the agent may discover, where a
    -- plugin's alternatives read the collection of the plan that they replace.
    pub plan-discovered :
        (s : Session) (default : Backend) (intent : String) (resource : Option String)
        → KeepsResource tools.alternatives
        → let collections = (discover_collections (env.policies agent) s default agent none).0 in
          All
            (λ q. Member q.request.resource collections)
            (plan env s default tools agent intent resource).plans
    unfolding plan
    plan-discovered s default intent resource k =
        let collections = (discover_collections (env.policies agent) s default agent none).0 in
        All-of-Member (λ q. Member q.request.resource collections)
          (plan env s default tools agent intent resource).plans
          (among-Within intent resource collections k)
