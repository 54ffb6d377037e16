-- ===== src/Policy/Loader/Chains/Merges.antt =====
-- What a resolved policy is: its chain, merged from the root up.
use guardmcp.Prelude.{
  ℕ, zero, suc, String, ◌≡◌, ◌↔◌, refl, sym, ap, subst, ◌∙◌, inl, inr, true, Option, none, some,
  List, [], ◌∷◌, ◌++◌, elem, Bool-cases, Option-cases, arith, ◌===◌, eq_iff, is_some,
}
use guardmcp.Dict.{Dict, lookup, insert, lookup-insert, lookup-insert_self}
use guardmcp.Policy.{Policy}
use guardmcp.Policy.Loader.{merge}
use guardmcp.Policy.Loader.Chains.{
  Resolution, found, Visit, memo, root, child, missing, again, visit, act, merge_onto, store,
  resolve, resolve_each, enough, resolve_inheritance, by_memo, by_policy, by_base,
}
use guardmcp.Policy.Loader.Chains.Visited.{
  Merges, alone, onto, Merges-unique, Ensures, bind-Ensures, map-Ensures, is_some-insert, Visited,
}

module _ (parsed : Dict Policy) (name : String) (stack : List String) (resolved : Dict Policy) where
  inspect_base :
      (p : Policy) (o : Option String)
      → lookup name parsed ≡ some p
      → p.extends ≡ o
      → Visited parsed name stack resolved (by_base stack p o)
  inspect_base p none there e = (there, e)
  inspect_base p (some base) there e = elim (Bool-cases (elem base stack)) [
    | inl old ↦ rw (old, by_base) (p, there, e, old)
    | inr fresh ↦ rw (fresh, by_base) (there, e, fresh)
  ]

  inspect_policy :
      (o : Option Policy)
      → lookup name parsed ≡ o
      → Visited parsed name stack resolved (by_policy stack o)
  inspect_policy none e = e
  inspect_policy (some p) e = inspect_base p p.extends e refl

  inspect_memo :
      (o : Option Policy)
      → lookup name resolved ≡ o
      → Visited parsed name stack resolved (by_memo parsed name stack o)
  inspect_memo none e = inspect_policy (lookup name parsed) refl
  inspect_memo (some p) e = e

  pub inspect : Visited parsed name stack resolved (visit parsed name stack resolved)
  unfolding visit
  inspect = inspect_memo (lookup name resolved) refl

module _ (parsed : Dict Policy) where
  abbrev pub Merged : String → Policy → Type 0
  Merged name p = (n : ℕ) × Merges parsed n name p

  -- Every policy of the dictionary is the merge of its chain.
  abbrev pub Sound : Dict Policy → Type 0
  Sound d = (name : String) (p : Policy) → lookup name d ≡ some p → Merged name p

  abbrev pub Keeps : Dict Policy → Dict Policy → Type 0
  Keeps d d' = (k : String) → is_some (lookup k d) ≡ true → is_some (lookup k d') ≡ true

  insert-Sound :
      (name : String) (p : Policy) (d : Dict Policy)
      → Merged name p
      → Sound d
      → Sound (insert name p d)
  insert-Sound name p d h s k q e = elim (Bool-cases (name === k)) [
    | inl same ↦
        let e' : q ≡ p = ground (arith, lookup-insert k name p d) in
        subst (λ x. Merged x q) ((eq_iff name k).0 same) (subst (Merged name) (sym e') h)
    | inr other ↦ s k q (ground (arith, lookup-insert k name p d))
  ]

  -- What a call of `resolve` gives.
  pub record Resolved (name : String) (d : Dict Policy) (r : Policy × Dict Policy) : Type 0 where
    pub merged : Merged name r.0
    pub sound : Sound r.1
    pub keeps : Keeps d r.1
    pub stored : lookup name r.1 ≡ some r.0

  insert-Resolved :
      (name : String) (p : Policy) (d d' : Dict Policy)
      → Merged name p
      → Sound d'
      → Keeps d d'
      → Resolved name d (p, insert name p d')
  insert-Resolved name p d d' h s k = record {
    merged = h;
    sound = insert-Sound name p d' h s;
    keeps = λ i e. is_some-insert i name p d' (k i e);
    stored = lookup-insert_self name p d';
  }

  store-Resolved :
      (name : String) (p : Policy) (d d' : Dict Policy) (merged : Option Policy)
      → ((r : Policy) → merged ≡ some r → Merged name r)
      → Sound d'
      → Keeps d d'
      → Ensures (Resolved name d) (store name d' merged)
  store-Resolved name p d d' none h s k = tt
  store-Resolved name p d d' (some r) h s k = insert-Resolved name r d d' (h r refl) s k

  module _ (name : String) (stack : List String) (resolved : Dict Policy) (s : Sound resolved) where
    act-Resolved :
        (v : Visit)
        → Visited parsed name stack resolved v
        → (rest : String → Resolution (Policy × Dict Policy))
        → ((base : String) → Ensures (Resolved base resolved) (rest base))
        → Ensures (Resolved name resolved) (act v name stack resolved rest)
    act-Resolved (memo p) h rest k = record {
      merged = s name p h;
      sound = s;
      keeps = λ i e. e;
      stored = h;
    }
    act-Resolved (root p) (known, alone_) rest k =
        insert-Resolved name p resolved resolved (0, alone known alone_) s (λ i e. e)
    act-Resolved (child p base) (known, extends, _) rest k =
        bind-Ensures (Resolved base resolved) (Resolved name resolved) (rest base)
          (merge_onto name p) (k base)
          (λ r got.
            store-Resolved name p resolved r.1 (merge r.0 p)
              (λ m e. (suc got.merged.0, onto known extends got.merged.1 e)) got.sound got.keeps)
    act-Resolved missing h rest k = tt
    act-Resolved (again base) h rest k = tt

  pub resolve-Resolved :
      (fuel : ℕ) (name : String) (stack : List String) (resolved : Dict Policy)
      → Sound resolved
      → Ensures (Resolved name resolved) (resolve fuel parsed name stack resolved)
  unfolding resolve
  resolve-Resolved zero name stack resolved s = tt
  resolve-Resolved (suc fuel) name stack resolved s =
      act-Resolved name stack resolved s (visit parsed name stack resolved)
        (inspect parsed name stack resolved)
        (λ base. resolve fuel parsed base (stack ++ name ∷ []) resolved)
        (λ base. resolve-Resolved fuel base (stack ++ name ∷ []) resolved s)

  Keeps-more :
      (agent : String) (p : Policy) (agents d : Dict Policy)
      → is_some (lookup agent d) ≡ true
      → Keeps agents d
      → Keeps ((agent, p) ∷ agents) d
  unfolding lookup
  Keeps-more agent p agents d there keeps k h = elim (Bool-cases (agent === k)) [
    | inl same ↦ subst (λ x. is_some (lookup x d) ≡ true) ((eq_iff agent k).0 same) there
    | inr other ↦ keeps k (rw other at h)
  ]

  resolve_each-Sound :
      (fuel : ℕ) (agents resolved : Dict Policy)
      → Sound resolved
      → Ensures
          (λ d. Sound d × Keeps resolved d × Keeps agents d)
          (resolve_each fuel parsed agents resolved)
  unfolding resolve_each lookup
  resolve_each-Sound fuel [] resolved s = (s, (λ i e. e), (λ i e. cc))
  resolve_each-Sound fuel ((agent, p) ∷ agents) resolved s =
      bind-Ensures (Resolved agent resolved)
        (λ d. Sound d × Keeps resolved d × Keeps ((agent, p) ∷ agents) d)
        (resolve fuel parsed agent (agent ∷ []) resolved) (λ r. resolve_each fuel parsed agents r.1)
        (resolve-Resolved fuel agent (agent ∷ []) resolved s)
        (λ r got.
          map-Ensures (λ d. Sound d × Keeps r.1 d × Keeps agents d)
            (λ d. Sound d × Keeps resolved d × Keeps ((agent, p) ∷ agents) d)
            (resolve_each fuel parsed agents r.1)
            (λ d h. (
              h.0,
              (λ i e. h.1 i (got.keeps i e)),
              Keeps-more agent p agents d (h.1 agent (ap is_some got.stored)) h.2,
            ))
            (resolve_each-Sound fuel agents r.1 got.sound))

  pub empty-Sound : Sound []
  unfolding lookup
  empty-Sound name p e = cc

  known : (name : String) (p : Policy) → Merged name p → is_some (lookup name parsed) ≡ true
  known name p (_, alone a x) = ap is_some a
  known name p (_, onto a x c w) = ap is_some a

  stored_is :
      (d : Dict Policy) (name : String) (p : Policy)
      → Merged name p
      → Sound d
      → is_some (lookup name d) ≡ true
      → lookup name d ≡ some p
  stored_is d name p m sound there = elim (Option-cases (lookup name d)) [
    | inl absent ↦ cc
    | inr (q, e) ↦ e ∙ ap some (Merges-unique parsed (sound name q e).1 m.1).1
  ]

  pub resolved_all :
      (d : Dict Policy) → resolve_inheritance parsed ≡ found d → Sound d × Keeps parsed d
  unfolding resolve_inheritance
  resolved_all d done =
      let h = resolve_each-Sound (enough parsed) parsed [] empty-Sound in
      let (sound, _, all) = subst (Ensures (λ d. Sound d × Keeps [] d × Keeps parsed d)) done h in
      (sound, all)

  -- Once every policy is resolved, the dictionary holds of a name what its chain merges to, and
  -- nothing else.
  pub resolve_inheritance-Merges :
      (d : Dict Policy) (name : String) (p : Policy)
      → resolve_inheritance parsed ≡ found d
      → (lookup name d ≡ some p) ↔ Merged name p
  resolve_inheritance-Merges d name p done =
      let (sound, all) = resolved_all d done in
      (sound name p, (λ m. stored_is d name p m sound (all name (known name p m))))
