-- ===== src/Policy/Loader/Chains/Errors.antt =====
-- When the resolution of chains fails.
use guardmcp.Prelude.{
  ℕ, zero, suc, ◌≤◌, String, ◌≡◌, ◌↔◌, refl, sym, ap, subst, ◌∙◌, inl, inr, true, Option, none,
  some, List, [], ◌∷◌, ◌++◌, elem-Member, arith, All, All-Member, is_some, Option-cases, eq_self,
}
use guardmcp.Dict.{Dict, lookup}
use guardmcp.Policy.{Policy}
use guardmcp.Policy.Loader.{merge}
use guardmcp.Policy.Loader.Chains.{
  Resolution, found, unknown_base, cyclic, invalid, unfinished, ◌>>=◌, Visit, memo, root, child,
  missing, again, visit, act, merge_onto, store, resolve, resolve_each, enough, resolve_inheritance,
}
use guardmcp.Policy.Loader.Chains.Visited.{Merges, alone, onto, Merges-unique, Ensures, Visited}
use guardmcp.Policy.Loader.Chains.Merges.{
  Merged, Sound, inspect, Resolved, resolve-Resolved, empty-Sound, resolved_all,
}
use guardmcp.Policy.Loader.Chains.Finished.{Finished, resolve_each-Finished}

-- Nothing was raised.
abbrev NoError : {A : Type 0} → Resolution A → Type 0
NoError (found a) = Unit
NoError unfinished = Unit
NoError _ = ⊥

bind-NoError :
    {A B : Type 0} (P : A → Type 0) (r : Resolution A) (f : A → Resolution B)
    → Ensures P r
    → NoError r
    → ((a : A) → P a → NoError (f a))
    → NoError (r >>= f)
bind-NoError P (found a) f p h k = k a p
bind-NoError P (unknown_base e b) f p h k = absurd h
bind-NoError P (cyclic path) f p h k = absurd h
bind-NoError P invalid f p h k = absurd h
bind-NoError P unfinished f p h k = tt

All-append :
    {A : Type 0} (P : A → Type 0) (xs : List A) (x : A) → All P xs → P x → All P (xs ++ x ∷ [])
All-append P [] x h p = (p, tt)
All-append P (y ∷ ys) x (h, hs) p = (h, All-append P ys x hs p)

store-NoError :
    (name : String) (d : Dict Policy) (merged : Option Policy) (p : Policy)
    → merged ≡ some p
    → NoError (store name d merged)
store-NoError name d none p e = cc
store-NoError name d (some m) p e = tt

some_inj : {o : Option Policy} {p q : Policy} → o ≡ some p → o ≡ some q → p ≡ q
some_inj a b = cc

found-NoError : {A : Type 0} (r : Resolution A) → Finished r → NoError r → (a : A) × (r ≡ found a)
found-NoError (found a) f h = (a, refl)
found-NoError (unknown_base e b) f h = absurd h
found-NoError (cyclic path) f h = absurd h
found-NoError invalid f h = absurd h
found-NoError unfinished f h = absurd f

module _ (parsed : Dict Policy) where
  -- The chain of this name is at least as long.
  abbrev Above : ℕ → String → Type 0
  Above n s = (m : ℕ) × (p : Policy) × Merges parsed m s p × (n ≤ m)

  All-Above : (n : ℕ) (stack : List String) → All (Above (suc n)) stack → All (Above n) stack
  All-Above n [] h = tt
  All-Above n (s ∷ stack) ((m, p, c, le), hs) = ((m, p, c, omega arith), All-Above n stack hs)

  module _ (name : String) (stack : List String) (resolved : Dict Policy) where
    act-NoError :
        (v : Visit)
        → Visited parsed name stack resolved v
        → (n : ℕ) (p : Policy) → Merges parsed n name p
        → All (Above n) stack
        → (rest : String → Resolution (Policy × Dict Policy))
        → ((base : String) → Ensures (Resolved parsed base resolved) (rest base))
        → ((k : ℕ) (base : String) (q : Policy)
            → suc k ≡ n
            → Merges parsed k base q
            → NoError (rest base))
        → NoError (act v name stack resolved rest)
    act-NoError (memo q) seen n p c above rest ensures h = tt
    act-NoError (root q) seen n p c above rest ensures h = tt
    act-NoError (child q base) (known, extends, new) n p (alone a x) above rest ensures h = cc
    act-NoError (child q base) (known, extends, new) n p
          (onto {n = k} {base = base'} {p = p'} {q = q'} a x d w) above rest ensures h =
        let same : base' ≡ base = cc in
        let of_base = subst (λ s. Merges parsed k s q') same d in
        bind-NoError (Resolved parsed base resolved) (rest base) (merge_onto name q) (ensures base)
          (h k base q' refl of_base)
          (λ r got. store-NoError name r.1 (merge r.0 q) p (
            ap (λ b. merge b q) (Merges-unique parsed got.merged.1 of_base).1
            ∙ ap (merge q') (some_inj known a)
            ∙ w))
    act-NoError missing absent n p (alone a x) above rest ensures h = cc
    act-NoError missing absent n p (onto a x d w) above rest ensures h = cc
    act-NoError (again base) (q, known, extends, old) n p (alone a x) above rest ensures h = cc
    act-NoError (again base) (q, known, extends, old) n p
          (onto {n = k} {base = base'} {q = q'} a x d w) above rest ensures h =
        let (m, r, e, le) =
          All-Member (Above (suc k)) base stack above (elem-Member base stack old) in
        let same : base' ≡ base = cc in
        let (eq, _) = Merges-unique parsed (subst (λ s. Merges parsed k s q') same d) e in
        absurd (omega arith)

  resolve-NoError :
      (fuel n : ℕ) (name : String) (p : Policy) (stack : List String) (resolved : Dict Policy)
      → Merges parsed n name p
      → All (Above n) stack
      → Sound parsed resolved
      → NoError (resolve fuel parsed name stack resolved)
  unfolding resolve
  resolve-NoError zero n name p stack resolved c above s = tt
  resolve-NoError (suc fuel) n name p stack resolved c above s =
      act-NoError name stack resolved (visit parsed name stack resolved)
        (inspect parsed name stack resolved) n p c above
        (λ base. resolve fuel parsed base (stack ++ name ∷ []) resolved)
        (λ base. resolve-Resolved parsed fuel base (stack ++ name ∷ []) resolved s)
        (λ k base q e d.
          resolve-NoError fuel k base q (stack ++ name ∷ []) resolved d
            (All-append (Above k) stack name
              (All-Above k stack (subst (λ m. All (Above m) stack) (sym e) above))
              (n, p, c, omega (arith, e)))
            s)

  lookup_head :
      (agent : String) (q : Policy) (agents : Dict Policy)
      → is_some (lookup agent ((agent, q) ∷ agents)) ≡ true
  unfolding lookup
  lookup_head agent q agents = rw (eq_self agent) refl

  lookup_tail :
      (agent : String) (q : Policy) (agents : Dict Policy) (name : String)
      → is_some (lookup name agents) ≡ true
      → is_some (lookup name ((agent, q) ∷ agents)) ≡ true
  unfolding lookup
  lookup_tail agent q agents name h = ground arith

  resolve_each-NoError :
      (fuel : ℕ) (agents resolved : Dict Policy)
      → ((name : String)
          → is_some (lookup name agents) ≡ true
          → (p : Policy) × Merged parsed name p)
      → Sound parsed resolved
      → NoError (resolve_each fuel parsed agents resolved)
  unfolding resolve_each
  resolve_each-NoError fuel [] resolved h s = tt
  resolve_each-NoError fuel ((agent, q) ∷ agents) resolved h s =
      let (p, chain) = h agent (lookup_head agent q agents) in
      bind-NoError (Resolved parsed agent resolved)
        (resolve fuel parsed agent (agent ∷ []) resolved) (λ r. resolve_each fuel parsed agents r.1)
        (resolve-Resolved parsed fuel agent (agent ∷ []) resolved s)
        (resolve-NoError fuel chain.0 agent p (agent ∷ []) resolved chain.1
          ((chain.0, p, chain.1, omega arith), tt) s)
        (λ r got.
          resolve_each-NoError fuel agents r.1
            (λ name there. h name (lookup_tail agent q agents name there)) got.sound)

  -- The resolution gives a dictionary exactly when every policy has a chain: a chain of known bases
  -- without a cycle, whose merges the validators accept.
  pub resolve_inheritance-found_iff :
      ((d : Dict Policy) × (resolve_inheritance parsed ≡ found d)) ↔ (
        (name : String) → is_some (lookup name parsed) ≡ true → (p : Policy) × Merged parsed name p)
  unfolding resolve_inheritance
  resolve_inheritance-found_iff = (
    (λ h name there.
        let (sound, all) = resolved_all parsed h.0 h.1 in taken name h.0 sound (all name there)),
    (λ h.
        found-NoError (resolve_inheritance parsed) (resolve_each-Finished parsed parsed [])
          (resolve_each-NoError (enough parsed) parsed [] h (empty-Sound parsed))),
  )
    where
      taken :
          (name : String) (d : Dict Policy)
          → Sound parsed d
          → is_some (lookup name d) ≡ true
          → (p : Policy) × Merged parsed name p
      taken name d sound there = elim (Option-cases (lookup name d)) [
        | inl absent ↦ cc
        | inr (p, e) ↦ (p, sound name p e)
      ]
