-- ===== src/Policy/Loader/Load/Served.antt =====
-- Which policies a loader serves.
use guardmcp.Prelude.{
  ℕ, zero, suc, String, ◌≡◌, ◌↔◌, ◌⊎◌, refl, sym, subst, ◌∙◌, inl, inr, Bool, true, false, Option,
  none, some, List, [], ◌∷◌, ◌++◌, Bool-cases, arith, ◌===◌, eq_iff, Member,
}
use guardmcp.Dict.{Dict, lookup, Distinct, insert-Distinct}
use guardmcp.Policy.{Policy}
use guardmcp.Policy.Loader.{merge}
use guardmcp.Policy.Loader.Chains.{
  Resolution, found, unknown_base, cyclic, invalid, unfinished, Visit, memo, root, child, missing,
  again, visit, act, merge_onto, store, resolve, resolve_each, enough, resolve_inheritance,
}
use guardmcp.Policy.Loader.Chains.Visited.{alone, onto, Ensures, bind-Ensures}
use guardmcp.Policy.Loader.Chains.Merges.{Merged, resolve_inheritance-Merges}
use guardmcp.Policy.Loader.Load.{
  Files, absent, single, directory, unreadable, Parsed, parsed, duplicate, refused, parse,
  is_role_template, without_templates, Loader, swapped, swap, load_parsed, load, get, Sight,
  load_changed, watch_round, watch, same_time,
}

some_inj : {p q : Policy} → some p ≡ some q → p ≡ q
some_inj e = cc

lookup-without_templates :
    (n : String) (p : Policy) (d : Dict Policy)
    → Distinct d
    → (lookup n (without_templates d) ≡ some p)
      ↔ ((lookup n d ≡ some p) × (is_role_template p ≡ false))
unfolding without_templates lookup
lookup-without_templates n p [] h = ((λ e. cc), (λ e. cc (e.0)))
lookup-without_templates n p ((k, v) ∷ rest) (new, h) =
    let ih = lookup-without_templates n p rest h in
    elim (Bool-cases (k === n)) [
      | inl same ↦ at_key (subst (λ i. lookup i rest ≡ none) ((eq_iff k n).0 same) new) same ih
      | inr other ↦ ground (arith, ih)
    ]
  where
    at_key :
        lookup n rest ≡ none
        → (k === n) ≡ true
        → (lookup n (without_templates rest) ≡ some p)
          ↔ ((lookup n rest ≡ some p) × (is_role_template p ≡ false))
        → (lookup n (without_templates ((k, v) ∷ rest)) ≡ some p)
          ↔ ((lookup n ((k, v) ∷ rest) ≡ some p) × (is_role_template p ≡ false))
    at_key gone same ih = elim (Bool-cases (is_role_template v)) [
      | inl template ↦
          rw (template, same)
            (
              (λ e. cc (gone, (ih.0 e).0)),
              (λ e.
                  cc (template, subst (λ q. is_role_template q ≡ false) (sym (some_inj e.0)) e.1)),
            )
      | inr agent ↦
          rw (agent, same)
            ((λ e. (e, subst (λ q. is_role_template q ≡ false) (some_inj e) agent)), (λ e. e.0))
    ]

store-Distinct :
    (name : String) (d : Dict Policy) (merged : Option Policy)
    → Distinct d
    → Ensures (λ r. Distinct r.1) (store name d merged)
store-Distinct name d none h = tt
store-Distinct name d (some p) h = insert-Distinct name p d h

act-Distinct :
    (v : Visit) (name : String) (stack : List String) (d : Dict Policy)
    (rest : String → Resolution (Policy × Dict Policy))
    → Distinct d
    → ((base : String) → Ensures (λ r. Distinct r.1) (rest base))
    → Ensures (λ r. Distinct r.1) (act v name stack d rest)
act-Distinct (memo p) name stack d rest h k = h
act-Distinct (root p) name stack d rest h k = insert-Distinct name p d h
act-Distinct (child p base) name stack d rest h k =
    bind-Ensures (λ r. Distinct r.1) (λ r. Distinct r.1) (rest base) (merge_onto name p) (k base)
      (λ r g. store-Distinct name r.1 (merge r.0 p) g)
act-Distinct missing name stack d rest h k = tt
act-Distinct (again base) name stack d rest h k = tt

module _ (all : Dict Policy) where
  resolve-Distinct :
      (fuel : ℕ) (name : String) (stack : List String) (d : Dict Policy)
      → Distinct d
      → Ensures (λ r. Distinct r.1) (resolve fuel all name stack d)
  unfolding resolve
  resolve-Distinct zero name stack d h = tt
  resolve-Distinct (suc fuel) name stack d h =
      act-Distinct (visit all name stack d) name stack d
        (λ base. resolve fuel all base (stack ++ name ∷ []) d) h
        (λ base. resolve-Distinct fuel base (stack ++ name ∷ []) d h)

  resolve_each-Distinct :
      (fuel : ℕ) (agents d : Dict Policy)
      → Distinct d
      → Ensures Distinct (resolve_each fuel all agents d)
  unfolding resolve_each
  resolve_each-Distinct fuel [] d h = h
  resolve_each-Distinct fuel ((agent, p) ∷ agents) d h =
      bind-Ensures (λ r. Distinct r.1) Distinct (resolve fuel all agent (agent ∷ []) d)
        (λ r. resolve_each fuel all agents r.1) (resolve-Distinct fuel agent (agent ∷ []) d h)
        (λ r g. resolve_each-Distinct fuel agents r.1 g)

-- The policies of these files as they are served: of a name what its chain merges to, unless that is
-- a template.
abbrev pub Serves : Dict Policy → Loader → Type 0
Serves all loader =
    (name : String) (p : Policy)
    → (get loader name ≡ some p) ↔ (Merged all name p × (is_role_template p ≡ false))

resolved-Serves :
    (all d : Dict Policy) (mtime : ℕ)
    → resolve_inheritance all ≡ found d
    → Serves all (record { policies = without_templates d; mtime = mtime })
unfolding resolve_inheritance
resolved-Serves all d mtime done name p =
    let distinct =
      subst (Ensures Distinct) done (resolve_each-Distinct all (enough all) all [] tt) in
    let filtered = lookup-without_templates name p d distinct in
    let chain = resolve_inheritance-Merges all d name p done in
    ((λ e. (chain.0 (filtered.0 e).0, (filtered.0 e).1)), (λ h. filtered.1 (chain.1 h.0, h.1)))

abbrev pub ServesOf : Files → Loader → Type 0
ServesOf files loader = (all : Dict Policy) × (parse files ≡ parsed all) × Serves all loader

-- What a load leaves: after a return the policies of the files. After an exception the loader is as
-- before, or it was the last reading of the files' time that raised: then it serves the policies of the
-- files, with the time from before.
abbrev pub Loads : (mtime : Option ℕ) → Files → Loader → Bool × Loader → Type 0
Loads mtime files before (true, after) = ServesOf files after
Loads mtime files before (false, after) =
    (after ≡ before) ⊎ ((mtime ≡ none) × (after.mtime ≡ before.mtime) × ServesOf files after)

swapped-Loads :
    (files : Files) (mtime : Option ℕ) (loader : Loader) (all d : Dict Policy)
    → parse files ≡ parsed all
    → resolve_inheritance all ≡ found d
    → Loads mtime files loader (swapped mtime loader (without_templates d))
swapped-Loads files none loader all d e done =
    inr (refl, refl, (all, e, resolved-Serves all d loader.mtime done))
swapped-Loads files (some mtime) loader all d e done = (all, e, resolved-Serves all d mtime done)

swap-Loads :
    (files : Files) (mtime : Option ℕ) (loader : Loader) (all : Dict Policy)
    → parse files ≡ parsed all
    → (r : Resolution (Dict Policy)) → resolve_inheritance all ≡ r
    → Loads mtime files loader (swap mtime loader r)
swap-Loads files mtime loader all e (found d) done = swapped-Loads files mtime loader all d e done
swap-Loads files mtime loader all e (unknown_base a b) done = inl refl
swap-Loads files mtime loader all e (cyclic path) done = inl refl
swap-Loads files mtime loader all e invalid done = inl refl
swap-Loads files mtime loader all e unfinished done = inl refl

parsed-Loads :
    (files : Files) (mtime : Option ℕ) (loader : Loader) (found_ : Parsed)
    → parse files ≡ found_
    → Loads mtime files loader (load_parsed mtime loader found_)
parsed-Loads files mtime loader (parsed all) e =
    swap-Loads files mtime loader all e (resolve_inheritance all) refl
parsed-Loads files mtime loader (duplicate agent first second) e = inl refl
parsed-Loads files mtime loader refused e = inl refl

empty-Serves : (mtime : ℕ) → Serves [] (record { policies = []; mtime = mtime })
unfolding lookup
empty-Serves mtime name p = ((λ e. cc), (λ h. no_chain h.0))
  where
    no_chain : {A : Type 0} → Merged [] name p → A
    no_chain (_, alone a x) = cc
    no_chain (_, onto a x c w) = cc

-- A load that returns serves the policies of the files, and none without files; one that raises leaves
-- the loader as it was, or, where the last reading of the files' time raised, with the policies of the
-- files and the time from before.
pub load-Loads :
    (mtime : Option ℕ) (files : Files) (loader : Loader)
    → Loads mtime files loader (load mtime files loader)
unfolding load
load-Loads mtime absent loader = ([], (unfold parse in refl), empty-Serves loader.mtime)
load-Loads mtime (single ps) loader = parsed-Loads (single ps) mtime loader (parse (single ps)) refl
load-Loads mtime (directory fs) loader =
    parsed-Loads (directory fs) mtime loader (parse (directory fs)) refl
load-Loads mtime unreadable loader = parsed-Loads unreadable mtime loader (parse unreadable) refl

Loads-cases :
    (mtime : Option ℕ) (files : Files) (before : Loader) (r : Bool × Loader)
    → Loads mtime files before r
    → (r.1 ≡ before) ⊎ ServesOf files r.1
Loads-cases mtime files before (true, after) h = inr h
Loads-cases mtime files before (false, after) (inl same) = inl same
Loads-cases mtime files before (false, after) (inr (e, old, h)) = inr h

load_changed-cases :
    (files : Files) (after : Option ℕ) (loader : Loader) (mtime : Option ℕ)
    → (load_changed files after loader mtime ≡ loader)
      ⊎ ServesOf files (load_changed files after loader mtime)
load_changed-cases files after loader none = inl refl
load_changed-cases files after loader (some mtime) =
    elim (Bool-cases (same_time mtime loader.mtime)) [
      | inl same ↦ rw same (inl refl)
      | inr other ↦
          rw other (
            Loads-cases after files loader (load after files loader)
              (load-Loads after files loader))
    ]

round-cases :
    (files : Files) (mtime after : Option ℕ) (loader : Loader)
    → let left =
        watch_round (record { files = files; mtime = mtime; mtime_after = after }) loader in
      (left ≡ loader) ⊎ ServesOf files left
unfolding watch_round
round-cases absent mtime after loader = inl refl
round-cases (single ps) mtime after loader = load_changed-cases (single ps) after loader mtime
round-cases (directory fs) mtime after loader = load_changed-cases (directory fs) after loader mtime
round-cases unreadable mtime after loader = load_changed-cases unreadable after loader mtime

-- However the files change under a watched loader, it serves the policies that it had at the start, or
-- those of the files of one round, all of them: never a part, and none after a failed load.
pub watch-Serves :
    (sights : List Sight) (loader : Loader)
    → (watch sights loader ≡ loader)
      ⊎ ((sight : Sight) × Member sight sights × ServesOf sight.files (watch sights loader))
unfolding watch
watch-Serves [] loader = inl refl
watch-Serves (sight ∷ sights) loader = elim (watch-Serves sights (watch_round sight loader)) [
  | inr (later, m, h) ↦ inr (later, inr m, h)
  | inl kept ↦ elim (round-cases sight.files sight.mtime sight.mtime_after loader) [
    | inl same ↦ inl (kept ∙ same)
    | inr h ↦ inr (sight, inl refl, subst (ServesOf sight.files) (sym kept) h)
  ]
]
