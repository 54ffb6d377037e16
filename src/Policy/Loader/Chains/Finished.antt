-- ===== src/Policy/Loader/Chains/Finished.antt =====
-- The resolution of chains ends.
use guardmcp.Prelude.{
  ℕ, zero, suc, ◌+◌, ◌≤◌, ◌<◌, String, ◌≡◌, ◌≢◌, refl, subst, inl, inr, false, Option, none, some,
  List, [], ◌∷◌, ◌++◌, elem, elem-append, length, Bool-cases, arith, ◌===◌, eq_iff, ◌||◌,
  if◌then◌else◌,
}
use guardmcp.Dict.{Dict, lookup}
use guardmcp.Policy.{Policy}
use guardmcp.Policy.Loader.{merge}
use guardmcp.Policy.Loader.Chains.{
  Resolution, found, unknown_base, cyclic, invalid, unfinished, ◌>>=◌, Visit, memo, root, child,
  missing, again, visit, merge_onto, store, act, resolve, resolve_each, enough, resolve_inheritance,
}

-- How many of the policies are not on the stack.
pub unseen : List String → Dict Policy → ℕ
unseen stack [] = 0
unseen stack ((k, _) ∷ rest) = (if elem k stack then 0 else 1) + unseen stack rest

pub unseen-le : (stack : List String) (d : Dict Policy) → unseen stack d ≤ length d
unfolding unseen
unseen-le stack [] = omega arith
unseen-le stack ((k, _) ∷ rest) = ground (arith, unseen-le stack rest)

elem-last :
    (k name : String) (stack : List String)
    → elem k (stack ++ name ∷ []) ≡ (elem k stack || (name === k))
unfolding elem
elem-last k name stack = ground (arith, elem-append k stack (name ∷ []))

unseen-append :
    (name : String) (stack : List String) (d : Dict Policy)
    → unseen (stack ++ name ∷ []) d ≤ unseen stack d
unfolding unseen
unseen-append name stack [] = omega arith
unseen-append name stack ((k, _) ∷ rest) =
    ground (arith, unseen-append name stack rest, elem-last k name stack)

-- A policy that was not on the stack counts once more.
unseen-append_new :
    (name : String) (stack : List String) (d : Dict Policy) (p : Policy)
    → lookup name d ≡ some p
    → elem name stack ≡ false
    → unseen (stack ++ name ∷ []) d < unseen stack d
unfolding unseen lookup
unseen-append_new name stack [] p h new = cc
unseen-append_new name stack ((k, _) ∷ rest) p h new = ground (
  arith,
  unseen-append name stack rest,
  unseen-append_new name stack rest p,
  elem-last k name stack,
  eq_iff k name,
  eq_iff name k,
)

-- What is left to do: it falls with every call.
abbrev pub work : Dict Policy → String → List String → ℕ
work parsed name stack =
    unseen stack parsed + unseen stack parsed + (if elem name stack then 1 else 0)

pub child_of :
    (parsed : Dict Policy) (name : String) (stack : List String) (resolved : Dict Policy)
    (p : Policy) (base : String)
    → visit parsed name stack resolved ≡ child p base
    → (lookup name parsed ≡ some p) × (p.extends ≡ some base) × (elem base stack ≡ false)
unfolding visit
child_of parsed name stack resolved p base h = ground arith

pub work-child :
    (parsed : Dict Policy) (name : String) (stack : List String) (p : Policy) (base : String)
    → lookup name parsed ≡ some p
    → elem base stack ≡ false
    → work parsed base (stack ++ name ∷ []) < work parsed name stack
work-child parsed name stack p base h new = elim (Bool-cases (elem name stack)) [
  | inl old ↦
      rw (old, elem-last base name stack, new)
        (ground (arith, eq_iff name base, unseen-append name stack parsed, other))
  | inr fresh ↦ ground (arith, unseen-append_new name stack parsed p h fresh)
]
  where
    other : (name ≡ base) → elem name stack ≡ false
    other e = rw e new

abbrev pub Finished : {A : Type 0} → Resolution A → Type 0
Finished unfinished = ⊥
Finished _ = Unit

bind-Finished :
    {A B : Type 0} (r : Resolution A) (f : A → Resolution B)
    → Finished r
    → ((a : A) → r ≡ found a → Finished (f a))
    → Finished (r >>= f)
bind-Finished (found a) f h k = k a refl
bind-Finished (unknown_base e b) f h k = tt
bind-Finished (cyclic path) f h k = tt
bind-Finished invalid f h k = tt
bind-Finished unfinished f h k = absurd h

store-Finished :
    (name : String) (resolved : Dict Policy) (merged : Option Policy)
    → Finished (store name resolved merged)
store-Finished name resolved none = tt
store-Finished name resolved (some merged) = tt

act-Finished :
    (v : Visit) (name : String) (stack : List String) (resolved : Dict Policy)
    (rest : String → Resolution (Policy × Dict Policy))
    → ((p : Policy) (base : String) → v ≡ child p base → Finished (rest base))
    → Finished (act v name stack resolved rest)
act-Finished (memo policy) name stack resolved rest h = tt
act-Finished (root policy) name stack resolved rest h = tt
act-Finished (child policy base) name stack resolved rest h =
    bind-Finished (rest base) (merge_onto name policy) (h policy base refl)
      (λ r e. store-Finished name r.1 (merge r.0 policy))
act-Finished missing name stack resolved rest h = tt
act-Finished (again base) name stack resolved rest h = tt

module _ (parsed : Dict Policy) where
  resolve-Finished :
      (fuel : ℕ) (name : String) (stack : List String) (resolved : Dict Policy)
      → work parsed name stack < fuel
      → Finished (resolve fuel parsed name stack resolved)
  unfolding resolve
  resolve-Finished zero name stack resolved h = absurd (omega arith)
  resolve-Finished (suc fuel) name stack resolved h =
      act-Finished (visit parsed name stack resolved) name stack resolved
        (λ base. resolve fuel parsed base (stack ++ name ∷ []) resolved)
        (λ p base e.
          let (known, _, new) = child_of parsed name stack resolved p base e in
          resolve-Finished fuel base (stack ++ name ∷ []) resolved
            (omega (arith, work-child parsed name stack p base known new)))

  pub resolve_each-Finished :
      (agents resolved : Dict Policy)
      → Finished (resolve_each (enough parsed) parsed agents resolved)
  unfolding resolve_each
  resolve_each-Finished [] resolved = tt
  resolve_each-Finished ((agent, _) ∷ agents) resolved =
      bind-Finished (resolve (enough parsed) parsed agent (agent ∷ []) resolved)
        (λ r. resolve_each (enough parsed) parsed agents r.1)
        (resolve-Finished (enough parsed) agent (agent ∷ []) resolved
          (ground (arith, unseen-le (agent ∷ []) parsed)))
        (λ r e. resolve_each-Finished agents r.1)

-- The resolution always ends: with every policy resolved or with an error, whatever cycles and missing
-- bases the policies have.
pub resolve_inheritance-finished : (parsed : Dict Policy) → resolve_inheritance parsed ≢ unfinished
unfolding resolve_inheritance
resolve_inheritance-finished parsed e = subst Finished e (resolve_each-Finished parsed parsed [])
