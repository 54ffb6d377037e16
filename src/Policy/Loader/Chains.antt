-- ===== src/Policy/Loader/Chains.antt =====
-- core/policy/loader.py: the chains of `extends` that `_resolve_inheritance` merges.
pub mod Visited
pub mod Merges
pub mod Finished
pub mod Errors
use guardmcp.Prelude.{
  ℕ, zero, suc, ◌+◌, String, Bool, true, false, Option, none, some, List, [], ◌∷◌, ◌++◌, elem,
  length,
}
use guardmcp.Dict.{Dict, lookup, insert}
use guardmcp.Policy.{Policy}
use guardmcp.Policy.Loader.{merge}

-- What a resolution comes to: a result, one of the errors that it raises with the data of its message,
-- the refusal of a validator, or the end of the fuel.
pub data Resolution (A : Type 0) : Type 0 where
  found : A → Resolution A
  unknown_base : (extending base : String) → Resolution A
  cyclic : (path : List String) → Resolution A
  invalid : Resolution A
  unfinished : Resolution A

infixl 5 ◌>>=◌
abbrev pub ◌>>=◌ : {A B : Type 0} → Resolution A → (A → Resolution B) → Resolution B
found a >>= f = f a
unknown_base extending base >>= f = unknown_base extending base
cyclic path >>= f = cyclic path
invalid >>= f = invalid
unfinished >>= f = unfinished

-- What `resolve` does next with a name, by its tests in their order.
pub data Visit : Type 0 where
  memo root : Policy → Visit
  child : Policy → (base : String) → Visit
  missing : Visit
  again : (base : String) → Visit

abbrev pub last_of : String → List String → String
last_of s [] = s
last_of s (x ∷ xs) = last_of x xs

abbrev pub by_base : (stack : List String) → Policy → Option String → Visit
by_base stack policy none = root policy
by_base stack policy (some base) = elim (elem base stack) [
  | true ↦ again base
  | false ↦ child policy base
]

abbrev pub by_policy : (stack : List String) → Option Policy → Visit
by_policy stack none = missing
by_policy stack (some policy) = by_base stack policy policy.extends

abbrev pub by_memo : Dict Policy → String → (stack : List String) → Option Policy → Visit
by_memo parsed name stack (some policy) = memo policy
by_memo parsed name stack none = by_policy stack (lookup name parsed)

unfoldable pub visit :
    Dict Policy → String → (stack : List String) → (resolved : Dict Policy) → Visit
visit parsed name stack resolved = by_memo parsed name stack (lookup name resolved)

-- `merged = _merge(base, policy); resolved[name] = merged`
abbrev pub store : String → Dict Policy → Option Policy → Resolution (Policy × Dict Policy)
store name resolved none = invalid
store name resolved (some merged) = found (merged, insert name merged resolved)

abbrev pub merge_onto : String → Policy → Policy × Dict Policy → Resolution (Policy × Dict Policy)
merge_onto name policy (base, resolved) = store name resolved (merge base policy)

-- What follows a visit; `rest` resolves the base.
abbrev pub act :
    Visit
    → String
    → (stack : List String) → (resolved : Dict Policy)
    → (rest : String → Resolution (Policy × Dict Policy)) → Resolution (Policy × Dict Policy)
act (memo policy) name stack resolved rest = found (policy, resolved)
act (root policy) name stack resolved rest = found (policy, insert name policy resolved)
act (child policy base) name stack resolved rest = rest base >>= merge_onto name policy
act missing name stack resolved rest = unknown_base (last_of "" stack) name
act (again base) name stack resolved rest = cyclic (stack ++ base ∷ [])

-- `resolve`, with the dictionary that it fills.
unfoldable pub resolve :
    ℕ
    → Dict Policy
    → String
    → (stack : List String) → (resolved : Dict Policy) → Resolution (Policy × Dict Policy)
resolve zero parsed name stack resolved = unfinished
resolve (suc fuel) parsed name stack resolved =
    act (visit parsed name stack resolved) name stack resolved
      (λ base. resolve fuel parsed base (stack ++ name ∷ []) resolved)

-- `for agent in parsed: resolve(agent, (agent,))`
unfoldable pub resolve_each :
    ℕ → Dict Policy → (agents : Dict Policy) → (resolved : Dict Policy) → Resolution (Dict Policy)
resolve_each fuel parsed [] resolved = found resolved
resolve_each fuel parsed ((agent, _) ∷ agents) resolved =
    resolve fuel parsed agent (agent ∷ []) resolved >>= λ r. resolve_each fuel parsed agents r.1

-- The fuel: each call but two moves on to a policy that is not on the stack.
abbrev pub enough : Dict Policy → ℕ
enough parsed = length parsed + length parsed + 2

-- `_resolve_inheritance`
unfoldable pub resolve_inheritance : Dict Policy → Resolution (Dict Policy)
resolve_inheritance parsed = resolve_each (enough parsed) parsed parsed []
