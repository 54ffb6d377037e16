-- ===== src/Examples/Policies.antt =====
-- Policies that extend one another, their loads, and a simulated change.
use guardmcp.Prelude.{
  ℕ, zero, ◌≡◌, ◌≢◌, ◌↔◌, ◌⊎◌, refl, true, false, Option, none, some, List, [], ◌∷◌, String, Bool,
  Member, is_some, inl, inr,
}
use guardmcp.Dict.{Dict, lookup}
use guardmcp.Policy.{Policy, DateTime, Mode, DatabaseScope}
use guardmcp.Policy.Loader.{built}
use guardmcp.Policy.Loader.Chains.{Resolution, found, unfinished, resolve_inheritance}
use guardmcp.Policy.Loader.Chains.Finished.{resolve_inheritance-finished}
use guardmcp.Policy.Loader.Chains.Merges.{Merged, resolve_inheritance-Merges}
use guardmcp.Policy.Loader.Chains.Errors.{resolve_inheritance-found_iff}
use guardmcp.Policy.Loader.Load.{Files, directory, unreadable, Loader, Sight, load, watch}
use guardmcp.Policy.Loader.Load.Served.{Loads, load-Loads, ServesOf, watch-Serves}
use guardmcp.Policy.Explain.{diff_policies, classify_impact, Security}
use guardmcp.Policy.Explain.Differences.{Agrees, diff_policies-empty_iff}
use guardmcp.Policy.Explain.Rating.{classify_impact-databases_unseen}
use guardmcp.Examples.{analyst}

-- A template, and an agent that extends it.
abbrev template : Policy
template = record analyst { agent = "role:analyst" }

abbrev clerk : Policy
clerk = record analyst { agent = "clerk"; extends = some "role:analyst" }

abbrev two : Dict Policy
two = ("role:analyst", template) ∷ ("clerk", clerk) ∷ []

abbrev both : Dict Policy
both = ("role:analyst", template) ∷ ("clerk", built template clerk) ∷ []

-- Two policies that extend each other.
abbrev loop : Dict Policy
loop =
    ("a", record analyst { agent = "a"; extends = some "b" })
    ∷ ("b", record analyst { agent = "b"; extends = some "a" })
    ∷ []

both-found : resolve_inheritance two ≡ found both
unfolding resolve_inheritance guardmcp.Policy.Loader.Chains.resolve_each
    guardmcp.Policy.Loader.Chains.resolve guardmcp.Policy.Loader.Chains.visit lookup
    guardmcp.Dict.insert guardmcp.Prelude.elem guardmcp.Policy.Loader.merge
    guardmcp.Policy.no_overlap guardmcp.Policy.seen_add_all
both-found = refl

resolve_inheritance-finished_example : resolve_inheritance loop ≢ unfinished
resolve_inheritance-finished_example = resolve_inheritance-finished loop

resolve_inheritance-Merges_example :
    (lookup "clerk" both ≡ some (built template clerk)) ↔ Merged two "clerk" (built template clerk)
resolve_inheritance-Merges_example =
    resolve_inheritance-Merges two both "clerk" (built template clerk) both-found

resolve_inheritance-found_iff_example :
    ((d : Dict Policy) × (resolve_inheritance loop ≡ found d))
    ↔ ((name : String) → is_some (lookup name loop) ≡ true → (p : Policy) × Merged loop name p)
resolve_inheritance-found_iff_example = resolve_inheritance-found_iff loop

abbrev empty : Loader
empty = record { policies = []; mtime = 0 }

abbrev folder : Files
folder = directory (("a.yaml", template ∷ []) ∷ ("b.yaml", clerk ∷ []) ∷ [])

load-Loads_example : Loads none folder empty (load none folder empty)
load-Loads_example = load-Loads none folder empty

abbrev sights : List Sight
sights =
    record { files = folder; mtime = some 7; mtime_after = some 7 }
    ∷ record { files = unreadable; mtime = some 8; mtime_after = none }
    ∷ []

watch-Serves_example :
    (watch sights empty ≡ empty)
    ⊎ ((sight : Sight) × Member sight sights × ServesOf sight.files (watch sights empty))
watch-Serves_example = watch-Serves sights empty

abbrev show_time : Option DateTime → String
show_time t = "then"

diff_policies-empty_iff_example :
    (diff_policies show_time template clerk ≡ []) ↔ Agrees template clerk
diff_policies-empty_iff_example = diff_policies-empty_iff show_time template clerk

classify_impact-databases_unseen_example :
    let proposed = record analyst {
      databases_allow = "shop" ∷ [];
      databases = [];
      default_database_scope = none;
      max_cost = none;
    } in
    let lines = diff_policies show_time analyst proposed in
    (lines ≡ []) × ((classify_impact lines true).security ≡ Security.low)
classify_impact-databases_unseen_example =
    classify_impact-databases_unseen show_time analyst true ("shop" ∷ []) [] none none
