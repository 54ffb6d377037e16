-- ===== src/Policy/Loader/Load.antt =====
-- core/policy/loader.py: `PolicyLoader.load` and `get`, and the role templates of core/policy/models.py.
pub mod Served
use Prim.Native.Nat.{compare, Ordering}
use guardmcp.Prelude.{
  ℕ, String, Bool, true, false, Option, none, some, List, [], ◌∷◌, is_some, not, if◌then◌else◌,
  starts_with,
}
use guardmcp.Dict.{Dict, lookup, insert}
use guardmcp.Policy.{Policy}
use guardmcp.Policy.Loader.Chains.{
  Resolution, found, unknown_base, cyclic, invalid, unfinished, resolve_inheritance,
}

-- `Policy.is_role_template`
unfoldable pub is_role_template : Policy → Bool
is_role_template p = starts_with "role:" p.agent

-- What stands at the path, each file as the policies that its items validate to: an empty file of a
-- directory has none. `unreadable` is what yaml or a validator refuses.
pub data Files : Type 0 where
  absent : Files
  single : List Policy → Files
  directory : List (String × List Policy) → Files
  unreadable : Files

-- The policies that a load finds, or what it raises.
pub data Parsed : Type 0 where
  parsed : Dict Policy → Parsed
  duplicate : (agent : String) (first : Option String) (second : String) → Parsed
  refused : Parsed

-- `parsed[policy.agent] = policy`, for each policy of one file
unfoldable pub parse_single : Dict Policy → List Policy → Dict Policy
parse_single d [] = d
parse_single d (p ∷ ps) = parse_single (insert p.agent p d) ps

-- The policies of a file of a directory; `rest` goes on with the other files.
unfoldable pub parse_file :
    (file : String)
    → List Policy
    → Dict Policy
    → (source_of : Dict String) → (rest : Dict Policy → Dict String → Parsed) → Parsed
parse_file file [] d source_of rest = rest d source_of
parse_file file (p ∷ ps) d source_of rest = elim (is_some (lookup p.agent d)) [
  | true ↦ duplicate p.agent (lookup p.agent source_of) file
  | false ↦ parse_file file ps (insert p.agent p d) (insert p.agent file source_of) rest
]

unfoldable pub parse_directory :
    List (String × List Policy) → Dict Policy → (source_of : Dict String) → Parsed
parse_directory [] d source_of = parsed d
parse_directory ((file, ps) ∷ files) d source_of =
    parse_file file ps d source_of (parse_directory files)

unfoldable pub parse : Files → Parsed
unfolding parse_single parse_file parse_directory
parse absent = parsed []
parse (single ps) = parsed (parse_single [] ps)
parse (directory files) = parse_directory files [] []
parse unreadable = refused

-- `{name: p for name, p in resolved.items() if not p.is_role_template()}`
unfoldable pub without_templates : Dict Policy → Dict Policy
without_templates [] = []
without_templates ((name, p) ∷ rest) =
    let kept = without_templates rest in if is_role_template p then kept else (name, p) ∷ kept

abbrev pub same_time : ℕ → ℕ → Bool
same_time a b = elim (compare a b) [ Ordering.eq ↦ true | _ ↦ false ]

pub record Loader : Type 0 where
  pub policies : Dict Policy
  pub mtime : ℕ

-- The swap of the policies, and then the time of the files: where that raises, the policies are
-- swapped and the time is the old one.
abbrev pub swapped : (mtime : Option ℕ) → Loader → Dict Policy → Bool × Loader
swapped none loader new_policies = (false, record loader { policies = new_policies })
swapped (some mtime) loader new_policies = (true, record { policies = new_policies; mtime = mtime })

-- The end of `load`, after a resolution that raised nothing.
abbrev pub swap : (mtime : Option ℕ) → Loader → Resolution (Dict Policy) → Bool × Loader
swap mtime loader (found resolved) = swapped mtime loader (without_templates resolved)
swap mtime loader _ = (false, loader)

abbrev pub load_parsed : (mtime : Option ℕ) → Loader → Parsed → Bool × Loader
load_parsed mtime loader (parsed d) = swap mtime loader (resolve_inheritance d)
load_parsed mtime loader _ = (false, loader)

-- `load`: whether it returned (or raised), and the loader after it; `mtime` is what
-- `_current_mtime` gives at its end, `none` where it raises. A path that is gone leaves the time as it
-- was.
unfoldable pub load : (mtime : Option ℕ) → Files → Loader → Bool × Loader
load mtime absent loader = (true, record loader { policies = [] })
load mtime files loader = load_parsed mtime loader (parse files)

-- `get`
abbrev pub get : Loader → String → Option Policy
get loader agent = lookup agent loader.policies

-- What one round of `_watch` sees: the files, their time before the load and after it, `none` where
-- reading it raised.
pub record Sight : Type 0 where
  pub files : Files
  pub mtime : Option ℕ
  pub mtime_after : Option ℕ

abbrev pub load_changed : Files → (mtime_after : Option ℕ) → Loader → Option ℕ → Loader
load_changed files mtime_after loader none = loader
load_changed files mtime_after loader (some mtime) =
    if same_time mtime loader.mtime then loader else (load mtime_after files loader).1

-- A round of `_watch`: what a load raises is logged, and the loader stays as the load left it.
unfoldable pub watch_round : Sight → Loader → Loader
watch_round sight loader = elim sight.files [
  | absent ↦ loader
  | _ ↦ load_changed sight.files sight.mtime_after loader sight.mtime
]

unfoldable pub watch : List Sight → Loader → Loader
watch [] loader = loader
watch (sight ∷ sights) loader = watch sights (watch_round sight loader)
