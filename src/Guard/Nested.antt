-- ===== src/Guard/Nested.antt =====
-- A masked field behind the first name of a path (plugins/mongodb/guard.py).
use Prim.Native.Char.{Char}
use guardmcp.Prelude.{
  String, ◌≡◌, refl, inl, inr, true, false, Member, List, [], ◌∷◌, elem, Bool-cases,
  starts_with_char, has_char, is_char, before, lstrip,
}
use guardmcp.Json.{Value, str}
use guardmcp.Guard.{head_field, check_str, hits, find_masked_field_references}
use guardmcp.Guard.References.{find_masked_field_references_iff}

-- `"$" + head + "." + name`
abbrev dot : Char
dot = "."

abbrev dollar_sign : Char
dollar_sign = "$"

abbrev pub dotted : String → String → String
dotted String.[] name = String.◌∷◌ dot name
dotted (String.◌∷◌ c head) name = String.◌∷◌ c (dotted head name)

abbrev pub reference : String → String → String
reference head name = String.◌∷◌ dollar_sign (dotted head name)

before-dotted :
    (head name : String) → has_char b'.' head ≡ false → before b'.' (dotted head name) ≡ head
unfolding before has_char
before-dotted String.[] name h = refl
before-dotted (String.◌∷◌ c head) name h = elim (Bool-cases (is_char b'.' c)) [
  | inl e ↦ cc (rw e at h)
  | inr e ↦ rw (e, before-dotted head name (rw e at h))
]

lstrip-dotted :
    (head name : String)
    → starts_with_char b'$' head ≡ false
    → lstrip b'$' (dotted head name) ≡ dotted head name
unfolding lstrip
lstrip-dotted String.[] name h = refl
lstrip-dotted (String.◌∷◌ c head) name h = rw h

head_field-reference :
    (head name : String)
    → has_char b'.' head ≡ false
    → starts_with_char b'$' head ≡ false
    → head_field (reference head name) ≡ head
unfolding head_field lstrip
head_field-reference head name plain bare =
    rw (lstrip-dotted head name bare) (before-dotted head name plain)

-- A path through another field is not reported, even to a name that is masked at every depth: the
-- check reads the first name of a path only.
pub nested_reference_unseen :
    (head name : String) (masked : List String)
    → has_char b'.' head ≡ false
    → starts_with_char b'$' head ≡ false
    → elem head masked ≡ false
    → find_masked_field_references (str (reference head name)) masked ≡ []
unfolding find_masked_field_references hits check_str
nested_reference_unseen head name [] plain bare unlisted = refl
nested_reference_unseen head name (x ∷ xs) plain bare unlisted =
    rw (head_field-reference head name plain bare, unlisted)

before-no_dot : (s : String) → has_char b'.' (before b'.' s) ≡ false
unfolding before has_char
before-no_dot String.[] = refl
before-no_dot (String.◌∷◌ c s) = elim (Bool-cases (is_char b'.' c)) [
  | inl e ↦ rw e refl
  | inr e ↦ rw (e, e, before-no_dot s) refl
]

-- An entry with a dot, which masks a path in results, is never reported of a pipeline.
pub dotted_entry_unseen :
    (f : String) (pipeline : Value) (masked : List String)
    → has_char b'.' f ≡ true
    → ¬ Member f (find_masked_field_references pipeline masked)
unfolding head_field
dotted_entry_unseen f pipeline masked h m =
    let ((s, o, dollar, same), listed) = (find_masked_field_references_iff f pipeline masked).0 m in
    cc (before-no_dot (lstrip b'$' s), same, h)
