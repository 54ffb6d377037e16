-- ===== src/Prelude/Text.antt =====
-- Texts as Python's `str` methods read them, by code point.
use Prim.Native.Nat.{ℕ, suc, compare, Ordering}
use Prim.Native.Char.{Char, code}
use Prim.Native.String.{String}
use mathlib.Core.Path.{◌≡◌, refl}
use mathlib.Core.Bool.{Bool, true, false, ◌||◌, ◌&&◌}
use mathlib.Core.List.{List}
use guardmcp.Prelude.Tests.{if◌then◌else◌}

-- Whether a character is the one with this code.
abbrev pub is_char : ℕ → Char → Bool
is_char n c = elim (compare (code c) n) [ Ordering.eq ↦ true | _ ↦ false ]

-- `chr(n) in s`
unfoldable pub has_char : ℕ → String → Bool
has_char n String.[] = false
has_char n (String.◌∷◌ c s) = is_char n c || has_char n s

-- A character put in front of the first part of a split.
abbrev pub push_front : Char → List String → List String
push_front c List.[] = List.◌∷◌ (String.◌∷◌ c String.[]) List.[]
push_front c (List.◌∷◌ p ps) = List.◌∷◌ (String.◌∷◌ c p) ps

-- `s.split(chr(n))`
unfoldable pub split : ℕ → String → List String
split n String.[] = List.◌∷◌ "" List.[]
split n (String.◌∷◌ c s) =
    let rest = split n s in if is_char n c then List.◌∷◌ "" rest else push_front c rest

-- `s.split(chr(n), 1)[0]`
unfoldable pub before : ℕ → String → String
before n String.[] = ""
before n (String.◌∷◌ c s) = let rest = before n s in if is_char n c then "" else String.◌∷◌ c rest

-- `s.lstrip(chr(n))`
unfoldable pub lstrip : ℕ → String → String
lstrip n String.[] = ""
lstrip n (String.◌∷◌ c s) = let rest = lstrip n s in if is_char n c then rest else String.◌∷◌ c s

abbrev keep_front : Bool → Char → String → String
keep_front dropped c String.[] = if dropped then "" else String.◌∷◌ c String.[]
keep_front dropped c (String.◌∷◌ d s) = String.◌∷◌ c (String.◌∷◌ d s)

-- `s.rstrip(chr(n))`
unfoldable pub rstrip : ℕ → String → String
rstrip n String.[] = ""
rstrip n (String.◌∷◌ c s) = keep_front (is_char n c) c (rstrip n s)

-- `s.startswith(chr(n))`
abbrev pub starts_with_char : ℕ → String → Bool
starts_with_char n String.[] = false
starts_with_char n (String.◌∷◌ c s) = is_char n c

-- `s.startswith(prefix)`
unfoldable pub starts_with : (prefix : String) → String → Bool
starts_with String.[] s = true
starts_with (String.◌∷◌ c prefix) String.[] = false
starts_with (String.◌∷◌ c prefix) (String.◌∷◌ d s) = is_char (code c) d && starts_with prefix s

-- `part in s`
unfoldable pub has_text : (part : String) → String → Bool
unfolding starts_with
has_text part String.[] = starts_with part String.[]
has_text part (String.◌∷◌ c s) = starts_with part (String.◌∷◌ c s) || has_text part s

-- `len(s)`
abbrev pub text_length : String → ℕ
text_length String.[] = 0
text_length (String.◌∷◌ c s) = suc (text_length s)

split_test :
    split b'.' "a.bc..d" ≡ List.◌∷◌ "a" (List.◌∷◌ "bc" (List.◌∷◌ "" (List.◌∷◌ "d" List.[])))
unfolding split
split_test = refl
