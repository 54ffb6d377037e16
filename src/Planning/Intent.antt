-- ===== src/Planning/Intent.antt =====
-- core/planning/planner.py: what is read in an intent, a limit and a sort.
use Prim.Native.Nat.{◌*◌}
use Prim.Native.Char.{Char, code}
use Prim.Native.String.{char_at}
use guardmcp.Prelude.{
  ℕ, ◌+◌, ◌-◌, String, Bool, true, false, Option, none, some, List, [], ◌∷◌, ◌&&◌, ◌||◌, any, elem,
  has_text, leb, ◌===◌, if◌then◌else◌, ◌≡◌, refl,
}

within : (lo hi : ℕ) → Char → Bool
within lo hi c = leb lo (code c) && leb (code c) hi

lower_char : Char → Char
lower_char c =
    if leb 65 (code c) && leb (code c) 90
    then char_at "abcdefghijklmnopqrstuvwxyz" (code c - 65)
    else c

-- `s.lower()`, of the letters that the patterns read.
unfoldable pub lower : String → String
unfolding lower_char
lower String.[] = ""
lower (String.◌∷◌ c s) = String.◌∷◌ (lower_char c) (lower s)

-- `[a-z_]`, `[0-9]`, and `\w` of ASCII
unfoldable pub is_letter : Char → Bool
unfolding within
is_letter c = within 97 122 c || within 65 90 c || within 95 95 c

unfoldable pub is_digit : Char → Bool
unfolding within
is_digit c = within 48 57 c

abbrev pub is_word : Char → Bool
is_word c = is_letter c || is_digit c

abbrev pub flush : String → List String → List String
flush String.[] words = words
flush (String.◌∷◌ c s) words = String.◌∷◌ c s ∷ words

abbrev pub cut_step : Bool → Char → String × List String → String × List String
cut_step true c (word, words) = (String.◌∷◌ c word, words)
cut_step false c (word, words) = ("", flush word words)

-- The run that the text begins with, and the runs after it.
unfoldable pub cut : (Char → Bool) → String → String × List String
cut p String.[] = ("", [])
cut p (String.◌∷◌ c s) = cut_step (p c) c (cut p s)

-- `re.findall` of `[…]+`: the longest runs.
unfoldable pub runs : (Char → Bool) → String → List String
unfolding cut
runs p s = let (word, words) = cut p s in flush word words

all_digits : String → Bool
unfolding is_digit
all_digits String.[] = true
all_digits (String.◌∷◌ c s) = is_digit c && all_digits s

digits : ℕ → String → ℕ
digits n String.[] = n
digits n (String.◌∷◌ c s) = digits (n * 10 + (code c - 48)) s

-- `\b(\d+)\b`: the first run of word characters that are digits, all of them.
unfoldable pub first_number : List String → Option ℕ
unfolding all_digits digits
first_number [] = none
first_number (w ∷ ws) =
    let rest = first_number ws in if all_digits w then some (digits 0 w) else rest

abbrev pub limit_words : List String
limit_words = "top" ∷ "first" ∷ "last" ∷ "latest" ∷ "limit" ∷ []

abbrev pub top_words : List String
top_words = "top" ∷ "highest" ∷ "most" ∷ "largest" ∷ []

-- `_detect_limit`
unfoldable pub detect_limit : (intent : String) → Option ℕ
unfolding lower runs is_letter is_digit first_number has_text
detect_limit intent =
    if any (λ w. has_text w (lower intent)) limit_words
    then first_number (runs is_word (lower intent))
    else none

-- `tokens[tokens.index("by") + 1:] if "by" in tokens else tokens`
abbrev pub after_by : List String → (tokens : List String) → List String
after_by tokens [] = tokens
after_by tokens (t ∷ ts) = let rest = after_by tokens ts in if t === "by" then ts else rest

abbrev pub first_field : (fields tokens : List String) → Option String
first_field fields [] = none
first_field fields (t ∷ ts) =
    let rest = first_field fields ts in if elem t fields then some t else rest

-- `_detect_sort`: the field to sort by, descending.
unfoldable pub detect_sort : (intent : String) → (schema_fields : List String) → Option String
unfolding lower runs is_letter has_text elem
detect_sort intent schema_fields =
    if any (λ w. has_text w (lower intent)) top_words
    then (let tokens = runs is_letter (lower intent) in
        first_field schema_fields (after_by tokens tokens))
    else none

limit_test : detect_limit "Top 10 customers by 2x Revenue" ≡ some 10
unfolding detect_limit
limit_test = refl

sort_test :
    detect_sort "Top 10 customers by Revenue" ("customers" ∷ "revenue" ∷ []) ≡ some "revenue"
unfolding detect_sort
sort_test = refl
