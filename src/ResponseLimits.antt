-- ===== src/ResponseLimits.antt =====
-- core/response_limits.py: the cap of a response by its size.  The size of an item's JSON is a
-- parameter.
use Prim.Native.String.{◌++◌ as append}
use guardmcp.Prelude.{
  text_length, ℕ, zero, suc, ◌+◌, ◌≤◌, ◌<◌, ◌≡◌, refl, ap, String, Bool, true, false, not, ◌&&◌,
  ◌||◌, any, append_nil, sym, ◌∙◌, List, [], ◌∷◌, ◌++◌, ltb, is_empty, if◌then◌else◌, arith,
  Bool-cases, inl, inr, ltb→lt,
}

ltb→ge : (a b : ℕ) → ltb a b ≡ false → b ≤ a
ltb→ge a b h = ground arith

module _ {A : Type 0} (size : A → ℕ) (max_bytes : ℕ) where
  -- The loop, with whether `kept` is empty, its size so far, and the items that are left.
  unfoldable pub keep : (none_kept : Bool) → (total : ℕ) → List A → List A × Bool
  keep none_kept total [] = ([], false)
  keep none_kept total (item ∷ rest) =
      let (kept, truncated) = keep false (total + size item) rest in
      if not none_kept && ltb max_bytes (total + size item)
      then ([], true)
      else if none_kept && ltb max_bytes (size item)
      then ([], true)
      else (item ∷ kept, truncated)

  -- `cap_by_bytes`: the items that are kept, and whether the response is truncated.
  unfoldable pub cap_by_bytes : List A → List A × Bool
  unfolding keep
  cap_by_bytes items = keep true 0 items

  abbrev pub sizes : List A → ℕ
  sizes [] = 0
  sizes (item ∷ rest) = size item + sizes rest

  -- What is kept of the items, beside a total, is what goes in.
  abbrev pub Overflows : ℕ → List A → Type 0
  Overflows total [] = Unit
  Overflows total (item ∷ rest) = max_bytes < total + size item

  abbrev pub Capped : ℕ → List A → List A × Bool → Type 0
  Capped total items (kept, truncated) =
      (rest : List A) × ((items ≡ kept ++ rest)
        × ((total + sizes kept ≤ max_bytes)
            × (Overflows (total + sizes kept) rest × (truncated ≡ not (is_empty rest)))))

  put-Capped :
      (total : ℕ) (item : A) (items : List A) (o : List A × Bool)
      → Capped (total + size item) items o
      → Capped total (item ∷ items) (item ∷ o.0, o.1)
  put-Capped total item items (kept, truncated) (rest, (same, (fits, (over, t)))) =
      (rest, (ap (λ l. item ∷ l) same, (omega arith, (shift rest over, t))))
    where
      shift :
          (l : List A)
          → Overflows (total + size item + sizes kept) l
          → Overflows (total + (size item + sizes kept)) l
      shift [] h = tt
      shift (x ∷ xs) h = omega arith

  stop-Capped :
      (total : ℕ) (item : A) (items : List A)
      → total ≤ max_bytes
      → max_bytes < total + size item
      → Capped total (item ∷ items) ([], true)
  stop-Capped total item items low over = (item ∷ items, (refl, (omega arith, (omega arith, refl))))

  keep-Capped :
      (none_kept : Bool) (total : ℕ) (items : List A)
      → (none_kept ≡ true → total ≡ 0)
      → total ≤ max_bytes
      → Capped total items (keep none_kept total items)
  unfolding keep
  keep-Capped none_kept total [] start low = ([], (refl, (omega arith, (tt, refl))))
  keep-Capped true total (item ∷ items) start low = elim (Bool-cases (ltb max_bytes (size item))) [
    | inl over ↦ rw over (
        stop-Capped total item items low
          (omega (arith, ltb→lt max_bytes (size item) over, start refl)))
    | inr fits ↦ rw fits (
        put-Capped total item items (keep false (total + size item) items) (
          keep-Capped false (total + size item) items (λ h. cc h)
            (omega (arith, ltb→ge max_bytes (size item) fits, start refl))))
  ]
  keep-Capped false total (item ∷ items) start low =
      elim (Bool-cases (ltb max_bytes (total + size item))) [
        | inl over ↦
            rw over (stop-Capped total item items low (ltb→lt max_bytes (total + size item) over))
        | inr fits ↦ rw fits (
            put-Capped total item items (keep false (total + size item) items) (
              keep-Capped false (total + size item) items (λ h. cc h)
                (ltb→ge max_bytes (total + size item) fits)))
      ]

  -- The items that are kept are the first ones, as many as fit into the budget: they do not exceed it,
  -- and with the next one they would; the response is marked as truncated exactly when one is left.
  pub cap_by_bytes-Capped : (items : List A) → Capped 0 items (cap_by_bytes items)
  unfolding cap_by_bytes
  cap_by_bytes-Capped items = keep-Capped true 0 items (λ h. refl) (omega arith)

-- `line[:n]`
unfoldable pub first_chars : ℕ → String → String
first_chars zero s = ""
first_chars (suc n) String.[] = ""
first_chars (suc n) (String.◌∷◌ c s) = String.◌∷◌ c (first_chars n s)

module _ (bytes : String → ℕ) (max_bytes max_line_chars : ℕ) where
  abbrev pub is_long : String → Bool
  is_long line = ltb max_line_chars (text_length line)

  abbrev pub shortened : List String → List String
  shortened [] = []
  shortened (line ∷ lines) =
      (if is_long line then append (first_chars max_line_chars line) "...[truncated]" else line)
      ∷ shortened lines

  -- `cap_lines`
  unfoldable pub cap_lines : List String → List String × Bool
  cap_lines lines =
      let (kept, bytes_truncated) = cap_by_bytes bytes max_bytes (shortened lines) in
      (kept, any is_long lines || bytes_truncated)

  shortened-short : (lines : List String) → any is_long lines ≡ false → shortened lines ≡ lines
  shortened-short [] h = refl
  shortened-short (line ∷ lines) h =
      let ih = shortened-short lines (ground arith) in
      let short : is_long line ≡ false = ground arith in rw (short, ih) refl

  kept_all :
      (o : List String × Bool) (items : List String)
      → Capped bytes max_bytes 0 items o
      → o.1 ≡ false
      → o.0 ≡ items
  kept_all (kept, t) items ([], (same, (fits, (over, marked)))) h = sym (same ∙ append_nil kept)
  kept_all (kept, t) items (x ∷ xs, (same, (fits, (over, marked)))) h = cc

  -- Lines that come back without a mark are the lines that went in, each of them whole.
  pub cap_lines-unmarked :
      (lines : List String) → (cap_lines lines).1 ≡ false → (cap_lines lines).0 ≡ lines
  unfolding cap_lines
  cap_lines-unmarked lines h =
      kept_all (cap_by_bytes bytes max_bytes (shortened lines)) (shortened lines)
        (cap_by_bytes-Capped bytes max_bytes (shortened lines)) (ground arith)
      ∙ shortened-short lines (ground arith)
