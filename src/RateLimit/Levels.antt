-- ===== src/RateLimit/Levels.antt =====
-- The level of an agent's bucket: the tokens that it would have, were it refilled now.
use guardmcp.Prelude.{
  ℕ, ◌≤◌, ◌<◌, String, ◌≡◌, refl, ap, subst, ◌∙◌, sym, inl, inr, Bool, true, false, Option, none,
  some, [], ◌∷◌, length, ltb, leb, if◌then◌else◌, ◌===◌, eq_iff, arith, Bool-cases,
}
use guardmcp.Dict.{Dict, lookup, insert, lookup-insert, Distinct, insert-Distinct}
use guardmcp.RateLimit.{
  Limits, Bucket, capacity, enabled, left_of, bucket_of, refilled, is_idle, without_stale,
  maybe_evict, check,
}

module _ (l : Limits) where
  abbrev pub level_of : (now : ℕ) → Option Bucket → ℕ
  level_of now none = capacity l
  level_of now (some b) = refilled l now b

  abbrev pub level : String → (now : ℕ) → Dict Bucket → ℕ
  level agent now buckets = level_of now (lookup agent buckets)

  none-without_stale :
      (a : String) (now : ℕ) (d : Dict Bucket)
      → lookup a d ≡ none
      → lookup a (without_stale l now d) ≡ none
  unfolding without_stale lookup
  none-without_stale a now [] h = refl
  none-without_stale a now ((k, b) ∷ rest) h = ground (arith, none-without_stale a now rest)

  -- A bucket that is full stays full.
  refilled_full : (t : ℕ) (b : Bucket) → capacity l ≤ b.tokens → refilled l t b ≡ capacity l
  refilled_full t b h = ground arith

  is_idle-full : (now : ℕ) (b : Bucket) → is_idle l now b ≡ true → capacity l ≤ b.tokens
  is_idle-full now b h = ground arith

  level_head :
      (a k : String) (t : ℕ) (b : Bucket) (d : Dict Bucket)
      → (k === a) ≡ true
      → level a t ((k, b) ∷ d) ≡ refilled l t b
  unfolding lookup
  level_head a k t b d same = rw same refl

  level_tail :
      (a k : String) (t : ℕ) (b : Bucket) (d : Dict Bucket)
      → (k === a) ≡ false
      → level a t ((k, b) ∷ d) ≡ level a t d
  unfolding lookup
  level_tail a k t b d other = rw other refl

  -- What is dropped is full, so that no level changes, then or later.
  level-without_stale :
      (a : String) (now t : ℕ) (d : Dict Bucket)
      → Distinct d
      → level a t (without_stale l now d) ≡ level a t d
  unfolding without_stale
  level-without_stale a now t [] h = refl
  level-without_stale a now t ((k, b) ∷ rest) (new, h) = elim (Bool-cases (is_idle l now b)) [
    | inl stale ↦ rw stale (elim (Bool-cases (k === a)) [
      | inl same ↦
          let gone =
            none-without_stale a now rest
              (subst (λ i. lookup i rest ≡ none) ((eq_iff k a).0 same) new) in
          ap (level_of t) gone
          ∙ sym (level_head a k t b rest same ∙ refilled_full t b (is_idle-full now b stale))
      | inr other ↦ level-without_stale a now t rest h ∙ sym (level_tail a k t b rest other)
    ])
    | inr live ↦ rw live (elim (Bool-cases (k === a)) [
      | inl same ↦
          level_head a k t b (without_stale l now rest) same ∙ sym (level_head a k t b rest same)
      | inr other ↦
          level_tail a k t b (without_stale l now rest) other
          ∙ level-without_stale a now t rest h
          ∙ sym (level_tail a k t b rest other)
    ])
  ]

  without_stale-Distinct :
      (now : ℕ) (d : Dict Bucket) → Distinct d → Distinct (without_stale l now d)
  unfolding without_stale
  without_stale-Distinct now [] h = tt
  without_stale-Distinct now ((k, b) ∷ rest) (new, h) = elim (Bool-cases (is_idle l now b)) [
    | inl stale ↦ rw stale (without_stale-Distinct now rest h)
    | inr live ↦ rw live (none-without_stale k now rest new, without_stale-Distinct now rest h)
  ]

  level-maybe_evict :
      (a : String) (now t : ℕ) (d : Dict Bucket)
      → Distinct d
      → level a t (maybe_evict l now d) ≡ level a t d
  unfolding maybe_evict
  level-maybe_evict a now t d h = ground (arith, level-without_stale a now t d h)

  maybe_evict-Distinct : (now : ℕ) (d : Dict Bucket) → Distinct d → Distinct (maybe_evict l now d)
  unfolding maybe_evict
  maybe_evict-Distinct now d h = elim (Bool-cases (ltb (length d) 1024)) [
    | inl small ↦ rw small h
    | inr large ↦ rw large (without_stale-Distinct now d h)
  ]

  level-insert :
      (a k : String) (t : ℕ) (b : Bucket) (d : Dict Bucket)
      → level a t (insert k b d) ≡ (if k === a then refilled l t b else level a t d)
  level-insert a k t b d = ap (level_of t) (lookup-insert a k b d) ∙ by_test (k === a)
    where
      by_test :
          (c : Bool)
          → level_of t (if c then some b else lookup a d)
            ≡ (if c then refilled l t b else level a t d)
      by_test true = refl
      by_test false = refl

  bucket_level :
      (agent : String) (created now : ℕ) (d : Dict Bucket)
      → refilled l now (bucket_of l created (lookup agent d)) ≡ level agent now d
  bucket_level agent created now d = by_bucket (lookup agent d)
    where
      by_bucket : (o : Option Bucket) → refilled l now (bucket_of l created o) ≡ level_of now o
      by_bucket none = ground arith
      by_bucket (some b) = refl

  -- An enabled limiter is one token bucket for each agent, whose level alone decides: a check allows
  -- exactly when the level holds a token, which it takes, and leaves the levels of the others, then and
  -- later. That full and idle buckets are dropped, and created again, shows in no level.
  pub check-level :
      (agent : String) (created now : ℕ) (d : Dict Bucket)
      → 0 < l.rate
      → Distinct d
      → let (allowed, after) = check l agent created now d in
        let left : Bucket = record { tokens = left_of l (level agent now d); last_refill = now } in
        (allowed ≡ leb l.parts (level agent now d))
        × ((a : String) (t : ℕ)
            → level a t after ≡ (if agent === a then refilled l t left else level a t d))
        × Distinct after
  unfolding check
  check-level agent created now d on h =
      rw (is_enabled, bucket_level agent created now d)
        (
          refl,
          (λ a t.
              level-maybe_evict a now t _ (insert-Distinct agent _ d h)
              ∙ level-insert a agent t _ d),
          maybe_evict-Distinct now _ (insert-Distinct agent _ d h),
        )
    where
      is_enabled : enabled l ≡ true
      is_enabled = ground arith
