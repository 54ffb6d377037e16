-- ===== src/RateLimit.antt =====
-- core/ratelimit/limiter.py: a token bucket for each agent.
pub mod Levels
pub mod Bounds
use Prim.Native.Nat.{◌*◌}
use guardmcp.Prelude.{
  ℕ, ◌+◌, ◌-◌, String, Bool, true, false, Option, none, some, List, [], ◌∷◌, ◌&&◌, length, ltb, leb,
  if◌then◌else◌,
}
use guardmcp.Dict.{Dict, lookup, insert}

-- The floats of the source in whole parts: time in ticks, `rate` parts of a token for each tick, so
-- many parts to a token. `idle` is `idle_seconds`.
pub record Limits : Type 0 where
  pub rate : ℕ
  pub burst : ℕ
  pub parts : ℕ
  pub idle : ℕ

pub record Bucket : Type 0 where
  pub tokens : ℕ
  pub last_refill : ℕ

-- A request for an agent, and when it is checked.
pub record Call : Type 0 where
  pub agent : String
  pub created : ℕ
  pub now : ℕ

module _ (l : Limits) where
  -- `float(burst)`, in parts
  abbrev pub capacity : ℕ
  capacity = l.burst * l.parts

  abbrev pub min : ℕ → ℕ → ℕ
  min a b = if leb a b then a else b

  abbrev pub enabled : Bool
  enabled = ltb 0 l.rate

  -- `self._buckets[agent]`, a `defaultdict`
  abbrev pub bucket_of : (created : ℕ) → Option Bucket → Bucket
  bucket_of created none = record { tokens = capacity; last_refill = created }
  bucket_of created (some b) = b

  abbrev pub refilled : (now : ℕ) → Bucket → ℕ
  refilled now b = min capacity (b.tokens + (now - b.last_refill) * l.rate)

  abbrev pub is_idle : (now : ℕ) → Bucket → Bool
  is_idle now b = ltb l.idle (now - b.last_refill) && leb capacity b.tokens

  unfoldable pub without_stale : (now : ℕ) → Dict Bucket → Dict Bucket
  without_stale now [] = []
  without_stale now ((a, b) ∷ rest) =
      let kept = without_stale now rest in if is_idle now b then kept else (a, b) ∷ kept

  -- `_maybe_evict`
  unfoldable pub maybe_evict : (now : ℕ) → Dict Bucket → Dict Bucket
  maybe_evict now buckets = if ltb (length buckets) 1024 then buckets else without_stale now buckets

  -- `if allowed: bucket.tokens -= 1`
  abbrev pub left_of : ℕ → ℕ
  left_of tokens = if leb l.parts tokens then tokens - l.parts else tokens

  abbrev pub taken : (agent : String) → (now tokens : ℕ) → Dict Bucket → Bool × Dict Bucket
  taken agent now tokens buckets =
      let b : Bucket = record { tokens = left_of tokens; last_refill = now } in
      (leb l.parts tokens, maybe_evict now (insert agent b buckets))

  -- `check` with the two readings of the clock: where the bucket is created, if it is, and after it.
  unfoldable pub check : (agent : String) → (created now : ℕ) → Dict Bucket → Bool × Dict Bucket
  check agent created now buckets =
      if enabled
      then taken agent now (refilled now (bucket_of created (lookup agent buckets))) buckets
      else (true, buckets)

  -- The verdicts of calls, one after the other, and the buckets at the end.
  unfoldable pub checks : List Call → Dict Bucket → List Bool × Dict Bucket
  checks [] buckets = ([], buckets)
  checks (c ∷ cs) buckets =
      let (allowed, after) = check c.agent c.created c.now buckets in
      let (verdicts, end) = checks cs after in (allowed ∷ verdicts, end)
