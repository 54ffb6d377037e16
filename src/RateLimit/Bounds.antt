-- ===== src/RateLimit/Bounds.antt =====
-- How many requests of an agent pass, and that one passes after a wait.
use Prim.Native.Nat.{◌*◌}
use native.Mathlib.Nat.{add-mul, zero-mul, one-mul, mul-le-mul_right}
use guardmcp.Prelude.{
  ℕ, ◌+◌, ◌-◌, ◌≤◌, ◌<◌, String, ◌≡◌, refl, ap, ◌∙◌, inl, inr, Bool, true, false, Option, none,
  some, List, [], ◌∷◌, ◌&&◌, if◌then◌else◌, ◌===◌, eq_iff, arith, Bool-cases, eq_self, All,
}
use guardmcp.Dict.{Dict, lookup, Distinct}
use guardmcp.RateLimit.{Limits, Bucket, Call, capacity, left_of, refilled, check, checks}
use guardmcp.RateLimit.Levels.{level, level_of, check-level}

-- How many of the calls for this agent were allowed.
abbrev pub granted : String → List Call → List Bool → ℕ
granted a [] vs = 0
granted a (c ∷ cs) [] = 0
granted a (c ∷ cs) (v ∷ vs) = (if c.agent === a && v then 1 else 0) + granted a cs vs

-- The clock does not go back between the start, the calls and the end.
abbrev pub Ordered : (start : ℕ) → List Call → (end : ℕ) → Type 0
Ordered start [] end = start ≤ end
Ordered start (c ∷ cs) end = (start ≤ c.now) × Ordered c.now cs end

Ordered-le : (start : ℕ) (cs : List Call) (end : ℕ) → Ordered start cs end → start ≤ end
Ordered-le start [] end h = h
Ordered-le start (c ∷ cs) end h = omega (arith, Ordered-le c.now cs end h.1)

module _ (l : Limits) where
  level-le : (a : String) (t : ℕ) (d : Dict Bucket) → level l a t d ≤ capacity l
  level-le a t d = by_bucket (lookup a d)
    where
      by_bucket : (o : Option Bucket) → level_of l t o ≤ capacity l
      by_bucket none = omega arith
      by_bucket (some b) = ground arith

  -- A level rises by the rate at most.
  level_rise :
      (a : String) (t u : ℕ) (d : Dict Bucket)
      → t ≤ u
      → level l a u d ≤ level l a t d + (u - t) * l.rate
  level_rise a t u d h = by_bucket (lookup a d)
    where
      by_bucket : (o : Option Bucket) → level_of l u o ≤ level_of l t o + (u - t) * l.rate
      by_bucket none = omega arith
      by_bucket (some b) =
          let longer : u - b.last_refill ≤ (t - b.last_refill) + (u - t) = omega arith in
          let more = mul-le-mul_right l.rate longer in
          ground (arith, more, add-mul (t - b.last_refill) (u - t) l.rate)

  -- What a call takes from the level of an agent.
  abbrev taken_from : String → Call → Bool → ℕ
  taken_from a c v = if c.agent === a && v then l.parts else 0

  -- The level right after a refill is what is left.
  left_level :
      (now left : ℕ)
      → left ≤ capacity l
      → refilled l now (record { tokens = left; last_refill = now }) ≡ left
  left_level now left h =
      let none_passed : now - now ≡ 0 = omega arith in
      rw none_passed (ground (arith, zero-mul l.rate))

  check_takes :
      (a : String) (c : Call) (d : Dict Bucket)
      → 0 < l.rate
      → Distinct d
      → level l a c.now (check l c.agent c.created c.now d).1
          + taken_from a c (check l c.agent c.created c.now d).0
        ≤ level l a c.now d
  check_takes a c d on h =
      let (allowed, levels, _) = check-level l c.agent c.created c.now d on h in
      let full = level-le c.agent c.now d in
      let left = left_level c.now (left_of l (level l c.agent c.now d)) (ground arith) in
      elim (Bool-cases (c.agent === a)) [
        | inl same ↦
            let is_a = ap (λ i. level l i c.now d) ((eq_iff c.agent a).0 same) in
            rw (levels a c.now, allowed, same, left) (ground (arith, is_a))
        | inr other ↦ rw (levels a c.now, allowed, other) (omega arith)
      ]

  one_call :
      (b : Bool) (rest : ℕ)
      → ((if b then 1 else 0) + rest) * l.parts ≡ (if b then l.parts else 0) + rest * l.parts
  one_call true rest = add-mul 1 rest l.parts ∙ ap (λ n. n + rest * l.parts) (one-mul l.parts)
  one_call false rest = omega (arith, ap (λ n. n * l.parts) (zero_add rest))
    where
      zero_add : (n : ℕ) → 0 + n ≡ n
      zero_add n = omega arith

  checks_take :
      (a : String) (cs : List Call) (start end : ℕ) (d : Dict Bucket)
      → 0 < l.rate
      → Distinct d
      → Ordered start cs end
      → granted a cs (checks l cs d).0 * l.parts + level l a end (checks l cs d).1
        ≤ level l a start d + (end - start) * l.rate
  unfolding checks
  checks_take a [] start end d on h le =
      omega (arith, level_rise a start end d le, zero-mul l.parts)
  checks_take a (c ∷ cs) start end d on h (le, later) =
      let (v, after) = check l c.agent c.created c.now d in
      let (_, _, distinct) = check-level l c.agent c.created c.now d on h in
      let passed : c.now - start + (end - c.now) ≡ end - start =
        omega (arith, Ordered-le c.now cs end later) in
      let rest = granted a cs (checks l cs after).0 in
      omega (
        arith,
        checks_take a cs c.now end after on distinct later,
        check_takes a c d on h,
        level_rise a start c.now d le,
        add-mul (c.now - start) (end - c.now) l.rate,
        ap (λ n. n * l.rate) passed,
        one_call (c.agent === a && v) rest,
      )

  -- An agent's requests that pass between two times are its burst and what the rate gives in that time,
  -- at most, whatever other agents send, whatever buckets are dropped, and from whatever buckets the
  -- limiter starts.
  pub granted-le :
      (a : String) (cs : List Call) (start end : ℕ) (d : Dict Bucket)
      → 0 < l.rate
      → Distinct d
      → Ordered start cs end
      → granted a cs (checks l cs d).0 * l.parts ≤ l.burst * l.parts + (end - start) * l.rate
  granted-le a cs start end d on h ordered =
      omega (arith, checks_take a cs start end d on h ordered, level-le a start d)

  -- Calls of others leave the level of an agent.
  others_leave :
      (a : String) (cs : List Call) (t : ℕ) (d : Dict Bucket)
      → 0 < l.rate
      → Distinct d
      → All (λ c. (c.agent === a) ≡ false) cs
      → (level l a t (checks l cs d).1 ≡ level l a t d) × Distinct (checks l cs d).1
  unfolding checks
  others_leave a [] t d on h others = (refl, h)
  others_leave a (c ∷ cs) t d on h (other, others) =
      let (_, levels, distinct) = check-level l c.agent c.created c.now d on h in
      let (rest, end) =
        others_leave a cs t (check l c.agent c.created c.now d).1 on distinct others in
      (rest ∙ rw other at (levels a t), end)

  -- After a call of an agent, allowed or not, its next call is allowed if by then the rate has given a
  -- token, whatever others send in between. The burst is a token at least.
  pub check-after_wait :
      (a : String) (first next : Call) (cs : List Call) (d : Dict Bucket)
      → 0 < l.rate
      → 0 < l.burst
      → Distinct d
      → All (λ c. (c.agent === a) ≡ false) cs
      → l.parts ≤ (next.now - first.now) * l.rate
      → let d' = (checks l cs (check l a first.created first.now d).1).1 in
        (check l a next.created next.now d').0 ≡ true
  check-after_wait a first next cs d on burst h others wait =
      let (_, levels, distinct) = check-level l a first.created first.now d on h in
      let (kept, end) =
        others_leave a cs next.now (check l a first.created first.now d).1 on distinct others in
      let (allowed, _, _) =
        check-level l a next.created next.now
          (checks l cs (check l a first.created first.now d).1).1 on end in
      let held = kept ∙ rw (eq_self a) at (levels a next.now) in
      let room = mul-le-mul_right l.parts burst in
      allowed ∙ ground (arith, held, room, one-mul l.parts)
