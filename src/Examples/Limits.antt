-- ===== src/Examples/Limits.antt =====
-- Two agents under a limit of one request for each ten ticks, with a burst of two.
use Prim.Native.Nat.{◌*◌}
use guardmcp.Prelude.{
  ℕ, ◌+◌, ◌-◌, ◌≤◌, ◌≡◌, refl, true, false, List, [], ◌∷◌, String, leb, ◌===◌, if◌then◌else◌, arith,
}
use guardmcp.Dict.{Dict, lookup, Distinct}
use guardmcp.RateLimit.{Limits, Bucket, Call, left_of, refilled, check, checks}
use guardmcp.ResponseLimits.{
  Capped, cap_by_bytes, cap_by_bytes-Capped, cap_lines, cap_lines-unmarked,
}
use guardmcp.RateLimit.Levels.{level, check-level}
use guardmcp.RateLimit.Bounds.{granted, granted-le, check-after_wait}

abbrev slow : Limits
slow = record { rate = 1; burst = 2; parts = 10; idle = 100 }

abbrev at : String → ℕ → Call
at agent now = record { agent = agent; created = now; now = now }

abbrev calls : List Call
calls = at "a" 1 ∷ at "b" 1 ∷ at "a" 2 ∷ at "a" 3 ∷ at "a" 20 ∷ []

verdicts : (checks slow calls []).0 ≡ true ∷ true ∷ true ∷ false ∷ true ∷ []
unfolding checks check lookup guardmcp.Dict.insert guardmcp.RateLimit.maybe_evict
verdicts = refl

check-level_example :
    let (allowed, after) = check slow "a" 1 1 [] in
    let left : Bucket = record { tokens = left_of slow (level slow "a" 1 []); last_refill = 1 } in
    (allowed ≡ leb 10 (level slow "a" 1 []))
    × ((a : String) (t : ℕ)
        → level slow a t after ≡ (if "a" === a then refilled slow t left else level slow a t []))
    × Distinct after
check-level_example = check-level slow "a" 1 1 [] (omega arith) tt

granted-le_example : granted "a" calls (checks slow calls []).0 * 10 ≤ 2 * 10 + (20 - 1) * 1
granted-le_example = granted-le slow "a" calls 1 20 [] (omega arith) tt (omega arith)

check-after_wait_example :
    let d' = (checks slow (at "b" 4 ∷ []) (check slow "a" 3 3 []).1).1 in
    (check slow "a" 13 13 d').0 ≡ true
check-after_wait_example =
    check-after_wait slow "a" (at "a" 3) (at "a" 13) (at "b" 4 ∷ []) [] (omega arith) (omega arith)
      tt (refl, tt) (omega arith)

-- Items that are as large as their number, in a budget of ten.
cap_by_bytes-Capped_example :
    Capped (λ n. n) 10 0 (3 ∷ 4 ∷ 5 ∷ 1 ∷ []) (cap_by_bytes (λ n. n) 10 (3 ∷ 4 ∷ 5 ∷ 1 ∷ []))
cap_by_bytes-Capped_example = cap_by_bytes-Capped (λ n. n) 10 (3 ∷ 4 ∷ 5 ∷ 1 ∷ [])

kept : cap_by_bytes (λ n. n) 10 (3 ∷ 4 ∷ 5 ∷ 1 ∷ []) ≡ (3 ∷ 4 ∷ [], true)
unfolding cap_by_bytes guardmcp.ResponseLimits.keep
kept = refl
