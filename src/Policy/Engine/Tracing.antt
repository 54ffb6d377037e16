-- ===== src/Policy/Engine/Tracing.antt =====
-- What a trace records, and that recording changes no decision.
use guardmcp.Prelude.{String, ◌≡◌, ◌≢◌, Option, none, some, List, [], ◌∷◌, arith}
use guardmcp.Domain.{RiskLevel, Request}
use guardmcp.Policy.{Policy}
use guardmcp.Policy.Engine.{TraceStep, matched, Trace, add, evaluate}

-- One step matches, the last, and all before it passed or were skipped.
abbrev pub EndsMatched : List TraceStep → Type 0
EndsMatched [] = ⊥
EndsMatched (s ∷ []) = s.result ≡ matched
EndsMatched (s ∷ r ∷ rs) = (s.result ≢ matched) × EndsMatched (r ∷ rs)

abbrev pub TraceEndsMatched : Trace → Type 0
TraceEndsMatched none = ⊥
TraceEndsMatched (some steps) = EndsMatched steps

module _ (request : Request) (policy : Policy) (risk : RiskLevel) (db : Option String) where
  -- The decision is the same with a trace, whatever it holds, and without one.
  pub evaluate-trace :
      (steps : List TraceStep)
      → (evaluate request policy risk (some steps) db).0 ≡ (evaluate request policy risk none db).0
  unfolding evaluate
  evaluate-trace steps = ground arith

  -- An evaluation that starts with an empty trace ends with a trace whose last step is the only
  -- one that matched.
  pub evaluate-TraceEndsMatched : TraceEndsMatched (evaluate request policy risk (some []) db).1
  unfolding evaluate add
  evaluate-TraceEndsMatched = ground arith
