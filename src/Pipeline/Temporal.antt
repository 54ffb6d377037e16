-- ===== src/Pipeline/Temporal.antt =====
-- The temporal window of a policy (core/pipeline.py, `_check_temporal`).
use guardmcp.Prelude.{ℕ, ◌≤◌, String, ◌≡◌, refl, ◌↔◌, Option, none, some, arith}
use guardmcp.Policy.{Policy, DateTime}
use guardmcp.Pipeline.{instant, has_window, check_temporal}

abbrev pub NotBefore : ℕ → Option DateTime → Type 0
NotBefore now none = Unit
NotBefore now (some nb) = instant nb ≤ now

abbrev pub NotAfter : ℕ → Option DateTime → Type 0
NotAfter now none = Unit
NotAfter now (some na) = now ≤ instant na

-- The time is in the policy's window, whose ends count; a missing end is open.
abbrev pub InWindow : ℕ → Policy → Type 0
InWindow now policy = NotBefore now policy.not_before × NotAfter now policy.not_after

window_iff :
    (now : ℕ) (agent : String) (policy : Policy) (nb na : Option DateTime)
    → policy.not_before ≡ nb
    → policy.not_after ≡ na
    → (check_temporal now agent policy ≡ none) ↔ (NotBefore now nb × NotAfter now na)
unfolding check_temporal has_window
window_iff now agent policy none none b a = rw (b, a) (ground arith)
window_iff now agent policy (some x) none b a = rw (b, a) (ground arith)
window_iff now agent policy none (some y) b a = rw (b, a) (ground arith)
window_iff now agent policy (some x) (some y) b a = rw (b, a) (ground arith)

-- The temporal check has no objection exactly when the time is in the policy's window: not before
-- its start and not after its end, where it has them, both ends included.
pub check_temporal_iff :
    (now : ℕ) (agent : String) (policy : Policy)
    → (check_temporal now agent policy ≡ none) ↔ InWindow now policy
check_temporal_iff now agent policy =
    window_iff now agent policy policy.not_before policy.not_after refl refl
