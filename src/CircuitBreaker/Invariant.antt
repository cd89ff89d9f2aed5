-- ===== src/CircuitBreaker/Invariant.antt =====
-- What holds of a breaker between two calls.
use meno.Prelude.{ℕ, ◌^◌, ◌≤◌, ◌<◌, ◌≡◌, refl, ◌≢◌, true, List, [], ◌∷◌, arith, is_some}
use meno.CircuitBreaker.{
  CircuitState, closed, open_, half_open, as_u8, from_u8, CircuitBreaker, new, check, on_success,
  on_failure, Call, checks, fails, succeeds, step, run,
}

-- The byte always names a state, a breaker that is not closed knows its last failure, and the
-- counters stay below their thresholds wherever the code relies on them.
pub record Inv (cb : CircuitBreaker) : Type 0 where
  pub byte : cb.state ≤ 2
  pub few_failures : cb.state ≡ 0 → cb.failure_count < cb.failure_threshold
  pub few_successes : cb.success_count < cb.success_threshold
  pub no_successes : cb.state ≢ 2 → cb.success_count ≡ 0
  pub dated : cb.state ≢ 0 → is_some cb.last_failure_at ≡ true
  pub positive : 0 < cb.failure_threshold
  pub fits : cb.failure_threshold < 2 ^ 64
  pub probes : cb.success_threshold ≡ 2

-- Storing a state and loading it gives the state back.
pub from_u8-as_u8 : (s : CircuitState) → from_u8 (as_u8 s) ≡ s
unfolding from_u8 as_u8
from_u8-as_u8 closed = refl
from_u8-as_u8 open_ = refl
from_u8-as_u8 half_open = refl

-- A new breaker with a positive threshold satisfies the invariant.
pub new-Inv : (threshold secs : ℕ) → 0 < threshold → threshold < 2 ^ 64 → Inv (new threshold secs)
unfolding new
new-Inv threshold secs h k = ground arith

check-Inv : (now : ℕ) (cb : CircuitBreaker) → Inv cb → Inv (check now cb).0
unfolding check
check-Inv now cb h = ground arith

on_success-Inv : (cb : CircuitBreaker) → Inv cb → Inv (on_success cb)
unfolding on_success
on_success-Inv cb h = ground arith

on_failure-Inv : (now : ℕ) (cb : CircuitBreaker) → Inv cb → Inv (on_failure now cb)
unfolding on_failure
on_failure-Inv now cb h = ground arith

pub step-Inv : (cb : CircuitBreaker) (c : Call) → Inv cb → Inv (step cb c)
unfolding step
step-Inv cb (checks now) h = check-Inv now cb h
step-Inv cb (fails now) h = on_failure-Inv now cb h
step-Inv cb succeeds h = on_success-Inv cb h

-- Every sequence of calls keeps the invariant.
pub run-Inv : (cb : CircuitBreaker) (cs : List Call) → Inv cb → Inv (run cb cs)
unfolding run
run-Inv cb [] h = h
run-Inv cb (c ∷ cs) h = run-Inv (step cb c) cs (step-Inv cb c h)

-- After any calls, a breaker made with a positive threshold satisfies the invariant: its byte names
-- a state, a closed breaker has seen fewer failures than the threshold since its last reset, fewer
-- probes than needed have succeeded (none outside HalfOpen), and a breaker that is not closed knows
-- when the last failure was.
pub run-new-Inv :
    (threshold secs : ℕ) (cs : List Call)
    → 0 < threshold
    → threshold < 2 ^ 64
    → Inv (run (new threshold secs) cs)
run-new-Inv threshold secs cs h k = run-Inv (new threshold secs) cs (new-Inv threshold secs h k)
