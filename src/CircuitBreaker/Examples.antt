-- ===== src/CircuitBreaker/Examples.antt =====
-- Concrete runs of the circuit breaker, and its theorems at them.
use meno.Prelude.{ℕ, ◌≡◌, refl, ◌≤◌, ◌-◌, [], ◌∷◌, some, arith, map, ◌+◌, replicate}
use meno.CircuitBreaker.{
  closed, open_, half_open, CircuitBreaker, new, state_of, allowed, failing_fast, check, on_success,
  on_failure, checks, fails, succeeds, step, run,
}
use meno.CircuitBreaker.Invariant.{Inv, new-Inv, run-new-Inv}
use meno.CircuitBreaker.Traces.{
  ask_each, outage, step_leaves_open, failures_count, failures_open, half_open_probes,
}

abbrev fresh : CircuitBreaker
fresh = new 3 30

abbrev tripped : CircuitBreaker
tripped = run fresh (fails 5 ∷ fails 6 ∷ fails 7 ∷ [])

abbrev probing : CircuitBreaker
probing = step tripped (checks 30000000007)

tripped_state : state_of tripped ≡ open_
unfolding run new step state_of
tripped_state = refl

tripped_last : tripped.last_failure_at ≡ some 7
unfolding run new step state_of
tripped_last = refl

probing_state : state_of probing ≡ half_open
unfolding run new step state_of
probing_state = refl

fresh_closed : state_of fresh ≡ closed
unfolding new state_of
fresh_closed = refl

fresh-Inv : Inv fresh
fresh-Inv = new-Inv 3 30 (omega arith) (omega arith)

probing-Inv : Inv (run fresh (fails 5 ∷ fails 6 ∷ fails 7 ∷ checks 30000000007 ∷ []))
probing-Inv =
    run-new-Inv 3 30 (fails 5 ∷ fails 6 ∷ fails 7 ∷ checks 30000000007 ∷ []) (omega arith)
      (omega arith)

probing_run-Inv : Inv probing
unfolding run
probing_run-Inv = probing-Inv

run-new-Inv_example : Inv (run (new 3 30) (fails 5 ∷ fails 6 ∷ succeeds ∷ fails 7 ∷ []))
run-new-Inv_example =
    run-new-Inv 3 30 (fails 5 ∷ fails 6 ∷ succeeds ∷ fails 7 ∷ []) (omega arith) (omega arith)

outage_example :
    let broken = run fresh (map fails (5 ∷ 6 ∷ 7 ∷ [])) in
    let (after, verdicts) = ask_each (8 ∷ 1000 ∷ 900 ∷ []) broken in
    (after ≡ broken)
    × (verdicts ≡ replicate 3 failing_fast)
    × ((check 30000000007 after).1 ≡ allowed)
    × (state_of (check 30000000007 after).0 ≡ half_open)
unfolding new
outage_example =
    outage fresh (5 ∷ 6 ∷ []) (8 ∷ 1000 ∷ 900 ∷ []) 7 30000000007 fresh-Inv fresh_closed
      (omega arith) (omega arith, (omega arith, (omega arith, tt))) (omega arith)

step_leaves_open_example :
    (now : ℕ) × (checks 30000000007 ≡ checks now) × (tripped.open_duration ≤ now - 7)
step_leaves_open_example =
    step_leaves_open tripped (checks 30000000007) 7 tripped_state tripped_last (cc probing_state)

failures_count_example :
    (state_of (run fresh (map fails (5 ∷ 6 ∷ []))) ≡ closed)
    × ((run fresh (map fails (5 ∷ 6 ∷ []))).failure_count ≡ fresh.failure_count + 2)
unfolding new
failures_count_example = failures_count fresh (5 ∷ 6 ∷ []) fresh-Inv fresh_closed (omega arith)

failures_open_example : state_of (run fresh (map fails (5 ∷ 6 ∷ 7 ∷ []))) ≡ open_
unfolding new
failures_open_example = failures_open fresh (5 ∷ 6 ∷ 7 ∷ []) fresh-Inv fresh_closed (omega arith)

half_open_probes_example :
    (check 8 probing ≡ (probing, allowed))
    × (state_of (on_failure 9 probing) ≡ open_)
    × (state_of (on_success (on_success probing)) ≡ closed)
    × ((on_success (on_success probing)).failure_count ≡ 0)
    × ((on_success (on_success probing)).success_count ≡ 0)
half_open_probes_example = half_open_probes probing 8 9 probing_run-Inv probing_state
