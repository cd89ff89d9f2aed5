-- ===== src/CircuitBreaker/Traces.antt =====
-- How the breaker opens, fails fast, probes and recovers.
use meno.Prelude.{
  ℕ, ◌+◌, ◌-◌, ◌≤◌, ◌<◌, ◌≡◌, refl, ◌≢◌, inl, inr, some, List, [], ◌∷◌, ◌++◌, ◌∙◌, sym, All,
  replicate, map, arith, ltb, ltb→lt, Bool-cases, length,
}
use mathlib.Core.Path.{subst}
use meno.CircuitBreaker.Invariant.{Inv, step-Inv}
use meno.CircuitBreaker.{
  closed, open_, half_open, CircuitBreaker, state_of, Verdict, allowed, failing_fast, check,
  on_success, on_failure, Call, checks, fails, succeeds, step, run,
}

-- The only call that takes an open breaker out of Open is a check that comes `open_duration` or
-- more after the last failure.
pub step_leaves_open :
    (cb : CircuitBreaker) (c : Call) (t : ℕ)
    → state_of cb ≡ open_
    → cb.last_failure_at ≡ some t
    → state_of (step cb c) ≢ open_
    → (now : ℕ) × (c ≡ checks now) × (cb.open_duration ≤ now - t)
unfolding step state_of
step_leaves_open cb (checks now) t o l h = (now, refl, ground arith)
step_leaves_open cb (fails now) t o l h = absurd (ground arith)
step_leaves_open cb succeeds t o l h = absurd (ground arith)

fails-open :
    (cb : CircuitBreaker) (t : ℕ) → state_of cb ≡ open_ → state_of (step cb (fails t)) ≡ open_
unfolding step state_of
fails-open cb t o = ground arith

failing-open :
    (cb : CircuitBreaker) (ts : List ℕ)
    → state_of cb ≡ open_
    → state_of (run cb (map fails ts)) ≡ open_
unfolding run
failing-open cb [] o = o
failing-open cb (t ∷ ts) o = failing-open (step cb (fails t)) ts (fails-open cb t o)

module _ (cb : CircuitBreaker) (t : ℕ) (v : Inv cb) (c : state_of cb ≡ closed) where
  fails_counts :
      cb.failure_count + 1 < cb.failure_threshold
      → (state_of (step cb (fails t)) ≡ closed)
        × ((step cb (fails t)).failure_count ≡ cb.failure_count + 1)
  unfolding step state_of
  fails_counts h = ground arith

  fails_opens : cb.failure_threshold ≤ cb.failure_count + 1 → state_of (step cb (fails t)) ≡ open_
  unfolding step state_of
  fails_opens h = ground arith

  closed-few : cb.failure_count < cb.failure_threshold
  unfolding state_of
  closed-few = ground arith

fails_keeps_threshold :
    (cb : CircuitBreaker) (t : ℕ) → (step cb (fails t)).failure_threshold ≡ cb.failure_threshold
unfolding step
fails_keeps_threshold cb t = ground arith

-- From a closed breaker, failures with no success between them are counted as long as they stay
-- below `failure_threshold`, and the breaker stays closed.
pub failures_count :
    (cb : CircuitBreaker) (ts : List ℕ)
    → Inv cb
    → state_of cb ≡ closed
    → cb.failure_count + length ts < cb.failure_threshold
    → (state_of (run cb (map fails ts)) ≡ closed)
      × ((run cb (map fails ts)).failure_count ≡ cb.failure_count + length ts)
unfolding run
failures_count cb [] v c h = (c, omega arith)
failures_count cb (t ∷ ts) v c h =
    let (c', n) = fails_counts cb t v c (omega arith) in
    let k = fails_keeps_threshold cb t in
    let (a, b) =
      failures_count (step cb (fails t)) ts (step-Inv cb (fails t) v) c' (omega (arith, n, k)) in
    (a, omega (arith, b, n))

-- From a closed breaker, as many failures with no success between them as are missing to
-- `failure_threshold`, or more, leave it open.
pub failures_open :
    (cb : CircuitBreaker) (ts : List ℕ)
    → Inv cb
    → state_of cb ≡ closed
    → cb.failure_threshold ≤ cb.failure_count + length ts
    → state_of (run cb (map fails ts)) ≡ open_
unfolding run
failures_open cb [] v c h = absurd (omega (arith, closed-few cb 0 v c))
failures_open cb (t ∷ ts) v c h =
    elim (Bool-cases (ltb (cb.failure_count + 1) cb.failure_threshold)) [
      | inl few ↦
          let (c', n) = fails_counts cb t v c (ltb→lt _ _ few) in
          failures_open (step cb (fails t)) ts (step-Inv cb (fails t) v) c'
            (omega (arith, n, fails_keeps_threshold cb t))
      | inr many ↦ failing-open (step cb (fails t)) ts (fails_opens cb t v c (ground arith))
    ]

-- Requests at these instants: the breaker after them, and the answer to each.
unfoldable pub ask_each : List ℕ → CircuitBreaker → CircuitBreaker × List Verdict
unfolding check
ask_each [] cb = (cb, [])
ask_each (now ∷ later) cb =
    let (next, verdict) = check now cb in
    let (end, verdicts) = ask_each later next in (end, verdict ∷ verdicts)

fails_fast :
    (now t : ℕ) (cb : CircuitBreaker)
    → state_of cb ≡ open_
    → cb.last_failure_at ≡ some t
    → now - t < cb.open_duration
    → check now cb ≡ (cb, failing_fast)
unfolding check state_of
fails_fast now t cb o l h = ground arith

refused :
    (t : ℕ) (cb : CircuitBreaker) (early : List ℕ)
    → state_of cb ≡ open_
    → cb.last_failure_at ≡ some t
    → All (λ now. now - t < cb.open_duration) early
    → ask_each early cb ≡ (cb, replicate (length early) failing_fast)
unfolding ask_each
refused t cb [] o l h = refl
refused t cb (now ∷ later) o l h =
    rw (fails_fast now t cb o l h.0, ask_each) (rw (refused t cb later o l h.1) refl)

probed :
    (late t : ℕ) (cb : CircuitBreaker)
    → state_of cb ≡ open_
    → cb.last_failure_at ≡ some t
    → cb.open_duration ≤ late - t
    → ((check late cb).1 ≡ allowed) × (state_of (check late cb).0 ≡ half_open)
unfolding check state_of
probed late t cb o l h = ground arith

run_last :
    (cb : CircuitBreaker) (ts : List ℕ) (t : ℕ)
    → run cb (map fails (ts ++ t ∷ [])) ≡ step (run cb (map fails ts)) (fails t)
unfolding run
run_last cb [] t = refl
run_last cb (x ∷ ts) t = run_last (step cb (fails x)) ts t

last_failure :
    (cb : CircuitBreaker) (t : ℕ)
    → ((step cb (fails t)).last_failure_at ≡ some t)
      × ((step cb (fails t)).open_duration ≡ cb.open_duration)
unfolding step
last_failure cb t = ground arith

same_duration :
    (cb : CircuitBreaker) (ts : List ℕ) → (run cb (map fails ts)).open_duration ≡ cb.open_duration
unfolding run
same_duration cb [] = refl
same_duration cb (t ∷ ts) = same_duration (step cb (fails t)) ts ∙ (last_failure cb t).1

-- A closed breaker that satisfies the invariant fails as many times without a success as are missing to
-- `failure_threshold`, or more, the last time at `t`. Of any requests less than `open_duration` after
-- `t`, in any order, each is refused, and the breaker stays as it was; the next request that comes
-- `open_duration` or more after `t` is admitted, and the breaker probes.
pub outage :
    (cb : CircuitBreaker) (ts early : List ℕ) (t late : ℕ)
    → Inv cb
    → state_of cb ≡ closed
    → cb.failure_threshold ≤ cb.failure_count + length (ts ++ t ∷ [])
    → All (λ now. now - t < cb.open_duration) early
    → cb.open_duration ≤ late - t
    → let broken = run cb (map fails (ts ++ t ∷ [])) in
      let (after, verdicts) = ask_each early broken in
      (after ≡ broken)
      × (verdicts ≡ replicate (length early) failing_fast)
      × ((check late after).1 ≡ allowed)
      × (state_of (check late after).0 ≡ half_open)
outage cb ts early t late v c h soon past =
    let broken = run cb (map fails (ts ++ t ∷ [])) in
    let open_now = failures_open cb (ts ++ t ∷ []) v c h in
    let at : broken.last_failure_at ≡ some t =
      rw (run_last cb ts t) ((last_failure (run cb (map fails ts)) t).0) in
    let same = same_duration cb (ts ++ t ∷ []) in
    let answers =
      refused t broken early open_now at
        (subst (λ d. All (λ now. now - t < d) early) (sym same) soon) in
    let (admitted, probing) = probed late t broken open_now at (rw same past) in
    rw answers (refl, refl, admitted, probing)

-- A breaker that probes admits every request, and is not changed by a check; one failure opens it
-- again, and two successes close it with both counters at 0.
pub half_open_probes :
    (cb : CircuitBreaker) (now t : ℕ)
    → Inv cb
    → state_of cb ≡ half_open
    → (check now cb ≡ (cb, allowed))
      × (state_of (on_failure t cb) ≡ open_)
      × (state_of (on_success (on_success cb)) ≡ closed)
      × ((on_success (on_success cb)).failure_count ≡ 0)
      × ((on_success (on_success cb)).success_count ≡ 0)
unfolding check on_failure on_success state_of
half_open_probes cb now t v h = ground arith
