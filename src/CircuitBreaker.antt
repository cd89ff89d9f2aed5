-- ===== src/CircuitBreaker.antt =====
-- apps/api/src/shared/services/livekit/circuit_breaker.rs. Each method is one step on the state:
-- the atomics and the mutex are fields, and the instant at which the method runs is an argument.
-- Instants and durations are nanoseconds; `Instant::elapsed` stops at 0, as `-` on ℕ does.
pub mod Invariant
pub mod Traces
pub mod Examples
use meno.Prelude.{
  ℕ, zero, suc, ◌+◌, ◌-◌, ◌*◌, ◌%◌, ◌^◌, Bool, true, false, ◌||◌, Option, none, some, List, [], ◌∷◌,
  leb, if◌then◌else◌,
}

pub data CircuitState : Type 0 where
  closed open_ half_open : CircuitState

-- `as u8`
unfoldable pub as_u8 : CircuitState → ℕ
as_u8 closed = 0
as_u8 open_ = 1
as_u8 half_open = 2

-- `From<u8>`: any other byte reads as Closed.
unfoldable pub from_u8 : ℕ → CircuitState
from_u8 zero = closed
from_u8 (suc zero) = open_
from_u8 (suc (suc zero)) = half_open
from_u8 _ = closed

pub record CircuitBreaker : Type 0 where
  pub state : ℕ  -- AtomicU8
  pub failure_count : ℕ  -- AtomicU64
  pub success_count : ℕ  -- AtomicU64
  pub last_failure_at : Option ℕ
  pub failure_threshold : ℕ
  pub success_threshold : ℕ
  pub open_duration : ℕ

-- `fetch_add` wraps.
abbrev pub u64 : ℕ → ℕ
u64 n = n % 2 ^ 64

unfoldable pub new : ℕ → ℕ → CircuitBreaker
unfolding as_u8
new failure_threshold open_duration_secs = record {
  state = as_u8 closed;
  failure_count = 0;
  success_count = 0;
  last_failure_at = none;
  failure_threshold = failure_threshold;
  success_threshold = 2;
  open_duration = open_duration_secs * 1000000000;
}

unfoldable pub state_of : CircuitBreaker → CircuitState
unfolding from_u8
state_of cb = from_u8 cb.state

-- `Result<(), &'static str>`: there is one error message.
pub data Verdict : Type 0 where
  allowed failing_fast : Verdict

-- `if let Some(t) = *last && t.elapsed() >= self.open_duration`
abbrev rested : Option ℕ → ℕ → ℕ → Bool
rested none duration now = false
rested (some t) duration now = leb duration (now - t)

check_in : CircuitState → ℕ → CircuitBreaker → CircuitBreaker × Verdict
unfolding as_u8
check_in closed now cb = (cb, allowed)
check_in open_ now cb =
    if rested cb.last_failure_at cb.open_duration now
    then (record cb { state = as_u8 half_open }, allowed)
    else (cb, failing_fast)
check_in half_open now cb = (cb, allowed)

unfoldable pub check : ℕ → CircuitBreaker → CircuitBreaker × Verdict
unfolding check_in state_of
check now cb = check_in (state_of cb) now cb

success_in : CircuitState → CircuitBreaker → CircuitBreaker
unfolding as_u8
success_in half_open cb =
    let successes = u64 (cb.success_count + 1) in
    if leb cb.success_threshold successes
    then record cb { state = as_u8 closed; failure_count = 0; success_count = 0 }
    else record cb { success_count = successes }
success_in _ cb = record cb { failure_count = 0 }

unfoldable pub on_success : CircuitBreaker → CircuitBreaker
unfolding success_in state_of
on_success cb = success_in (state_of cb) cb

abbrev is_half_open : CircuitState → Bool
is_half_open half_open = true
is_half_open _ = false

unfoldable pub on_failure : ℕ → CircuitBreaker → CircuitBreaker
unfolding as_u8 state_of
on_failure now cb =
    let failures = u64 (cb.failure_count + 1) in
    let cb' = record cb { failure_count = failures; last_failure_at = some now } in
    if leb cb.failure_threshold failures || is_half_open (state_of cb)
    then record cb' { state = as_u8 open_; success_count = 0 }
    else cb'

-- What callers do, with the instant of each call.
pub data Call : Type 0 where
  checks fails : ℕ → Call
  succeeds : Call

unfoldable pub step : CircuitBreaker → Call → CircuitBreaker
unfolding check on_success on_failure
step cb (checks now) = (check now cb).0
step cb (fails now) = on_failure now cb
step cb succeeds = on_success cb

unfoldable pub run : CircuitBreaker → List Call → CircuitBreaker
run cb [] = cb
run cb (c ∷ cs) = run (step cb c) cs
