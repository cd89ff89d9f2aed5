-- ===== src/Middleware/Examples.antt =====
-- Runs of the rate limit, the idempotency keys and the coalescing.
use meno.Prelude.{
  ℕ, ◌+◌, ◌-◌, ◌*◌, ◌/◌, ◌≤◌, ◌≡◌, refl, ◌⊎◌, Bool, true, false, Option, none, some, List, [], ◌∷◌,
  arith, ◌<◌, All, replicate, ◌==◌, if◌then◌else◌, unwrap_or,
}
use meno.Prelude.Maps.{get, put}
use meno.Prelude.Texts.{Text}
use meno.Prelude.Results.{Result, ok, err}
use meno.Middleware.RateLimit.{RateLimitConfig, let_through, unanswered, window_bound}
use meno.Middleware.Idempotency.{CachedResponse, Handler, is_success, idempotency_middleware, retry}
use meno.Middleware.Coalescing.{coalesce_cache, serve_each, coalesced}

abbrev weigh : ℕ → ℕ → ℕ → ℕ
weigh previous left window = previous * left / window

abbrev three_a_minute : RateLimitConfig
three_a_minute = record { limit = 3; window_secs = 60 }

-- Four requests in a row, the second of which redis does not answer.
abbrev burst : List (Bool × ℕ)
burst = (true, 601000) ∷ (false, 602000) ∷ (true, 603000) ∷ (true, 604000) ∷ []

all_at_once : let_through weigh burst three_a_minute [] ≡ 3
unfolding let_through get put
all_at_once = refl

after_one_before : let_through weigh burst three_a_minute (put 9 1 []) ≡ 3
unfolding let_through get put
after_one_before = refl

after_two_before : let_through weigh burst three_a_minute (put 9 2 []) ≡ 2
unfolding let_through get put
after_two_before = refl

-- In the window before there were two.
window_bound_example :
    let_through weigh burst three_a_minute ((9, 2) ∷ [])
    ≤ (3 - 1 - unwrap_or (get 10 ((9, 2) ∷ [])) 0 - 1) + unanswered burst
unfolding get
window_bound_example =
    window_bound weigh three_a_minute 10 1 burst ((9, 2) ∷ []) (omega arith)
      ((refl, omega arith), ((refl, omega arith), ((refl, omega arith), ((refl, omega arith), tt))))

-- A handler that counts its runs, and one that fails.
abbrev counting : Handler ℕ
counting n = (record { status = 201; body = some (n ∷ []) }, n + 1)

abbrev failing : Handler ℕ
failing n = (record { status = 500; body = none }, n + 1)

abbrev same : Text → Text
same t = t

abbrev answer : CachedResponse
answer = record { status = 201; body = 4 ∷ [] }

retry_example :
    ((bytes : Text)
      → is_success (counting 4).0.status ≡ true
      → (counting 4).0.body ≡ some bytes
      → (idempotency_middleware same (some 9) counting [] 4
          ≡ ((counting 4).0, put 9 (record { status = 201; body = bytes }) [], 5))
        × (idempotency_middleware same
              (some 9)
              failing
              (put 9 (record { status = 201; body = bytes }) [])
              5
            ≡ (
              record { status = 201; body = some bytes },
              put 9 (record { status = 201; body = bytes }) [],
              5,
            )))
    × (is_success (counting 4).0.status ≡ false
        → idempotency_middleware same (some 9) counting [] 4 ≡ ((counting 4).0, [], 5))
unfolding get
retry_example = retry same 9 counting failing [] 4 refl

abbrev fetched : Result ℕ ℕ
fetched = ok 5

abbrev third : ℕ → Option ℕ
third n = if n == 3 then some 8 else none

abbrev never : ℕ → Option ℕ
never k = none

coalesced_example :
    ((v : ℕ)
      → fetched ≡ ok v
      → serve_each fetched
          (third ∷ never ∷ [])
          (record { cached = none; locked = false; fetches = 0 })
        ≡ (replicate 2 (ok v), record { cached = some v; locked = false; fetches = 1 }))
    × ((e : ℕ)
        → fetched ≡ err e
        → All (λ s. (k : ℕ) → 1 ≤ k → k ≤ 40 → s k ≡ none) (never ∷ [])
        → serve_each fetched
            (third ∷ never ∷ [])
            (record { cached = none; locked = false; fetches = 0 })
          ≡ (replicate 2 (err e), record { cached = none; locked = true; fetches = 2 }))
    × (((k : ℕ) × (v : ℕ) × (1 ≤ k)
          × (k ≤ 40)
          × (third k ≡ some v)
          × ((j : ℕ) → 1 ≤ j → j < k → third j ≡ none)
          × (coalesce_cache fetched third (record { cached = none; locked = true; fetches = 0 })
              ≡ (ok v, record { cached = none; locked = true; fetches = 0 })))
        ⊎ (((k : ℕ) → 1 ≤ k → k ≤ 40 → third k ≡ none)
            × (coalesce_cache fetched third (record { cached = none; locked = true; fetches = 0 })
                ≡ (fetched, record { cached = none; locked = true; fetches = 1 }))))
coalesced_example = coalesced fetched third (never ∷ []) 0
