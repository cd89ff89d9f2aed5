-- ===== src/Middleware/RateLimit.antt =====
-- apps/api/src/shared/middleware/rate_limit.rs: the sliding window of the script, for one identifier. `counts` has
-- the counter of each window; a counter is kept for two windows, longer than it is read. An instant is in milliseconds.
-- The product of the counter before with its weight, rounded down, is in floating point: the parameter
-- `weigh`, of the counter, the milliseconds left of the window and those of a window.
use mathlib.Core.Path.{subst}
use meno.Prelude.{
  Option, sym, ℕ, suc, ◌+◌, ◌-◌, ◌*◌, ◌/◌, ◌%◌, ◌≤◌, ◌<◌, ◌≡◌, refl, ◌∙◌, inl, inr, Bool, true,
  false, List, [], ◌∷◌, arith, ltb, ◌==◌, if◌then◌else◌, ==_self, Bool-cases, unwrap_or, All,
}
use meno.Prelude.Maps.{Map, get, put, get-put}

pub record RateLimitConfig : Type 0 where
  pub limit : ℕ
  pub window_secs : ℕ

-- The requests that redis does not answer.
unfoldable pub unanswered : List (Bool × ℕ) → ℕ
unanswered [] = 0
unanswered ((up, now) ∷ later) = let rest = unanswered later in if up then rest else suc rest

within :
    (limit n c : ℕ)
    → ltb 0 (if ltb limit (n + 1 + c) then 0 else limit - (n + 1 + c)) ≡ true
    → suc n + c < limit
within limit n c h = ground arith

module _ (weigh : ℕ → ℕ → ℕ → ℕ) where
  -- The script: what remains of the limit, and the counters.
  unfoldable pub script : ℕ → ℕ → ℕ → RateLimitConfig → Map ℕ → ℕ × Map ℕ
  unfolding get put
  script current previous now config counts =
      let current_count = unwrap_or (get current counts) 0 + 1 in
      let counts = put current current_count counts in
      let window_ms = config.window_secs * 1000 in
      let estimated =
        current_count
        + weigh (unwrap_or (get previous counts) 0) (window_ms - now % window_ms) window_ms in
      (if ltb config.limit estimated then 0 else config.limit - estimated, counts)

  unfoldable pub check_rate_limit : ℕ → RateLimitConfig → Map ℕ → ℕ × Map ℕ
  unfolding script
  check_rate_limit now config counts =
      let current_window = now / (config.window_secs * 1000) in
      script current_window (current_window - 1) now config counts

  -- `rate_limit_middleware`: whether the handler runs. Without an answer of redis, `up` is false, it does.
  unfoldable pub rate_limit_middleware : Bool → ℕ → RateLimitConfig → Map ℕ → Bool × Map ℕ
  unfolding check_rate_limit
  rate_limit_middleware false now config counts = (true, counts)
  rate_limit_middleware true now config counts =
      let (remaining, counts) = check_rate_limit now config counts in (ltb 0 remaining, counts)

  -- Requests, each with whether redis answers it and its instant: how many of them are let through.
  unfoldable pub let_through : List (Bool × ℕ) → RateLimitConfig → Map ℕ → ℕ
  unfolding rate_limit_middleware
  let_through [] config counts = 0
  let_through ((up, now) ∷ later) config counts =
      let (passed, after) = rate_limit_middleware up now config counts in
      let rest = let_through later config after in if passed then suc rest else rest

  count_of : ℕ → Map ℕ → ℕ
  unfolding get
  count_of w counts = unwrap_or (get w counts) 0

  abbrev window : RateLimitConfig → ℕ → ℕ
  window config now = now / (config.window_secs * 1000)

  counted :
      (now : ℕ) (config : RateLimitConfig) (counts : Map ℕ) (w : ℕ)
      → count_of w (rate_limit_middleware true now config counts).1
        ≡ (if window config now == w then suc (count_of w counts) else count_of w counts)
  unfolding rate_limit_middleware check_rate_limit script count_of
  counted now config counts w =
      rw (get-put (window config now) w (unwrap_or (get (window config now) counts) 0 + 1) counts)
        (elim (Bool-cases (window config now == w)) [
          | inl e ↦ let same : window config now ≡ w = ground arith in rw e (rw same (omega arith))
          | inr e ↦ rw e refl
        ])

  -- What the script adds for the window before.
  abbrev pub carried : RateLimitConfig → Map ℕ → ℕ → ℕ → ℕ
  carried config counts w now =
      let window_ms = config.window_secs * 1000 in
      weigh (unwrap_or (get (w - 1) counts) 0) (window_ms - now % window_ms) window_ms

  own_window :
      (w : ℕ) (counts : Map ℕ) (v : ℕ) → 1 ≤ w → get (w - 1) (put w v counts) ≡ get (w - 1) counts
  own_window w counts v h =
      let apart : (w == w - 1) ≡ false = ground arith in get-put w (w - 1) v counts ∙ rw apart refl

  script_passes :
      (config : RateLimitConfig) (now w : ℕ) (counts : Map ℕ)
      → 1 ≤ w
      → ltb 0 (script w (w - 1) now config counts).0 ≡ true
      → suc (count_of w counts) + carried config counts w now < config.limit
  unfolding script count_of
  script_passes config now w counts one h =
      let same = own_window w counts (unwrap_or (get w counts) 0 + 1) one in
      within config.limit (unwrap_or (get w counts) 0) (carried config counts w now) (rw same at h)

  passed :
      (config : RateLimitConfig) (now w : ℕ) (counts : Map ℕ)
      → 1 ≤ w
      → window config now ≡ w
      → (rate_limit_middleware true now config counts).0 ≡ true
      → suc (count_of w counts) + carried config counts w now < config.limit
  unfolding rate_limit_middleware check_rate_limit
  passed config now w counts one k h =
      script_passes config now w counts one
        (subst (λ x. ltb 0 (script x (x - 1) now config counts).0 ≡ true) k h)

  -- A request of the window `w`, where the window before weighs `least` or more.
  abbrev pub Within : RateLimitConfig → ℕ → ℕ → Map ℕ → Bool × ℕ → Type 0
  Within config w least counts r =
      (r.1 / (config.window_secs * 1000) ≡ w) × (least ≤ carried config counts w r.1)

  module _ (config : RateLimitConfig) (w least : ℕ) (one : 1 ≤ w) where
    after_one :
        (now : ℕ) (counts : Map ℕ)
        → window config now ≡ w
        → let after = (rate_limit_middleware true now config counts).1 in
          (count_of w after ≡ suc (count_of w counts)) × (get (w - 1) after ≡ get (w - 1) counts)
    unfolding rate_limit_middleware check_rate_limit script
    after_one now counts k = (
      counted now config counts w ∙ rw k (rw (==_self w) refl),
      subst (λ x. get (x - 1) (rate_limit_middleware true now config counts).1 ≡ get (x - 1) counts)
          k (own_window (window config now) counts _ (rw k one)),
    )

    still :
        (later : List (Bool × ℕ)) (counts after : Map ℕ)
        → get (w - 1) after ≡ get (w - 1) counts
        → All (Within config w least counts) later
        → All (Within config w least after) later
    still later counts after e h =
        subst
          (λ (o : Option ℕ).
            All
              (λ (r : Bool × ℕ).
                (r.1 / (config.window_secs * 1000) ≡ w)
                × (least ≤ (
                    let window_ms = config.window_secs * 1000 in
                    weigh (unwrap_or o 0) (window_ms - r.1 % window_ms) window_ms)))
              later)
          (sym e) h

    bound :
        (requests : List (Bool × ℕ)) (counts : Map ℕ)
        → All (Within config w least counts) requests
        → let_through requests config counts
          ≤ (config.limit - 1 - count_of w counts - least) + unanswered requests
    unfolding let_through unanswered rate_limit_middleware
    bound [] counts h = omega arith
    bound ((false, now) ∷ later) counts h = let ih = bound later counts h.1 in omega arith
    bound ((true, now) ∷ later) counts h =
        let after = (rate_limit_middleware true now config counts).1 in
        let (more, kept) = after_one now counts h.0.0 in
        let ih : let_through later config after
            ≤ (config.limit - 1 - suc (count_of w counts) - least) + unanswered later =
          rw more at (bound later after (still later counts after kept h.1)) in
        elim (Bool-cases (rate_limit_middleware true now config counts).0) [
          | inl e ↦
              let p = passed config now w counts one h.0.0 e in
              let room = h.0.1 in
              let both : suc (let_through later config after)
                  ≤ (config.limit - 1 - count_of w counts - least) + unanswered later =
                omega arith in
              rw e both
          | inr e ↦
              let both : let_through later config after
                  ≤ (config.limit - 1 - count_of w counts - least) + unanswered later =
                omega arith in
              rw e both
        ]

  -- However the counters stand, of any requests within one window but the first since the epoch, no more are let
  -- through than the limit less one, less those counted in the window before these, less what the
  -- window before it weighs at least at their instants; and those that redis does not answer, each of which
  -- is let through.
  pub window_bound :
      (config : RateLimitConfig) (w least : ℕ) (requests : List (Bool × ℕ)) (counts : Map ℕ)
      → 1 ≤ w
      → All (Within config w least counts) requests
      → let_through requests config counts
        ≤ (config.limit - 1 - unwrap_or (get w counts) 0 - least) + unanswered requests
  unfolding count_of
  window_bound config w least requests counts one h = bound config w least one requests counts h
