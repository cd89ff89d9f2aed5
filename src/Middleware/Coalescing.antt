-- ===== src/Middleware/Coalescing.antt =====
-- apps/api/src/shared/services/redis/coalescing.rs: one call of `coalesce_cache`. `cached` and `locked` are the cached
-- value and the lock as redis has them; what the other callers do to the cache while this one waits is `seen`, the
-- answer to each poll. The task that stores the result and releases the lock runs at the end, and redis answers;
-- `fetches` counts the calls of the source.
use meno.Prelude.{
  ℕ, zero, suc, ◌+◌, ◌≤◌, ◌<◌, ◌≡◌, refl, ◌⊎◌, inl, inr, Bool, true, false, Option, none, some,
  List, [], ◌∷◌, All, ap, length, replicate, arith, ◌==◌, if◌then◌else◌, Bool-cases, Option-cases,
}
use meno.Prelude.Results.{Result, ok, err}

abbrev pub lock_max_retries : ℕ
lock_max_retries = 40

pub record Cache (T : Type 0) : Type 0 where
  pub cached : Option T
  pub locked : Bool
  pub fetches : ℕ

-- `try_acquire_lock` and `release_lock`
unfoldable pub try_acquire_lock : {T : Type 0} → Cache T → Bool × Cache T
try_acquire_lock c = if c.locked then (false, c) else (true, record c { locked = true })

unfoldable pub release_lock : {T : Type 0} → Cache T → Cache T
release_lock c = record c { locked = false }

module _ {T E : Type 0} (fetcher : Result E T) where
  -- The polls that are left, and the number of the next one.
  unfoldable pub wait_for : (ℕ → Option T) → ℕ → ℕ → Option T
  wait_for seen attempt zero = none
  wait_for seen attempt (suc left) = elim (seen attempt) [
    | none ↦ wait_for seen (attempt + 1) left
    | some v ↦ some v
  ]

  unfoldable pub fetch : Cache T → Result E T × Cache T
  fetch c = (fetcher, record c { fetches = c.fetches + 1 })

  unfoldable pub store_result : Result E T × Cache T → Result E T × Cache T
  unfolding release_lock
  store_result (ok v, c) = (ok v, release_lock (record c { cached = some v }))
  store_result (err e, c) = (err e, c)

  -- The call, with the number of polls.
  unfoldable pub coalesce : ℕ → (ℕ → Option T) → Cache T → Result E T × Cache T
  unfolding try_acquire_lock wait_for fetch store_result
  coalesce retries seen c = elim c.cached [
    | some v ↦ (ok v, c)
    | none ↦
        let (acquired, c1) = try_acquire_lock c in
        if acquired
        then store_result (fetch c1)
        else elim (wait_for seen 1 retries) [ some v ↦ (ok v, c1) | none ↦ fetch c1 ]
  ]

  unfoldable pub coalesce_cache : (ℕ → Option T) → Cache T → Result E T × Cache T
  unfolding coalesce
  coalesce_cache seen c = coalesce lock_max_retries seen c

  -- What a poll saw, if one of them saw a value.
  Waited : (ℕ → Option T) → ℕ → ℕ → Type 0
  Waited seen attempt left =
      ((n : ℕ) × (v : T) × (attempt ≤ n)
        × (n < attempt + left)
        × (seen n ≡ some v)
        × ((j : ℕ) → attempt ≤ j → j < n → seen j ≡ none)
        × (wait_for seen attempt left ≡ some v))
      ⊎ (((n : ℕ) → attempt ≤ n → n < attempt + left → seen n ≡ none)
          × (wait_for seen attempt left ≡ none))

  waited : (seen : ℕ → Option T) (attempt left : ℕ) → Waited seen attempt left
  unfolding Waited wait_for
  waited seen attempt zero = inr ((λ n a b. absurd (omega arith)), refl)
  waited seen attempt (suc left) = elim (Option-cases (seen attempt)) [
    | inr (v, e) ↦ inl (
      attempt,
      v,
      omega arith,
      omega arith,
      e,
      (λ j a b. absurd (omega arith)),
      rw (e, wait_for) refl,
    )
    | inl e ↦ elim (waited seen (attempt + 1) left) [
      | inl (n, v, a, b, s, before, k) ↦
          inl (n, v, omega arith, omega arith, s, earlier e before, rw (e, wait_for) k)
      | inr (h, k) ↦ inr (later e h, rw (e, wait_for) k)
    ]
  ]
    where
      earlier :
          {n : ℕ}
          → seen attempt ≡ none
          → ((j : ℕ) → attempt + 1 ≤ j → j < n → seen j ≡ none)
          → (j : ℕ) → attempt ≤ j
          → j < n
          → seen j ≡ none
      earlier e h j a b = elim (Bool-cases (j == attempt)) [
        | inl q ↦ let same : j ≡ attempt = ground arith in rw same e
        | inr q ↦ h j (ground arith) b
      ]

      later :
          seen attempt ≡ none
          → ((n : ℕ) → attempt + 1 ≤ n → n < attempt + 1 + left → seen n ≡ none)
          → (n : ℕ) → attempt ≤ n
          → n < attempt + suc left
          → seen n ≡ none
      later e h n a b = elim (Bool-cases (n == attempt)) [
        | inl q ↦ let same : n ≡ attempt = ground arith in rw same e
        | inr q ↦ h n (ground arith) (ground arith)
      ]

  unheard :
      (seen : ℕ → Option T) (attempt left : ℕ)
      → ((n : ℕ) → attempt ≤ n → n < attempt + left → seen n ≡ none)
      → wait_for seen attempt left ≡ none
  unfolding wait_for
  unheard seen attempt zero h = refl
  unheard seen attempt (suc left) h =
      rw (h attempt (omega arith) (omega arith), wait_for)
        (unheard seen (attempt + 1) left (λ n a b. h n (omega arith) (omega arith)))

  -- Callers one after the other, each with what its polls see: the answers, and the cache after them.
  unfoldable pub serve_each : List (ℕ → Option T) → Cache T → List (Result E T) × Cache T
  unfolding coalesce_cache
  serve_each [] c = ([], c)
  serve_each (seen ∷ later) c =
      let (answer, next) = coalesce_cache seen c in
      let (answers, end) = serve_each later next in (answer ∷ answers, end)

  abbrev empty : Bool → ℕ → Cache T
  empty locked n = record { cached = none; locked = locked; fetches = n }

  abbrev filled : T → ℕ → Cache T
  filled v n = record { cached = some v; locked = false; fetches = n }

  hits :
      (later : List (ℕ → Option T)) (v : T) (n : ℕ)
      → serve_each later (filled v n) ≡ (replicate (length later) (ok v), filled v n)
  unfolding serve_each coalesce_cache coalesce
  hits [] v n = refl
  hits (seen ∷ later) v n = rw (hits later v n) refl

  wins :
      (seen : ℕ → Option T) (v : T) (n : ℕ)
      → fetcher ≡ ok v
      → coalesce_cache seen (empty false n) ≡ (ok v, filled v (n + 1))
  unfolding coalesce_cache coalesce try_acquire_lock fetch store_result release_lock
  wins seen v n h = rw h refl

  fails :
      (seen : ℕ → Option T) (e : E) (n : ℕ)
      → fetcher ≡ err e
      → coalesce_cache seen (empty false n) ≡ (err e, empty true (n + 1))
  unfolding coalesce_cache coalesce try_acquire_lock fetch store_result
  fails seen e n h = rw h refl

  abbrev pub Unheard : (ℕ → Option T) → Type 0
  Unheard seen = (k : ℕ) → 1 ≤ k → k ≤ 40 → seen k ≡ none

  gives_up :
      (seen : ℕ → Option T) (n : ℕ)
      → Unheard seen
      → coalesce_cache seen (empty true n) ≡ (fetcher, empty true (n + 1))
  unfolding coalesce_cache coalesce try_acquire_lock fetch
  gives_up seen n h =
      rw (unheard seen 1 lock_max_retries (λ k a b. h k a (omega arith)), coalesce) refl

  misses :
      (later : List (ℕ → Option T)) (e : E) (n : ℕ)
      → fetcher ≡ err e
      → All Unheard later
      → serve_each later (empty true n)
        ≡ (replicate (length later) (err e), empty true (n + length later))
  unfolding serve_each
  misses [] e n h all_quiet =
      let same : n ≡ n + 0 = omega arith in ap (λ k. ([], empty true k)) same
  misses (seen ∷ later) e n h all_quiet =
      let same : n + 1 + length later ≡ n + suc (length later) = omega arith in
      rw (gives_up seen n all_quiet.0, serve_each)
        (rw h (
          rw (misses later e (n + 1) h all_quiet.1)
            (ap (λ k. (err e ∷ replicate (length later) (err e), empty true k)) same)))

  -- Of callers one after the other on an empty cache, whatever their polls see, only the first fetches if
  -- that succeeds, and all get its value. If the source fails for all, the first leaves the lock, and each
  -- later one whose forty polls see nothing fetches in its turn. A caller without the lock answers with what
  -- the first of forty polls that finds a value sees, and fetches only if none of them finds one.
  pub coalesced :
      (seen : ℕ → Option T) (later : List (ℕ → Option T)) (n : ℕ)
      → ((v : T)
          → fetcher ≡ ok v
          → serve_each (seen ∷ later) (record { cached = none; locked = false; fetches = n }) ≡ (
            replicate (suc (length later)) (ok v),
            record { cached = some v; locked = false; fetches = n + 1 },
          ))
        × ((e : E)
            → fetcher ≡ err e
            → All (λ s. (k : ℕ) → 1 ≤ k → k ≤ 40 → s k ≡ none) later
            → serve_each (seen ∷ later) (record { cached = none; locked = false; fetches = n }) ≡ (
              replicate (suc (length later)) (err e),
              record { cached = none; locked = true; fetches = n + 1 + length later },
            ))
        × (((k : ℕ) × (v : T) × (1 ≤ k)
              × (k ≤ 40)
              × (seen k ≡ some v)
              × ((j : ℕ) → 1 ≤ j → j < k → seen j ≡ none)
              × (coalesce_cache seen (record { cached = none; locked = true; fetches = n })
                  ≡ (ok v, record { cached = none; locked = true; fetches = n })))
            ⊎ (((k : ℕ) → 1 ≤ k → k ≤ 40 → seen k ≡ none)
                × (coalesce_cache seen (record { cached = none; locked = true; fetches = n })
                    ≡ (fetcher, record { cached = none; locked = true; fetches = n + 1 }))))
  unfolding serve_each coalesce_cache coalesce try_acquire_lock Waited
  coalesced seen later n = (
    λ v h. rw (wins seen v n h, serve_each) (rw (hits later v (n + 1)) refl),
    λ e h all_quiet.
        rw (fails seen e n h, serve_each) (rw (misses later e (n + 1) h all_quiet) refl),
    elim (waited seen 1 lock_max_retries) [
      | inl (k, v, a, b, s, before, w) ↦
          inl (k, v, omega arith, omega arith, s, before, rw (w, coalesce) refl)
      | inr (h, w) ↦
          inr ((λ k a b. h k a (omega arith)), gives_up seen n (λ k a b. h k a (omega arith)))
    ],
  )
