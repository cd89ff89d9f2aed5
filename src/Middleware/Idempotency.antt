-- ===== src/Middleware/Idempotency.antt =====
-- apps/api/src/shared/middleware/idempotency.rs. `W` is all that a handler may read and change. A key is the UUID of
-- the header; the body of a response is missing when it cannot be collected; `lossy` is
-- `String::from_utf8_lossy`. The stored responses stay a day, longer than the retries looked at here, and the task
-- that stores one is done when the answer is there. The headers of a response are left out, and so is a server
-- without redis, where every request passes.
use meno.Prelude.{
  ℕ, ◌≡◌, refl, ◌∙◌, Bool, true, false, ◌&&◌, Option, none, some, [], arith, ltb, leb,
  if◌then◌else◌, ==_self,
}
use meno.Prelude.Maps.{Map, get, put, get-put}
use meno.Prelude.Texts.{Text}

pub record Response : Type 0 where
  pub status : ℕ
  pub body : Option Text

pub record CachedResponse : Type 0 where
  pub status : ℕ
  pub body : Text

-- `is_success`
unfoldable pub is_success : ℕ → Bool
is_success status = leb 200 status && ltb status 300

-- `StatusCode::from_u16`
unfoldable pub status_code : ℕ → ℕ
status_code n = if leb 100 n && ltb n 1000 then n else 200

abbrev pub Handler : Type 0 → Type 0
Handler W = W → Response × W

success_status : (n : ℕ) → is_success n ≡ true → status_code n ≡ n
unfolding is_success status_code
success_status n h = ground arith

module _ (lossy : Text → Text) where
  unfoldable pub store_answer : ℕ → Response → Map CachedResponse → Response × Map CachedResponse
  unfolding put is_success
  store_answer key r stored =
      if is_success r.status
      then elim r.body [
        | none ↦ (record { status = 500; body = some [] }, stored)
        | some bytes ↦ (r, put key (record { status = r.status; body = lossy bytes }) stored)
      ]
      else (r, stored)

  kept :
      (key : ℕ) (r : Response) (bytes : Text) (stored : Map CachedResponse)
      → is_success r.status ≡ true
      → r.body ≡ some bytes
      → store_answer key r stored
        ≡ (r, put key (record { status = r.status; body = lossy bytes }) stored)
  unfolding store_answer
  kept key r bytes stored s b = rw s (simp (b) refl)

  dropped :
      (key : ℕ) (r : Response) (stored : Map CachedResponse)
      → is_success r.status ≡ false
      → store_answer key r stored ≡ (r, stored)
  unfolding store_answer
  dropped key r stored s = rw s refl

module _ {W : Type 0} (lossy : Text → Text) where
  unfoldable pub idempotency_middleware :
      Option ℕ → Handler W → Map CachedResponse → W → Response × Map CachedResponse × W
  unfolding get store_answer status_code
  idempotency_middleware none run stored w = let (r, w') = run w in (r, stored, w')
  idempotency_middleware (some key) run stored w = elim (get key stored) [
    | some cached ↦
        (record { status = status_code cached.status; body = some cached.body }, stored, w)
    | none ↦
        let (r, w') = run w in
        let (answer, stored') = store_answer lossy key r stored in (answer, stored', w')
  ]

  first_answer :
      (key : ℕ) (run : Handler W) (stored : Map CachedResponse) (w : W)
      → get key stored ≡ none
      → idempotency_middleware (some key) run stored w ≡ (
        (store_answer lossy key (run w).0 stored).0,
        (store_answer lossy key (run w).0 stored).1,
        (run w).1,
      )
  unfolding idempotency_middleware
  first_answer key run stored w h = rw (h, idempotency_middleware) refl

  replayed :
      (key : ℕ) (run : Handler W) (stored : Map CachedResponse) (w : W) (c : CachedResponse)
      → get key stored ≡ some c
      → idempotency_middleware (some key) run stored w
        ≡ (record { status = status_code c.status; body = some c.body }, stored, w)
  unfolding idempotency_middleware
  replayed key run stored w c h = rw (h, idempotency_middleware) refl

  -- A request with a key that is not stored is answered by its handler. If that succeeds with a body, a
  -- second request with the key, whatever its handler is, gets the status and the text of the body
  -- again, and nothing runs; if it does not succeed, nothing is stored.
  pub retry :
      (key : ℕ) (run again : Handler W) (stored : Map CachedResponse) (w : W)
      → get key stored ≡ none
      → ((bytes : Text)
          → is_success (run w).0.status ≡ true
          → (run w).0.body ≡ some bytes
          → let stored' =
              put key (record { status = (run w).0.status; body = lossy bytes }) stored in
            (idempotency_middleware (some key) run stored w ≡ ((run w).0, stored', (run w).1))
            × (idempotency_middleware (some key) again stored' (run w).1 ≡ (
              record { status = (run w).0.status; body = some (lossy bytes) },
              stored',
              (run w).1,
            )))
        × (is_success (run w).0.status ≡ false
            → idempotency_middleware (some key) run stored w ≡ ((run w).0, stored, (run w).1))
  retry key run again stored w h = (
    λ bytes s b.
        let answer : CachedResponse = record { status = (run w).0.status; body = lossy bytes } in
        let there : get key (put key answer stored) ≡ some answer =
          get-put key key answer stored ∙ rw (==_self key) refl in
        (
          first_answer key run stored w h ∙ rw (kept lossy key (run w).0 bytes stored s b) refl,
          replayed key again (put key answer stored) (run w).1 answer there
              ∙ rw (success_status (run w).0.status s) refl,
        ),
    λ s. first_answer key run stored w h ∙ rw (dropped lossy key (run w).0 stored s) refl,
  )
