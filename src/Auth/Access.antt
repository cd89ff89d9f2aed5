-- ===== src/Auth/Access.antt =====
-- The block list of access tokens: cache.rs and token.rs of apps/api/src/modules/auth, and `auth_middleware` of
-- apps/api/src/shared/middleware/auth.rs. A JWT is decoded by another package: `Decode`. An instant is in seconds. An
-- entry of the list is kept with the instant at which redis drops it. The claims are those that these
-- operations read. What is left of a token is 0 once it has expired.
use meno.Prelude.{
  ℕ, ◌+◌, ◌-◌, ◌≤◌, ◌<◌, ◌≡◌, refl, ◌∙◌, Bool, true, false, ◌&&◌, ◌||◌, Option, none, some, arith,
  ltb, leb, ◌==◌, if◌then◌else◌, lt→ltb, ==_self,
}
use meno.Prelude.Maps.{Map, get, put, get-put}
use meno.Prelude.Results.{Result, ok, err, ◌>>=◌}
use meno.Auth.{AuthError, email_not_verified, invalid_token, missing_token}

pub record AccessClaims : Type 0 where
  pub sub : ℕ
  pub jti : ℕ
  pub verified : Bool
  pub exp : ℕ
  pub iat : ℕ

abbrev pub Decode : Type 0
Decode = ℕ → ℕ → Result AuthError AccessClaims

pub record BlockList : Type 0 where
  pub tokens : Map ℕ
  pub users : Map (ℕ × ℕ)

abbrev pub ttl_access_token_block_max : ℕ
ttl_access_token_block_max = 900

abbrev pub smaller : ℕ → ℕ → ℕ
smaller a b = if leb a b then a else b

unfoldable pub block_access_token : ℕ → ℕ → ℕ → BlockList → BlockList
unfolding put
block_access_token now jti remaining s =
    let ttl = smaller remaining ttl_access_token_block_max in
    if ttl == 0 then s else record s { tokens = put jti (now + ttl) s.tokens }

unfoldable pub is_token_blocked : ℕ → ℕ → BlockList → Bool
unfolding get
is_token_blocked now jti s = elim (get jti s.tokens) [ none ↦ false | some until ↦ ltb now until ]

unfoldable pub block_all_user_tokens : ℕ → ℕ → ℕ → BlockList → BlockList
unfolding put
block_all_user_tokens now u ttl s = record s { users = put u (now, now + ttl) s.users }

unfoldable pub is_user_tokens_blocked : ℕ → ℕ → ℕ → BlockList → Bool
unfolding get
is_user_tokens_blocked now u issued_at s = elim (get u s.users) [
  | none ↦ false
  | some e ↦ ltb now e.1 && ltb issued_at e.0
]

unfoldable pub is_access_token_blocked : ℕ → ℕ → ℕ → ℕ → BlockList → Bool
unfolding is_token_blocked is_user_tokens_blocked
is_access_token_blocked now jti u issued_at s =
    is_token_blocked now jti s || is_user_tokens_blocked now u issued_at s

module _ (decode_access : Decode) where
  -- The rest of `revoke`, for an access token that comes with the refresh token.
  unfoldable pub revoke_access : ℕ → Option ℕ → BlockList → BlockList
  unfolding block_access_token
  revoke_access now none s = s
  revoke_access now (some token) s = elim (decode_access now token) [
    | err e ↦ s
    | ok claims ↦
        let remaining = claims.exp - now in
        let blocked = block_access_token now claims.jti remaining s in
        if ltb 0 remaining then blocked else s
  ]

  unfoldable pub admit : ℕ → AccessClaims → BlockList → Result AuthError ℕ
  unfolding is_access_token_blocked
  admit now claims s =
      if is_access_token_blocked now claims.jti claims.sub claims.iat s
      then err invalid_token
      else if claims.verified
      then ok claims.sub
      else err email_not_verified

  -- The user that a request is let through as.
  unfoldable pub auth_middleware : ℕ → Option ℕ → BlockList → Result AuthError ℕ
  unfolding admit
  auth_middleware now none s = err missing_token
  auth_middleware now (some token) s = decode_access now token >>= (λ claims. admit now claims s)

  admitted :
      (now token : ℕ) (claims : AccessClaims) (s : BlockList)
      → decode_access now token ≡ ok claims
      → auth_middleware now (some token) s ≡ admit now claims s
  unfolding auth_middleware
  admitted now token claims s d = rw (d, auth_middleware) refl

  refused :
      (now : ℕ) (claims : AccessClaims) (s : BlockList)
      → is_access_token_blocked now claims.jti claims.sub claims.iat s ≡ true
      → admit now claims s ≡ err invalid_token
  unfolding admit
  refused now claims s h = rw h refl

  user_blocked :
      (now later u iat ttl : ℕ) (s : BlockList)
      → later < now + ttl
      → iat < now
      → is_user_tokens_blocked later u iat (block_all_user_tokens now u ttl s) ≡ true
  unfolding is_user_tokens_blocked block_all_user_tokens
  user_blocked now later u iat ttl s h k =
      let there : get u (put u (now, now + ttl) s.users) ≡ some (now, now + ttl) =
        get-put u u (now, now + ttl) s.users ∙ rw (==_self u) refl in
      rw (there, is_user_tokens_blocked) (rw (lt→ltb later (now + ttl) h) (lt→ltb iat now k))

  token_blocked :
      (now later jti remaining : ℕ) (s : BlockList)
      → later < now + remaining
      → now ≤ later
      → remaining ≤ 900
      → is_token_blocked later jti (block_access_token now jti remaining s) ≡ true
  unfolding is_token_blocked block_access_token
  token_blocked now later jti remaining s h k r =
      let whole : smaller remaining ttl_access_token_block_max ≡ remaining = ground arith in
      let some_left : (remaining == 0) ≡ false = ground arith in
      let there : get jti (put jti (now + remaining) s.tokens) ≡ some (now + remaining) =
        get-put jti jti (now + remaining) s.tokens ∙ rw (==_self jti) refl in
      rw whole (rw some_left (rw (there, is_token_blocked) (lt→ltb later (now + remaining) h)))

  user_part :
      (now jti u iat : ℕ) (s : BlockList)
      → is_user_tokens_blocked now u iat s ≡ true
      → is_access_token_blocked now jti u iat s ≡ true
  unfolding is_access_token_blocked
  user_part now jti u iat s h = rw h (ground arith)

  token_part :
      (now jti u iat : ℕ) (s : BlockList)
      → is_token_blocked now jti s ≡ true
      → is_access_token_blocked now jti u iat s ≡ true
  unfolding is_access_token_blocked
  token_part now jti u iat s h = rw h refl

  logged_out :
      (now token : ℕ) (claims : AccessClaims) (s : BlockList)
      → decode_access now token ≡ ok claims
      → now < claims.exp
      → revoke_access now (some token) s ≡ block_access_token now claims.jti (claims.exp - now) s
  unfolding revoke_access
  logged_out now token claims s d h =
      let left : ltb 0 (claims.exp - now) ≡ true = ground arith in
      rw (d, revoke_access) (rw left refl)

  -- An access token that lives no longer than `ttl`, at most 900 seconds, is refused from a logout with it until it
  -- expires. When all tokens of its user are blocked for `ttl` seconds, it is refused until it expires, if it was issued
  -- in a second before that of the block.
  pub revoked :
      (now later token ttl : ℕ) (claims : AccessClaims) (s : BlockList)
      → decode_access now token ≡ ok claims
      → decode_access later token ≡ ok claims
      → now ≤ later
      → later < claims.exp
      → claims.exp ≡ claims.iat + ttl
      → claims.iat ≤ now
      → ttl ≤ 900
      → (auth_middleware later (some token) (revoke_access now (some token) s) ≡ err invalid_token)
        × (claims.iat < now
            → auth_middleware later (some token) (block_all_user_tokens now claims.sub ttl s)
              ≡ err invalid_token)
  revoked now later token ttl claims s d d2 after soon life made short = (
    admitted later token claims (revoke_access now (some token) s) d2
        ∙ refused later claims (revoke_access now (some token) s) (
            rw (logged_out now token claims s d (omega arith)) (
              token_part later claims.jti claims.sub claims.iat _ (
                token_blocked now later claims.jti (claims.exp - now) s (omega arith) after
                  (omega arith)))),
    λ earlier.
        admitted later token claims (block_all_user_tokens now claims.sub ttl s) d2
        ∙ refused later claims (block_all_user_tokens now claims.sub ttl s) (
            user_part later claims.jti claims.sub claims.iat _
              (user_blocked now later claims.sub claims.iat ttl s (omega arith) earlier)),
  )
