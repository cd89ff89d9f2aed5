-- ===== src/Auth/Tokens.antt =====
-- `TokenService` of apps/api/src/modules/auth/token.rs, its refresh tokens, with their statements in repository.rs. JWTs
-- and hashes belong to other packages: `Jwt` has what they answer, a token and a hash are numbers. An instant is in
-- seconds; `jti` is the UUID drawn for a new token. Postgres answers every statement. The
-- access token of a pair, which is signed last and whose failure comes after a rotation, is left out.
use meno.Prelude.{
  ℕ, ◌+◌, ◌≡◌, refl, sym, ap, ◌∙◌, inl, inr, Bool, false, ◌&&◌, Option, none, some, List, [], ◌∷◌,
  arith, ltb, ◌==◌, if◌then◌else◌, Bool-cases, Option-cases,
}
use meno.Table.{find, exists, delete}
use meno.Prelude.Results.{Result, ok, err, ◌>>=◌}
use meno.Auth.{
  AuthError, invalid_token, refresh_token_expired, refresh_token_not_found, user_not_found,
  token_creation_failed,
}

pub record RefreshClaims : Type 0 where
  pub sub : ℕ
  pub jti : ℕ
  pub exp : ℕ
  pub iat : ℕ

pub record Jwt : Type 0 where
  pub decode_refresh : ℕ → ℕ → Result AuthError RefreshClaims
  pub encode_refresh : RefreshClaims → Option ℕ
  pub hash_token : ℕ → ℕ

pub record RefreshToken : Type 0 where
  pub id : ℕ
  pub user_id : ℕ
  pub token_hash : ℕ
  pub expires_at : ℕ

pub record Store : Type 0 where
  pub users : List ℕ
  pub refresh_tokens : List RefreshToken

abbrev pub is_token : ℕ → ℕ → RefreshToken → Bool
is_token jti u r = r.id == jti && r.user_id == u

unfoldable pub find_refresh_token : ℕ → ℕ → Store → Option RefreshToken
unfolding find
find_refresh_token jti u s = find (is_token jti u) s.refresh_tokens

unfoldable pub store_refresh_token : RefreshToken → Store → Store
store_refresh_token r s = record s { refresh_tokens = r ∷ s.refresh_tokens }

unfoldable pub rotate_refresh_token : ℕ → ℕ → RefreshToken → Store → Store
unfolding delete
rotate_refresh_token u old_jti r s = record s {
  refresh_tokens = r ∷ delete (is_token old_jti u) s.refresh_tokens;
}

unfoldable pub revoke_refresh_token : ℕ → Store → Store
unfolding delete
revoke_refresh_token jti s = record s {
  refresh_tokens = delete (λ r. r.id == jti) s.refresh_tokens;
}

unfoldable pub revoke_all_refresh_tokens : ℕ → Store → Store
unfolding delete
revoke_all_refresh_tokens u s = record s {
  refresh_tokens = delete (λ r. r.user_id == u) s.refresh_tokens;
}

abbrev pub Reply : Type 0 → Type 0
Reply A = Result AuthError A × Store

module _ (jwt : Jwt) (ttl : ℕ) where
  new_claims : ℕ → ℕ → ℕ → RefreshClaims
  new_claims now u jti = record { sub = u; jti = jti; exp = now + ttl; iat = now }

  abbrev new_row : ℕ → ℕ → ℕ → ℕ → RefreshToken
  new_row now u jti token = record {
    id = jti;
    user_id = u;
    token_hash = jwt.hash_token token;
    expires_at = now + ttl;
  }

  -- `issue_pair`, the refresh token of the pair.
  unfoldable pub issue_pair : ℕ → ℕ → ℕ → Store → Reply ℕ
  unfolding store_refresh_token new_claims
  issue_pair now u jti s = elim (jwt.encode_refresh (new_claims now u jti)) [
    | none ↦ (err token_creation_failed, s)
    | some token ↦ (ok token, store_refresh_token (new_row now u jti token) s)
  ]

  unfoldable pub check_row :
      ℕ → RefreshClaims → Option RefreshToken → Result AuthError (RefreshClaims × RefreshToken)
  check_row token claims none = err refresh_token_not_found
  check_row token claims (some stored) =
      if jwt.hash_token token == stored.token_hash then ok (claims, stored) else err invalid_token

  -- The stored row of a refresh token that is in order, up to its expiry.
  unfoldable pub stored_row : ℕ → ℕ → Store → Result AuthError (RefreshClaims × RefreshToken)
  unfolding find_refresh_token check_row
  stored_row now token s =
      jwt.decode_refresh now token
      >>= (λ claims. check_row token claims (find_refresh_token claims.jti claims.sub s))

  -- The rest of `rotate`.
  unfoldable pub rotate_row :
      ℕ → ℕ → Result AuthError (RefreshClaims × RefreshToken) → Store → Reply ℕ
  unfolding rotate_refresh_token revoke_refresh_token new_claims exists
  rotate_row now jti (err e) s = (err e, s)
  rotate_row now jti (ok (claims, stored)) s =
      if ltb stored.expires_at now
      then (err refresh_token_expired, revoke_refresh_token claims.jti s)
      else if exists (λ u. u == claims.sub) s.users
      then elim (jwt.encode_refresh (new_claims now claims.sub jti)) [
        | none ↦ (err token_creation_failed, s)
        | some token ↦ (
          ok token,
          rotate_refresh_token claims.sub claims.jti (new_row now claims.sub jti token) s,
        )
      ]
      else (err user_not_found, s)

  unfoldable pub rotate : ℕ → ℕ → ℕ → Store → Reply ℕ
  unfolding stored_row rotate_row
  rotate now token jti s = rotate_row now jti (stored_row now token s) s

  -- `revoke`, what it does to the refresh token.
  unfoldable pub revoke : ℕ → ℕ → Store → Reply Unit
  unfolding revoke_refresh_token
  revoke now token s = elim (jwt.decode_refresh now token) [
    | err e ↦ (err e, s)
    | ok claims ↦ (ok tt, revoke_refresh_token claims.jti s)
  ]

  find-gone :
      (jti u : ℕ) (rows : List RefreshToken)
      → find (is_token jti u) (delete (is_token jti u) rows) ≡ none
  unfolding find delete
  find-gone jti u [] = refl
  find-gone jti u (r ∷ rows) = ground (arith, find-gone jti u rows)

  row_claims :
      (token : ℕ) (claims c : RefreshClaims) (o : Option RefreshToken) (r : RefreshToken)
      → check_row token claims o ≡ ok (c, r)
      → c ≡ claims
  unfolding check_row
  row_claims token claims c none r h = absurd (ground arith)
  row_claims token claims c (some stored) r h =
      elim (Bool-cases (jwt.hash_token token == stored.token_hash)) [
        | inl e ↦ claims_of (sym (rw e at h))
        | inr e ↦ absurd (let q = rw e at h in ground arith)
      ]
    where
      claims_of :
          ◌≡◌ {A = Result AuthError (RefreshClaims × RefreshToken)}
            (ok (c, r))
            (ok (claims, stored))
          → c ≡ claims
      claims_of e =
          ap
            (λ (x : Result AuthError (RefreshClaims × RefreshToken)). elim x [
              | ok p ↦ p.0
              | err q ↦ c
            ])
            e

  committed :
      (now jti new : ℕ) (row : Result AuthError (RefreshClaims × RefreshToken)) (s : Store)
      → (rotate_row now jti row s).0 ≡ ok new
      → (c : RefreshClaims) × (r : RefreshToken) × (row ≡ ok (c, r))
        × ((rotate_row now jti row s).1
            ≡ rotate_refresh_token c.sub c.jti (new_row now c.sub jti new) s)
  unfolding rotate_row
  committed now jti new (err e) s h = absurd (ground arith)
  committed now jti new (ok (c, r)) s h = (
    c,
    r,
    refl,
    elim (Bool-cases (ltb r.expires_at now)) [
      | inl e ↦ absurd (let q = rw e at h in ground arith)
      | inr e ↦ elim (Bool-cases (exists (λ u. u == c.sub) s.users)) [
        | inr k ↦ absurd (let q = rw e at h in let q2 = rw k at q in ground arith)
        | inl k ↦ elim (Option-cases (jwt.encode_refresh (new_claims now c.sub jti))) [
          | inl n ↦
              absurd
                (let q = rw e at h in let q2 = rw k at q in let q3 = rw n at q2 in ground arith)
          | inr (t, n) ↦
              let q : t ≡ new =
                (let q1 = rw e at h in
                  let q2 = rw k at q1 in let q3 = rw n at q2 in ground arith) in
              rw e (
                rw k
                  (rw n (ap (λ t. rotate_refresh_token c.sub c.jti (new_row now c.sub jti t) s) q)))
        ]
      ]
    ],
  )

  claims_in :
      (now token : ℕ) (s : Store) (claims c : RefreshClaims) (r : RefreshToken)
      → jwt.decode_refresh now token ≡ ok claims
      → stored_row now token s ≡ ok (c, r)
      → c ≡ claims
  unfolding stored_row
  claims_in now token s claims c r d row =
      row_claims token claims c (find_refresh_token claims.jti claims.sub s) r
        (rw (d, stored_row) at row)

  no_row :
      (now token : ℕ) (claims : RefreshClaims) (s : Store)
      → jwt.decode_refresh now token ≡ ok claims
      → find_refresh_token claims.jti claims.sub s ≡ none
      → stored_row now token s ≡ err refresh_token_not_found
  unfolding stored_row check_row
  no_row now token claims s d n = rw (d, stored_row) (rw (n, check_row) refl)

  find_new :
      (old u : ℕ) (r : RefreshToken) (s : Store) (jti : ℕ)
      → r.id ≡ jti
      → r.user_id ≡ u
      → find_refresh_token jti u (rotate_refresh_token u old r s) ≡ some r
  unfolding find_refresh_token rotate_refresh_token find
  find_new old u r s jti e f = ground arith

  find_old :
      (old u : ℕ) (r : RefreshToken) (s : Store)
      → (r.id == old) ≡ false
      → find_refresh_token old u (rotate_refresh_token u old r s) ≡ none
  unfolding find_refresh_token rotate_refresh_token find
  find_old old u r s e = rw e (find-gone old u s.refresh_tokens)

  -- A refresh token is rotated. Its row is gone and that of the new token is there, of the same user; and
  -- whoever sends the old token again, at any time at which it still decodes to what it did, is refused and
  -- changes nothing. The identifier drawn for the new token is another one.
  pub rotate_once :
      (now later token jti again : ℕ) (new : ℕ) (s : Store) (claims : RefreshClaims)
      → jwt.decode_refresh now token ≡ ok claims
      → jwt.decode_refresh later token ≡ ok claims
      → (jti == claims.jti) ≡ false
      → (rotate now token jti s).0 ≡ ok new
      → (find_refresh_token jti claims.sub (rotate now token jti s).1
          ≡ some (new_row now claims.sub jti new))
        × (find_refresh_token claims.jti claims.sub (rotate now token jti s).1 ≡ none)
        × (rotate later token again (rotate now token jti s).1
            ≡ (err refresh_token_not_found, (rotate now token jti s).1))
  unfolding rotate
  rotate_once now later token jti again new s claims d d2 other h =
      let (c, r, row, after) = committed now jti new (stored_row now token s) s h in
      let same : c ≡ claims = claims_in now token s claims c r d row in
      let after =
        after
        ∙ ap (λ (c : RefreshClaims). rotate_refresh_token c.sub c.jti (new_row now c.sub jti new) s)
            same in
      let gone = find_old claims.jti claims.sub (new_row now claims.sub jti new) s other in
      rw after (
        find_new claims.jti claims.sub (new_row now claims.sub jti new) s jti refl refl,
        gone,
        rw
            (no_row later token claims
              (rotate_refresh_token claims.sub claims.jti (new_row now claims.sub jti new) s) d2
              gone)
            refl,
      )
