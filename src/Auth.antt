-- ===== src/Auth.antt =====
-- apps/api/src/modules/auth: errors.rs. Children: `Otp` has the one-time codes and the limit on logins of
-- cache.rs, `Tokens` the refresh tokens of token.rs and repository.rs, `Access` the block list
-- of access tokens and the middleware that asks it.
pub mod Otp
pub mod Tokens
pub mod Access
mod Examples
use meno.Prelude.{
  ℕ, zero, suc, ◌+◌, ◌-◌, ◌*◌, ◌/◌, ◌%◌, ◌^◌, ◌≤◌, ◌<◌, ◌≡◌, refl, sym, ap, ◌∙◌, ◌≢◌, ◌↔◌, ◌⊎◌, inl,
  inr, Bool, true, false, not, ◌&&◌, ◌||◌, Option, none, some, List, [], ◌∷◌, ◌++◌, map, arith, ltb,
  leb, ◌==◌, if◌then◌else◌, ltb→lt, lt→ltb, leb→le, ==_iff, ==_self, tests, Bool-cases,
  Option-cases, is_some, unwrap_or, or_else, length, take, drop, last, replicate, All,
  length-append, take-append-drop, length-take, take_all, All-append, All-map_iff, length-map,
}

pub data AuthError : Type 0 where
  email_taken invalid_credentials google_account_conflict email_not_verified : AuthError
  email_already_verified invalid_otp otp_already_used access_token_expired : AuthError
  refresh_token_expired invalid_token missing_token refresh_token_not_found : AuthError
  token_creation_failed user_not_found google_auth_failed too_many_requests database : AuthError
  redis internal password_hash validation_error : AuthError
