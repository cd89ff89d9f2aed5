-- ===== src/Auth/Examples.antt =====
-- Runs of the one-time codes and of the refresh tokens.
use meno.Prelude.{
  arith, ltb, ◌<◌, ◌+◌, ◌≤◌, ◌≡◌, refl, true, false, none, some, List, [], ◌∷◌, ◌==◌, if◌then◌else◌,
  length,
}
use meno.Prelude.Texts.{Text}
use meno.Prelude.Results.{ok, err}
use meno.Table.{find, exists}
use meno.Ws.Events.{same_text}
use meno.Auth.{too_many_requests, invalid_otp, invalid_token, refresh_token_not_found}
use meno.Auth.{access_token_expired}
use meno.Auth.Access.{
  AccessClaims, Decode, BlockList, block_all_user_tokens, revoke_access, auth_middleware, revoked,
}
use meno.Auth.Otp.{Codes, store_otp, verify_otp, guess_all, guesses}
use meno.Auth.Tokens.{RefreshClaims, Jwt, Store, find_refresh_token, rotate, rotate_once}

abbrev otp : Text
otp = 49 ∷ 50 ∷ []

abbrev wrong : List Text
wrong = (49 ∷ []) ∷ (50 ∷ []) ∷ []

abbrev guessed : Codes
guessed =
    (guess_all wrong (record { stored = some otp; attempts = 0; cooldown = false; logins = 0 })).1

guesses_example :
    (length wrong ≤ 4
      → (verify_otp otp guessed
          ≡ (ok true, record { stored = none; attempts = 0; cooldown = false; logins = 0 }))
        × ((verify_otp otp (verify_otp otp guessed).1).0 ≡ err invalid_otp))
    × (5 ≤ length wrong
        → ((verify_otp otp guessed).0 ≡ err too_many_requests)
          × ((verify_otp (51 ∷ []) (store_otp (51 ∷ []) guessed)).0 ≡ err too_many_requests))
unfolding same_text
guesses_example = guesses otp (51 ∷ []) wrong 0 false (refl, (refl, tt))

-- Token 77 names row 5 of user 1, and token 78 is the only one that is signed.
abbrev claims : RefreshClaims
claims = record { sub = 1; jti = 5; exp = 100; iat = 0 }

abbrev jwt : Jwt
jwt = record {
  decode_refresh = λ now token. if token == 77 then ok claims else err invalid_token;
  encode_refresh = λ c. some 78;
  hash_token = λ t. t;
}

abbrev db : Store
db = record {
  users = 1 ∷ [];
  refresh_tokens = record { id = 5; user_id = 1; token_hash = 77; expires_at = 100 } ∷ [];
}

rotated : (rotate jwt 1000 10 77 6 db).0 ≡ ok 78
unfolding rotate find exists
rotated = refl

rotate_once_example :
    (find_refresh_token 6 1 (rotate jwt 1000 10 77 6 db).1
      ≡ some (record { id = 6; user_id = 1; token_hash = 78; expires_at = 10 + 1000 }))
    × (find_refresh_token 5 1 (rotate jwt 1000 10 77 6 db).1 ≡ none)
    × (rotate jwt 1000 20 77 9 (rotate jwt 1000 10 77 6 db).1
        ≡ (err refresh_token_not_found, (rotate jwt 1000 10 77 6 db).1))
rotate_once_example = rotate_once jwt 1000 10 20 77 6 9 78 db claims refl refl refl rotated

-- An access token of user 1, issued at 10 for 900 seconds.
abbrev access : AccessClaims
access = record { sub = 1; jti = 3; verified = true; exp = 910; iat = 10 }

abbrev decode : Decode
decode now token = if ltb 910 now then err access_token_expired else ok access

abbrev no_blocks : BlockList
no_blocks = record { tokens = []; users = [] }

revoked_example :
    (auth_middleware decode 700 (some 5) (revoke_access decode 60 (some 5) no_blocks)
      ≡ err invalid_token)
    × (access.iat < 60
        → auth_middleware decode 700 (some 5) (block_all_user_tokens 60 1 900 no_blocks)
          ≡ err invalid_token)
revoked_example =
    revoked decode 60 700 5 900 access no_blocks refl refl (omega arith) (omega arith) refl
      (omega arith) (omega arith)
