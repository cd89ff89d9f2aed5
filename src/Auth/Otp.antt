-- ===== src/Auth/Otp.antt =====
-- `AuthRedisCache` of apps/api/src/modules/auth/cache.rs, for one address and one type of code: the stored code, the
-- counter of attempts, the cooldown of resending, and the counter of logins of the address. Counters and codes are kept
-- for fifteen minutes; the runs here are shorter, so that nothing expires.
use meno.Prelude.{
  ℕ, suc, ◌+◌, ◌≤◌, ◌≡◌, refl, ◌∙◌, inl, inr, Bool, true, false, not, Option, none, some, List, [],
  ◌∷◌, arith, ltb, if◌then◌else◌, ==_self, Bool-cases, length, All,
}
use meno.Prelude.Texts.{Text}
use meno.Prelude.Results.{Result, ok, err}
use meno.Ws.Events.{same_text}
use meno.Auth.{AuthError, too_many_requests, invalid_otp}

pub record Codes : Type 0 where
  pub stored : Option Text
  pub attempts : ℕ
  pub cooldown : Bool
  pub logins : ℕ

unfoldable pub store_otp : Text → Codes → Codes
store_otp otp s = record s { stored = some otp }

unfoldable pub revoke_otp : Codes → Codes
revoke_otp s = record s { stored = none }

unfoldable pub can_resend_otp : Codes → Bool
can_resend_otp s = not s.cooldown

unfoldable pub set_resend_cooldown : Codes → Codes
set_resend_cooldown s = record s { cooldown = true }

-- The code compared, after the attempt is counted.
compared : Text → Codes → Result AuthError Bool × Codes
unfolding same_text
compared code s = elim s.stored [
  | none ↦ (err invalid_otp, s)
  | some otp ↦
      if same_text otp code
      then (ok true, record s { stored = none; attempts = 0 })
      else (ok false, s)
]

unfoldable pub verify_otp : Text → Codes → Result AuthError Bool × Codes
unfolding compared
verify_otp code s =
    let t = record s { attempts = s.attempts + 1 } in
    let answer = compared code t in if ltb 5 t.attempts then (err too_many_requests, t) else answer

abbrev pub max_login_attempts : ℕ
max_login_attempts = 10

unfoldable pub check_login_rate_limit : Codes → Result AuthError Unit × Codes
check_login_rate_limit s =
    let t = record s { logins = s.logins + 1 } in
    (if ltb max_login_attempts t.logins then err too_many_requests else ok tt, t)

unfoldable pub clear_login_rate_limit : Codes → Codes
clear_login_rate_limit s = record s { logins = 0 }

-- Guesses in turn: their answers and the state after them.
unfoldable pub guess_all : List Text → Codes → List (Result AuthError Bool) × Codes
unfolding verify_otp
guess_all [] s = ([], s)
guess_all (g ∷ gs) s =
    let (answer, t) = verify_otp g s in let (rest, u) = guess_all gs t in (answer ∷ rest, u)

same_text_self : (t : Text) → same_text t t ≡ true
unfolding same_text
same_text_self [] = refl
same_text_self (c ∷ cs) = rw (==_self c) (same_text_self cs)

wrong_guess :
    (otp g : Text) (n l : ℕ) (c : Bool)
    → same_text otp g ≡ false
    → (verify_otp g (record { stored = some otp; attempts = n; cooldown = c; logins = l })).1
      ≡ record { stored = some otp; attempts = n + 1; cooldown = c; logins = l }
unfolding verify_otp compared
wrong_guess otp g n l c h =
    rw h (elim (Bool-cases (ltb 5 (n + 1))) [ inl e ↦ rw e refl | inr e ↦ rw e refl ])

wrong_guesses :
    (otp : Text) (gs : List Text) (n l : ℕ) (c : Bool)
    → All (λ g. same_text otp g ≡ false) gs
    → (guess_all gs (record { stored = some otp; attempts = n; cooldown = c; logins = l })).1
      ≡ record { stored = some otp; attempts = n + length gs; cooldown = c; logins = l }
unfolding guess_all
wrong_guesses otp [] n l c h = let sum : n + 0 ≡ n = omega arith in rw sum refl
wrong_guesses otp (g ∷ gs) n l c h =
    let sum : (n + 1) + length gs ≡ n + suc (length gs) = omega arith in
    rw (wrong_guess otp g n l c h.0) (wrong_guesses otp gs (n + 1) l c h.1 ∙ rw sum refl)

-- A code is guessed wrong some number of times. Up to four wrong guesses before it, the right code is still taken,
-- once: it is not taken a second time. After five or more it is refused, and a new code that is sent
-- does not help.
pub guesses :
    (otp fresh_otp : Text) (gs : List Text) (l : ℕ) (c : Bool)
    → All (λ g. same_text otp g ≡ false) gs
    → let after =
        (guess_all gs (record { stored = some otp; attempts = 0; cooldown = c; logins = l })).1 in
      (length gs ≤ 4
        → (verify_otp otp after
            ≡ (ok true, record { stored = none; attempts = 0; cooldown = c; logins = l }))
          × ((verify_otp otp (verify_otp otp after).1).0 ≡ err invalid_otp))
      × (5 ≤ length gs
          → ((verify_otp otp after).0 ≡ err too_many_requests)
            × ((verify_otp fresh_otp (store_otp fresh_otp after)).0 ≡ err too_many_requests))
unfolding verify_otp compared store_otp
guesses otp fresh_otp gs l c h = rw (wrong_guesses otp gs 0 l c h) (
  λ few.
      let soon : ltb 5 ((0 + length gs) + 1) ≡ false = ground arith in
      rw soon (rw (same_text_self otp) (refl, refl)),
  λ many.
      let late : ltb 5 ((0 + length gs) + 1) ≡ true = ground arith in (rw late refl, rw late refl),
)
