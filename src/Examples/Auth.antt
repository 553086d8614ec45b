-- ===== src/Examples/Auth.antt =====
-- An administrator, five wrong passwords, a sign-in and a sign-out.
use isms_portal.Base.{
  ℕ, ◌+◌, String, ◌≡◌, refl, Bool, true, false, ◌&&◌, none, some, List, [], ◌∷◌, arith, ltb, str_eq,
  if◌then◌else◌, ◌+++◌,
}
use isms_portal.Auth.{
  Account, AuthStore, locked, session_ms, find_account, in_validity, login, logout, groups_of,
  admin_session_identity,
}
use isms_portal.Auth.Lockout.{attempts, five_failures_lock}
use isms_portal.Auth.Session.{logout_ends, login_session}

abbrev verify : String → String → Bool
verify password encoded = str_eq password encoded

abbrev totp : String → String → Bool
totp secret code = false

abbrev hash : String → String
hash token = "#" +++ token

abbrev root : Account
root = record {
  id = "a1";
  username = "root";
  is_local = true;
  active = true;
  is_moderator_role = false;
  password_hash = some "secret";
  mfa_secret = none;
  mfa_enabled = false;
  valid_from = none;
  valid_until = none;
  failed_login_count = 2;
  locked_until = none;
  last_authorized_at = none;
}

abbrev store : AuthStore
store = record { accounts = root ∷ []; admin_sessions = []; user_sessions = [] }

abbrev guesses : List (ℕ × String)
guesses = (10, "a") ∷ (20, "b") ∷ []

five_failures_lock_example :
    (login verify totp hash 1000 "t" "root" "secret" none
      (login verify totp hash 30 "t" "root" "c" none
        (attempts verify totp hash "t" "root" guesses store)).0).1
    ≡ locked
unfolding str_eq
five_failures_lock_example =
    five_failures_lock verify totp hash "t" "root" guesses 30 1000 "c" "secret" none store root refl
      refl refl (omega arith) (refl, (refl, tt)) refl (omega arith)

login_session_example :
    (a : Account) × (find_account "root" store.accounts ≡ some a)
    × ((admin_session_identity verify totp hash 60000 500
          (some "t")
          (login verify totp hash 10 "t" "root" "secret" none store).0).1
        ≡ (if ltb 500 (10 + session_ms) && (a.active && in_validity 500 a)
            then some (record {
              username = a.username;
              groups = groups_of verify totp hash a;
              session_expires_at = 10 + session_ms;
            })
            else none))
unfolding str_eq login
login_session_example =
    login_session verify totp hash 60000 10 500 "t" "root" "secret" none store false (refl, tt) refl
      refl

logout_ends_example :
    (admin_session_identity verify totp hash 60000 20 (some "t") (
      logout verify totp hash
        (some "t")
        none
        none
        (login verify totp hash 10 "t" "root" "secret" none store).0)).1
    ≡ none
logout_ends_example =
    logout_ends verify totp hash 60000 20 "t" none none
      (login verify totp hash 10 "t" "root" "secret" none store).0 refl
