-- ===== src/Auth.antt =====
-- The sign-in of administrators and their sessions: `login`, `adminSessionIdentity` and `logout` of
-- apps/api/src/auth.service.ts. A cookie is the optional token that it holds; `token` is the random
-- text of a new session, and a handler reads the clock once, as `now`.
pub mod Lockout
pub mod Session
use isms_portal.Base.{
  ℕ, ◌+◌, ◌*◌, String, Bool, true, false, not, ◌&&◌, Option, none, some, List, [], ◌∷◌, ltb, leb,
  str_eq, if◌then◌else◌, truthy, filter, find, update_where,
}

-- `AdminAccount`
pub record Account : Type 0 where
  pub id : String
  pub username : String
  pub is_local : Bool
  pub active : Bool
  pub is_moderator_role : Bool
  pub password_hash : Option String
  pub mfa_secret : Option String
  pub mfa_enabled : Bool
  pub valid_from : Option ℕ
  pub valid_until : Option ℕ
  pub failed_login_count : ℕ
  pub locked_until : Option ℕ
  pub last_authorized_at : Option ℕ

-- `AdminSession`
pub record AdminSession : Type 0 where
  pub token_hash : String
  pub admin_account_id : String
  pub expires_at : ℕ
  pub last_used_at : Option ℕ

-- `DirectoryUserSession`, as far as `logout` goes.
pub record UserSession : Type 0 where
  pub token_hash : String

pub record AuthStore : Type 0 where
  pub accounts : List Account
  pub admin_sessions : List AdminSession
  pub user_sessions : List UserSession

-- `Identity`
pub record Identity : Type 0 where
  pub username : String
  pub groups : List String
  pub session_expires_at : ℕ

pub data LoginResult : Type 0 where
  authenticated : Bool → LoginResult
  locked invalid_credentials mfa_required : LoginResult

abbrev pub lock_ms : ℕ
lock_ms = 15 * 60 * 1000

abbrev pub session_ms : ℕ
session_ms = 8 * 60 * 60 * 1000

abbrev pub find_account : String → List Account → Option Account
find_account username accounts = find (λ a. str_eq (Account.username a) username) accounts

abbrev pub is_locked : ℕ → Account → Bool
is_locked now a = elim a.locked_until [ none ↦ false | some t ↦ ltb now t ]

abbrev pub in_validity : ℕ → Account → Bool
in_validity now a =
    (elim a.valid_from [ none ↦ true | some t ↦ leb t now ])
    && (elim a.valid_until [ none ↦ true | some t ↦ ltb now t ])

-- The two updates of the account.
abbrev pub count_failure : ℕ → Account → Account
count_failure now a =
    let failed = a.failed_login_count + 1 in
    record a {
      failed_login_count = if leb 5 failed then 0 else failed;
      locked_until = if leb 5 failed then some (now + lock_ms) else none;
    }

abbrev pub reset_failures : Account → Account
reset_failures a = record a { failed_login_count = 0; locked_until = none }

abbrev pub same_account : Account → Account → Bool
same_account a b = str_eq b.id a.id

-- `activityTouchDue`
unfoldable pub activity_touch_due : ℕ → ℕ → Option ℕ → Bool
activity_touch_due interval now none = true
activity_touch_due interval now (some t) = leb (t + interval) now

abbrev pub opt_is : Option String → String → Bool
opt_is none text = false
opt_is (some t) text = str_eq t text

-- `verify` is `verifyPassword` on an encoded password, `totp` is `verifyTotp`, and `hash` the
-- digest of a token.
module _ (verify : String → String → Bool) (totp : String → String → Bool)
    (hash : String → String) where
  abbrev pub is_verified : String → Option String → Bool
  is_verified password none = false
  is_verified password (some encoded) = verify password encoded

  -- `valid`, for an account that is there.
  abbrev pub is_valid : ℕ → String → Account → Bool
  is_valid now password a =
      a.is_local && (a.active && (in_validity now a && is_verified password a.password_hash))

  abbrev pub passes_mfa : Option String → Account → Bool
  passes_mfa code a =
      if a.mfa_enabled
      then (elim (truthy code) [
        | none ↦ false
        | some c ↦ totp (elim a.mfa_secret [ none ↦ "" | some x ↦ x ]) c
      ])
      else true

  abbrev pub fail_login : ℕ → Account → AuthStore → AuthStore × LoginResult
  fail_login now a s = (
    if a.is_local
        then record s { accounts = update_where (same_account a) (count_failure now) s.accounts }
        else s,
    invalid_credentials,
  )

  abbrev pub open_session : ℕ → String → Account → AuthStore → AuthStore × LoginResult
  open_session now token a s = (
    record s {
      accounts = update_where (same_account a) reset_failures s.accounts;
      admin_sessions =
          record {
            token_hash = hash token;
            admin_account_id = a.id;
            expires_at = now + session_ms;
            last_used_at = none;
          }
          ∷ s.admin_sessions;
    },
    authenticated a.mfa_enabled,
  )

  -- `login`
  unfoldable pub login :
      ℕ → String → String → String → Option String → AuthStore → AuthStore × LoginResult
  login now token username password code s = elim (find_account username s.accounts) [
    | none ↦ (s, invalid_credentials)
    | some a ↦
        if is_locked now a
        then (s, locked)
        else if not (is_valid now password a)
        then fail_login now a s
        else if not (passes_mfa code a)
        then (s, mfa_required)
        else open_session now token a s
  ]

  abbrev pub groups_of : Account → List String
  groups_of a =
      if a.is_moderator_role then "ISMS-MODERATOR-MANAGE" ∷ [] else "ISMS-LOCAL-ADMINS" ∷ []

  abbrev pub find_session : String → AuthStore → Option AdminSession
  find_session token s =
      find (λ x. str_eq (AdminSession.token_hash x) (hash token)) s.admin_sessions

  abbrev pub find_owner : AdminSession → AuthStore → Option Account
  find_owner x s = find (λ a. str_eq (Account.id a) x.admin_account_id) s.accounts

  abbrev touch_session : ℕ → ℕ → AdminSession → List AdminSession → List AdminSession
  touch_session interval now x sessions =
      if activity_touch_due interval now x.last_used_at
      then update_where (λ y. str_eq (AdminSession.token_hash y) x.token_hash)
          (λ y. record y { last_used_at = some now }) sessions
      else sessions

  abbrev touch_account : ℕ → ℕ → Account → List Account → List Account
  touch_account interval now a accounts =
      if activity_touch_due interval now a.last_authorized_at
      then update_where (same_account a) (λ b. record b { last_authorized_at = some now }) accounts
      else accounts

  abbrev pub session_of : ℕ → ℕ → AdminSession → Account → AuthStore → AuthStore × Option Identity
  session_of interval now x a s =
      if ltb now x.expires_at && (a.active && in_validity now a)
      then (
        record s {
          admin_sessions = touch_session interval now x s.admin_sessions;
          accounts = touch_account interval now a s.accounts;
        },
        some (record {
          username = a.username;
          groups = groups_of a;
          session_expires_at = x.expires_at;
        }),
      )
      else (s, none)

  -- `adminSessionIdentity`; a session has its account, since the database cascades.
  unfoldable pub admin_session_identity :
      ℕ → ℕ → Option String → AuthStore → AuthStore × Option Identity
  admin_session_identity interval now cookie s = elim (truthy cookie) [
    | none ↦ (s, none)
    | some token ↦ elim (find_session token s) [
      | none ↦ (s, none)
      | some x ↦ elim (find_owner x s) [ none ↦ (s, none) | some a ↦ session_of interval now x a s ]
    ]
  ]

  abbrev pub drop_admin : Option String → Option String → List AdminSession → List AdminSession
  drop_admin cookie scope sessions = elim (truthy cookie) [
    | none ↦ sessions
    | some token ↦
        if opt_is scope "user"
        then sessions
        else filter (λ x. not (str_eq (AdminSession.token_hash x) (hash token))) sessions
  ]

  abbrev pub drop_user : Option String → Option String → List UserSession → List UserSession
  drop_user cookie scope sessions = elim (truthy cookie) [
    | none ↦ sessions
    | some token ↦
        if opt_is scope "admin"
        then sessions
        else filter (λ x. not (str_eq (UserSession.token_hash x) (hash token))) sessions
  ]

  -- `logout`, with the two cookies and the scope.
  unfoldable pub logout : Option String → Option String → Option String → AuthStore → AuthStore
  logout admin_cookie user_cookie scope s = record s {
    admin_sessions = drop_admin admin_cookie scope s.admin_sessions;
    user_sessions = drop_user user_cookie scope s.user_sessions;
  }
