-- ===== src/Auth/Session.antt =====
-- The sessions of administrators, from the sign-in to the sign-out.
use isms_portal.Base.{
  ℕ, ◌+◌, String, ◌≡◌, refl, inl, inr, Bool, false, not, ◌&&◌, Option, none, some, List, [], ◌∷◌,
  map, arith, ltb, str_eq, if◌then◌else◌, Bool-cases, Option-cases, str_eq_self, filter, find,
  Distinct, mem_of_find, unique_of_mem, find-update_where, find_of_mem,
}
use isms_portal.Auth.{
  Account, AdminSession, AuthStore, authenticated, find_account, reset_failures, same_account,
  in_validity, session_ms, login, groups_of, admin_session_identity, logout, opt_is, open_session,
}

find-filter : {A : Type 0} (p : A → Bool) (xs : List A) → find p (filter (λ x. not (p x)) xs) ≡ none
find-filter p [] = refl
find-filter p (x ∷ xs) = elim (Bool-cases (p x)) [
  | inl e ↦ ground (arith, find-filter p xs)
  | inr e ↦ ground (arith, find-filter p xs)
]

module _ (verify : String → String → Bool) (totp : String → String → Bool)
    (hash : String → String) where
  -- After `logout` with the cookie of a session, unless only the users' session was meant, this
  -- cookie gives no identity.
  pub logout_ends :
      (interval now : ℕ) (token : String) (user_cookie scope : Option String) (s : AuthStore)
      → opt_is scope "user" ≡ false
      → (admin_session_identity verify totp hash interval now
          (some token)
          (logout verify totp hash (some token) user_cookie scope s)).1
        ≡ none
  unfolding admin_session_identity logout
  logout_ends interval now token user_cookie scope s h = elim (Bool-cases (str_eq token "")) [
    | inl empty ↦ ground arith
    | inr full ↦
        ground (
          arith,
          find-filter (λ x. str_eq (AdminSession.token_hash x) (hash token)) s.admin_sessions,
        )
  ]

  -- After a login that goes through, the cookie gives the account's name and its groups for eight
  -- hours, as long as the account is valid, and nothing else. Each identifier of an account may
  -- occur once, and the token is not the empty text.
  pub login_session :
      (interval now t : ℕ) (token username password : String) (code : Option String) (s : AuthStore)
      (m : Bool)
      → Distinct (map Account.id s.accounts)
      → str_eq token "" ≡ false
      → (login verify totp hash now token username password code s).1 ≡ authenticated m
      → (a : Account) × (find_account username s.accounts ≡ some a)
        × ((admin_session_identity verify totp hash interval t
              (some token)
              (login verify totp hash now token username password code s).0).1
            ≡ (if ltb t (now + session_ms) && (a.active && in_validity t a)
                then some (record {
                  username = a.username;
                  groups = groups_of verify totp hash a;
                  session_expires_at = now + session_ms;
                })
                else none))
  unfolding login admin_session_identity
  login_session interval now t token username password code s m distinct nonempty done =
      elim (Option-cases (find_account username s.accounts)) [
        | inl missing ↦ absurd (ground arith)
        | inr (a, found) ↦
            let mem = mem_of_find (λ b. str_eq (Account.username b) username) s.accounts a found in
            let owner =
              find-update_where (λ b. str_eq (Account.id b) a.id) (same_account a) reset_failures
                s.accounts a (λ b. refl)
                (find_of_mem (λ b. str_eq (Account.id b) a.id) s.accounts a mem (str_eq_self a.id)
                  (unique_of_mem Account.id s.accounts a distinct mem))
                (str_eq_self a.id) in
            let opened : (login verify totp hash now token username password code s).0
                ≡ (open_session verify totp hash now token a s).0 =
              ground arith in
            (a, found, rw opened (ground (arith, owner, str_eq_self (hash token))))
      ]
