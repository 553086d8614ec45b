-- ===== src/Auth/Lockout.antt =====
-- The failures that `login` counts.
use isms_portal.Base.{
  ℕ, ◌+◌, ◌≤◌, ◌<◌, String, ◌≡◌, refl, Bool, true, false, Option, none, some, List, [], ◌∷◌, arith,
  leb, str_eq, str_eq_self, length, update_where, All, find-update_where,
}
use isms_portal.Auth.{
  Account, AuthStore, locked, lock_ms, find_account, is_locked, count_failure, same_account,
  is_verified, is_valid, login,
}

unlocked_of_free : (now : ℕ) (a : Account) → a.locked_until ≡ none → is_locked now a ≡ false
unlocked_of_free now a free = rw free refl

locked_of_full :
    (last now : ℕ) (a : Account)
    → 4 ≤ a.failed_login_count
    → now < last + lock_ms
    → is_locked now (count_failure last a) ≡ true
locked_of_full last now a h soon =
    let full : leb 5 (a.failed_login_count + 1) ≡ true = ground arith in rw full (ground arith)

module _ (verify : String → String → Bool) (totp : String → String → Bool) (hash : String → String)
    (token username : String) where
  login_failure :
      (now : ℕ) (password : String) (code : Option String) (s : AuthStore) (a : Account)
      → find_account username s.accounts ≡ some a
      → a.is_local ≡ true
      → is_locked now a ≡ false
      → is_verified verify totp hash password a.password_hash ≡ false
      → find_account username (login verify totp hash now token username password code s).0.accounts
        ≡ some (count_failure now a)
  unfolding login
  login_failure now password code s a found own unlocked wrong =
      let refused : is_valid verify totp hash now password a ≡ false = ground arith in
      let accounts : (login verify totp hash now token username password code s).0.accounts
          ≡ update_where (same_account a) (count_failure now) s.accounts =
        ground arith in
      rw accounts (
        find-update_where (λ b. str_eq (Account.username b) username) (same_account a)
          (count_failure now) s.accounts a (λ b. refl) found (str_eq_self a.id))

  -- Attempts in a row, each with its time and its password.
  abbrev pub attempts : List (ℕ × String) → AuthStore → AuthStore
  attempts [] s = s
  attempts ((now, password) ∷ tries) s =
      attempts tries (login verify totp hash now token username password none s).0

  -- An account that nothing locks, with its failures so far.
  abbrev IsOpen : ℕ → Option String → Account → Type 0
  IsOpen n encoded a =
      (a.is_local ≡ true)
      × (a.locked_until ≡ none)
      × (a.password_hash ≡ encoded)
      × (a.failed_login_count ≡ n)

  attempts_count :
      (tries : List (ℕ × String)) (s : AuthStore) (a : Account) (n : ℕ) (encoded : Option String)
      → find_account username s.accounts ≡ some a
      → IsOpen n encoded a
      → n + length tries < 5
      → All (λ t. is_verified verify totp hash t.1 encoded ≡ false) tries
      → (b : Account) × (find_account username (attempts tries s).accounts ≡ some b)
        × IsOpen (n + length tries) encoded b
  attempts_count [] s a n encoded found (own, free, same, count) h k =
      (a, found, (own, free, same, omega (arith, count)))
  attempts_count ((t, password) ∷ tries) s a n encoded found (own, free, same, count) h (k, ks) =
      let unlocked : is_locked t a ≡ false = rw free refl in
      let wrong : is_verified verify totp hash password a.password_hash ≡ false = rw same k in
      let failed = login_failure t password none s a found own unlocked wrong in
      let few : leb 5 (a.failed_login_count + 1) ≡ false = ground (arith, count) in
      let (b, found', (own', free', same', count')) =
        attempts_count tries (login verify totp hash t token username password none s).0
          (count_failure t a) (n + 1) encoded failed
          (own, rw few refl, same, rw few (omega (arith, count))) (omega arith) ks in
      (b, found', (own', free', same', omega (arith, count')))

  locked_answer :
      (now : ℕ) (password : String) (code : Option String) (s : AuthStore) (a : Account)
      → find_account username s.accounts ≡ some a
      → is_locked now a ≡ true
      → (login verify totp hash now token username password code s).1 ≡ locked
  unfolding login
  locked_answer now password code s a found shut = ground arith

  -- Five attempts with wrong passwords, counted with the failures before them, lock a local account
  -- that was not locked: for a quarter of an hour after the last of them no password opens it.
  pub five_failures_lock :
      (tries : List (ℕ × String)) (last now : ℕ) (wrong password : String) (code : Option String)
      (s : AuthStore) (a : Account)
      → find_account username s.accounts ≡ some a
      → a.is_local ≡ true
      → a.locked_until ≡ none
      → a.failed_login_count + length tries ≡ 4
      → All (λ t. is_verified verify totp hash t.1 a.password_hash ≡ false) tries
      → is_verified verify totp hash wrong a.password_hash ≡ false
      → now < last + lock_ms
      → (login verify totp hash now token username password code
          (login verify totp hash last token username wrong none (attempts tries s)).0).1
        ≡ locked
  five_failures_lock tries last now wrong password code s a found own free count ks k soon =
      let (b, found', (own', free', same', count')) =
        attempts_count tries s a a.failed_login_count a.password_hash found (own, free, refl, refl)
          (omega arith) ks in
      let unlocked = unlocked_of_free last b free' in
      let failed =
        login_failure last wrong none (attempts tries s) b found' own' unlocked (rw same' k) in
      let shut = locked_of_full last now b (omega (arith, count', count)) soon in
      locked_answer now password code
        (login verify totp hash last token username wrong none (attempts tries s)).0
        (count_failure last b) failed shut
