-- ===== src/Mailbox/Cached.antt =====
-- The branches of `assertAllowed` of apps/api/src/sso-mailbox-policy.ts, and the size of its cache.
use isms_portal.Base.{
  ℕ, ◌+◌, ◌≤◌, String, ◌≡◌, refl, ◌⊎◌, inl, inr, Bool, true, false, not, Option, none, some, List,
  [], ◌∷◌, arith, leb, ◌==◌, str_eq, if◌then◌else◌, Bool-cases, Option-cases, length, filter,
  length-append,
}
use isms_portal.Mailbox.{
  Directory, Settings, CachedAnswer, MailboxOutcome, let_in, forbidden, unavailable, is_text,
  check_mailbox, evict, remember, outcome_of, fresh_answer, ask_directory, in_domains,
  assert_allowed,
}

module _ (normal lower : String → String) (is_uuid : String → Bool)
    (domains_of : String → List String) (domain_of : String → Option String) where
  abbrev pub request :
      ℕ → Settings → Directory → String → List CachedAnswer → List CachedAnswer × MailboxOutcome
  request now settings directory username cache =
      assert_allowed normal lower is_uuid domains_of domain_of now settings directory username cache

  abbrev pub ask : ℕ → Directory → String → List CachedAnswer → List CachedAnswer × MailboxOutcome
  ask now directory mail cache =
      ask_directory normal lower is_uuid domains_of domain_of now directory mail cache

  abbrev pub belongs : Settings → String → Bool
  belongs settings username =
      in_domains normal lower is_uuid domains_of domain_of (normal username)
        (domains_of settings.allowed_domains)

  abbrev pub still_known : ℕ → String → List CachedAnswer → Option Bool
  still_known now mail cache = fresh_answer normal lower is_uuid domains_of domain_of now mail cache

  abbrev pub verdict : Bool → MailboxOutcome
  verdict b = outcome_of normal lower is_uuid domains_of domain_of b

  pub request_cases :
      (now : ℕ) (settings : Settings) (directory : Directory) (username : String)
      (cache : List CachedAnswer)
      → is_text settings.enabled "true" ≡ true
      → ((length (domains_of settings.allowed_domains) ≡ 0)
          × (request now settings directory username cache ≡ (cache, unavailable)))
        ⊎ (((length (domains_of settings.allowed_domains) == 0 ≡ false)
              × (belongs settings username ≡ false)
              × (request now settings directory username cache ≡ (cache, forbidden)))
            ⊎ ((length (domains_of settings.allowed_domains) == 0 ≡ false)
                × (belongs settings username ≡ true)
                × (((b : Bool) × (still_known now (normal username) cache ≡ some b)
                      × (request now settings directory username cache ≡ (cache, verdict b)))
                    ⊎ ((still_known now (normal username) cache ≡ none)
                        × (request now settings directory username cache
                            ≡ ask now directory (normal username) cache)))))
  unfolding assert_allowed
  request_cases now settings directory username cache on =
      elim (Bool-cases (length (domains_of settings.allowed_domains) == 0)) [
        | inl t ↦ inl (ground arith, rw (assert_allowed, on, t) refl)
        | inr t ↦ elim (Bool-cases (belongs settings username)) [
          | inr u ↦ inr (inl (t, u, rw (assert_allowed, on, t, u) refl))
          | inl u ↦ elim (Option-cases (still_known now (normal username) cache)) [
            | inr (b, v) ↦ inr (inr (t, u, inl (b, v, rw (assert_allowed, on, t, u, v) refl)))
            | inl v ↦ inr (inr (t, u, inr (v, rw (assert_allowed, on, t, u, v) refl)))
          ]
        ]
      ]

  pub request_off :
      (now : ℕ) (settings : Settings) (directory : Directory) (username : String)
      (cache : List CachedAnswer)
      → is_text settings.enabled "true" ≡ false
      → request now settings directory username cache ≡ (cache, let_in)
  unfolding assert_allowed
  request_off now settings directory username cache off = rw (assert_allowed, off) refl

  evict_room :
      (cs : List CachedAnswer)
      → length (evict normal lower is_uuid domains_of domain_of cs) + 1 ≤ 10000
  evict_room [] = ground arith
  evict_room (c ∷ cs) = elim (Bool-cases (leb 10000 (length (c ∷ cs)))) [
    | inl t ↦ rw t (evict_room cs)
    | inr t ↦ rw t (ground arith)
  ]

  remember-length :
      (now : ℕ) (mail : String) (result : Bool) (cache : List CachedAnswer)
      → length (remember normal lower is_uuid domains_of domain_of now mail result cache) ≤ 10000
  remember-length now mail result cache =
      let kept = filter (λ c. not (str_eq (CachedAnswer.mail c) mail)) cache in
      let room = evict_room kept in
      let sum = length-append (evict normal lower is_uuid domains_of domain_of kept) (
        record { mail = mail; allowed = result; until = now + (if result then 60000 else 15000) }
        ∷ []) in
      ground arith

  abbrev pub checked : Directory → String → Option Bool
  checked directory mail = check_mailbox normal lower is_uuid domains_of domain_of directory mail

  pub ask_cases :
      (now : ℕ) (directory : Directory) (mail : String) (cache : List CachedAnswer)
      → ((checked directory mail ≡ none) × (ask now directory mail cache ≡ (cache, unavailable)))
        ⊎ ((b : Bool) × (checked directory mail ≡ some b)
            × (ask now directory mail cache
                ≡ (remember normal lower is_uuid domains_of domain_of now mail b cache, verdict b)))
  ask_cases now directory mail cache = elim (Option-cases (checked directory mail)) [
    | inl t ↦ inl (t, rw (ask_directory, t) refl)
    | inr (b, t) ↦ inr (b, t, rw (ask_directory, t) refl)
  ]

  pub request-length :
      (now : ℕ) (settings : Settings) (directory : Directory) (username : String)
      (cache : List CachedAnswer)
      → length cache ≤ 10000
      → length (request now settings directory username cache).0 ≤ 10000
  request-length now settings directory username cache few =
      elim (Bool-cases (is_text settings.enabled "true")) [
        | inr off ↦ rw (request_off now settings directory username cache off) few
        | inl on ↦ elim (request_cases now settings directory username cache on) [
          | inl (none_set, same) ↦ rw same few
          | inr (inl (some_set, outside, same)) ↦ rw same few
          | inr (inr (some_set, inside, inl (b, known, same))) ↦ rw same few
          | inr (inr (some_set, inside, inr (unknown, same))) ↦
              elim (ask_cases now directory (normal username) cache) [
                | inl (failed, asked) ↦ rw (same, asked) few
                | inr (b, answered, asked) ↦
                    rw (same, asked) (remember-length now (normal username) b cache)
              ]
        ]
      ]
