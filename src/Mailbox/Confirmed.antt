-- ===== src/Mailbox/Confirmed.antt =====
-- Who is let in by apps/api/src/sso-mailbox-policy.ts over time, where the directory may change.
use isms_portal.Base.{
  ℕ, ◌+◌, ◌≤◌, ◌<◌, String, ◌≡◌, refl, ap, ◌∙◌, inl, inr, Bool, true, false, not, Option, some,
  List, [], ◌∷◌, ◌++◌, Memᴰ, arith, ltb, leb, str_eq, if◌then◌else◌, Bool-cases, Option-cases,
  str_eq_iff, length, filter, All, find_sound, All_of_mem, All-mono, mem_of_find,
}
use mathlib.Core.Path.{subst}
use isms_portal.Mailbox.{
  Directory, Settings, CachedAnswer, MailboxOutcome, let_in, is_text, find_cached, evict,
}
use isms_portal.Mailbox.Cached.{
  request, belongs, still_known, verdict, checked, ask_cases, request_cases, request_off,
  request-length,
}

module _ {ℓ} (P : CachedAnswer → Type ℓ) where
  All-filter : (q : CachedAnswer → Bool) (xs : List CachedAnswer) → All P xs → All P (filter q xs)
  All-filter q [] h = tt
  All-filter q (x ∷ xs) (h, hs) = elim (Bool-cases (q x)) [
    | inl t ↦ rw t (h, All-filter q xs hs)
    | inr t ↦ rw t (All-filter q xs hs)
  ]

  All-append : (xs ys : List CachedAnswer) → All P xs → All P ys → All P (xs ++ ys)
  All-append [] ys h k = k
  All-append (x ∷ xs) ys (h, hs) k = (h, All-append xs ys hs k)

module _ (normal lower : String → String) (is_uuid : String → Bool)
    (domains_of : String → List String) (domain_of : String → Option String)
    (directory : ℕ → Directory) where
  abbrev answer : ℕ → String → Option Bool
  answer t mail = checked normal lower is_uuid domains_of domain_of (directory t) mail

  abbrev step : ℕ → Settings → String → List CachedAnswer → List CachedAnswer × MailboxOutcome
  step now settings username cache =
      request normal lower is_uuid domains_of domain_of now settings (directory now) username cache

  -- Requests one after the other, each not before the one before it.
  pub data Reach : List CachedAnswer → ℕ → Type 0 where
    start : (clock : ℕ) → Reach [] clock
    next :
        (now : ℕ) (settings : Settings) (username : String) {cache : List CachedAnswer} {clock : ℕ}
        → Reach cache clock
        → clock ≤ now
        → Reach (step now settings username cache).0 now

  abbrev IsConfirmed : ℕ → CachedAnswer → Type 0
  IsConfirmed clock c =
      (t : ℕ) × (t ≤ clock) × (answer t c.mail ≡ some c.allowed) × (c.until ≤ t + 60000)

  All-evict :
      (clock : ℕ) (cs : List CachedAnswer)
      → All (IsConfirmed clock) cs
      → All (IsConfirmed clock) (evict normal lower is_uuid domains_of domain_of cs)
  All-evict clock [] h = tt
  All-evict clock (c ∷ cs) (h, hs) = elim (Bool-cases (leb 10000 (length (c ∷ cs)))) [
    | inl t ↦ rw t (All-evict clock cs hs)
    | inr t ↦ rw t (h, hs)
  ]

  short_time : (now : ℕ) (b : Bool) → now + (if b then 60000 else 15000) ≤ now + 60000
  short_time now true = ground arith
  short_time now false = ground arith

  request-IsConfirmed :
      (now : ℕ) (settings : Settings) (username : String) (cache : List CachedAnswer)
      → All (IsConfirmed now) cache
      → All (IsConfirmed now) (step now settings username cache).0
  request-IsConfirmed now settings username cache h =
      elim (Bool-cases (is_text settings.enabled "true")) [
        | inr off ↦
            rw
              (request_off normal lower is_uuid domains_of domain_of now settings (directory now)
                username cache off)
              h
        | inl on ↦
            elim (request_cases normal lower is_uuid domains_of domain_of now settings
              (directory now) username cache on) [
                | inl (none_set, same) ↦ rw same h
                | inr (inl (some_set, outside, same)) ↦ rw same h
                | inr (inr (some_set, inside, inl (b, known, same))) ↦ rw same h
                | inr (inr (some_set, inside, inr (unknown, same))) ↦
                    elim (ask_cases normal lower is_uuid domains_of domain_of now (directory now)
                      (normal username) cache) [
                        | inl (failed, asked) ↦ rw (same, asked) h
                        | inr (b, answered, asked) ↦
                            rw (same, asked)
                              (All-append (IsConfirmed now) _ _
                                (All-evict now _ (
                                  All-filter (IsConfirmed now)
                                    (λ c. not (str_eq (CachedAnswer.mail c) (normal username)))
                                    cache h))
                                ((now, ground arith, answered, short_time now b), tt))
                      ]
              ]
      ]

  pub Reach-IsConfirmed :
      {cache : List CachedAnswer} {clock : ℕ} → Reach cache clock → All (IsConfirmed clock) cache
  Reach-IsConfirmed (start clock) = tt
  Reach-IsConfirmed (next now settings username {cache} {clock} r after) =
      request-IsConfirmed now settings username cache (
        All-mono (IsConfirmed clock) (IsConfirmed now) cache
          (λ c (t, before, said, short). (t, ground arith, said, short)) (Reach-IsConfirmed r))

  -- However many requests there are, the cache has at most ten thousand entries.
  pub cache_bounded :
      (cache : List CachedAnswer) (clock : ℕ) → Reach cache clock → length cache ≤ 10000
  cache_bounded cache clock r = go r
    where
      go : {cache : List CachedAnswer} {clock : ℕ} → Reach cache clock → length cache ≤ 10000
      go (start clock) = ground arith
      go (next now settings username {cache} {clock} r after) =
          request-length normal lower is_uuid domains_of domain_of now settings (directory now)
            username cache (go r)

  verdict_in : (b : Bool) → verdict normal lower is_uuid domains_of domain_of b ≡ let_in → b ≡ true
  verdict_in true e = refl
  verdict_in false e = absurd (ground arith)

  pub known_entry :
      (now : ℕ) (mail : String) (cache : List CachedAnswer) (b : Bool)
      → still_known normal lower is_uuid domains_of domain_of now mail cache ≡ some b
      → (c : CachedAnswer) × Memᴰ c cache × (c.mail ≡ mail) × (c.allowed ≡ b) × (now < c.until)
  known_entry now mail cache b h =
      elim (Option-cases (find_cached normal lower is_uuid domains_of domain_of mail cache)) [
        | inl t ↦ absurd (ground arith)
        | inr (c, t) ↦ elim (Bool-cases (ltb now c.until)) [
          | inr u ↦ absurd (ground arith)
          | inl u ↦ (
            c,
            mem_of_find _ cache c t,
            (str_eq_iff c.mail mail).0 (find_sound _ cache c t),
            ground arith,
            ground arith,
          )
        ]
      ]

  -- After any requests, with the policy on: who is let in has a mailbox in one of the domains, and
  -- the directory has said so of this mailbox less than a minute ago at most, at this request or
  -- at an earlier time; every request is answered after the one before it.
  pub let_in_confirmed :
      (cache : List CachedAnswer) (clock now : ℕ) (settings : Settings) (username : String)
      → Reach cache clock
      → clock ≤ now
      → is_text settings.enabled "true" ≡ true
      → (step now settings username cache).1 ≡ let_in
      → (belongs normal lower is_uuid domains_of domain_of settings username ≡ true)
        × ((t : ℕ) × (t ≤ now) × (now < t + 60000) × (answer t (normal username) ≡ some true))
  let_in_confirmed cache clock now settings username r after on ok =
      elim (request_cases normal lower is_uuid domains_of domain_of now settings (directory now)
        username cache on) [
          | inl (none_set, same) ↦ absurd (ground arith)
          | inr (inl (some_set, outside, same)) ↦ absurd (ground arith)
          | inr (inr (some_set, inside, inl (b, known, same))) ↦
              let yes : b ≡ true = verdict_in b (rw same at ok) in
              let (c, m, named, said, live) = known_entry now (normal username) cache b known in
              let (t, before, was, short) =
                All_of_mem (IsConfirmed clock) cache c (Reach-IsConfirmed r) m in
              (
                inside,
                (
                  t,
                  ground arith,
                  ground arith,
                  subst (λ w. answer t w ≡ some true) named (was ∙ ap some (said ∙ yes)),
                ),
              )
          | inr (inr (some_set, inside, inr (unknown, same))) ↦
              elim (ask_cases normal lower is_uuid domains_of domain_of now (directory now)
                (normal username) cache) [
                  | inl (failed, asked) ↦ absurd (ground arith)
                  | inr (b, answered, asked) ↦
                      let yes : b ≡ true = verdict_in b (rw asked at (rw same at ok)) in
                      (inside, (now, ground arith, ground arith, answered ∙ ap some yes))
                ]
        ]
