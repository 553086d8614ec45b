-- ===== src/Mailbox/Transparent.antt =====
-- The cache of apps/api/src/sso-mailbox-policy.ts against the policy without one.
use isms_portal.Base.{
  ℕ, String, ◌≡◌, refl, ap, ◌∙◌, inl, inr, Bool, not, Option, none, some, List, ◌==◌, if◌then◌else◌,
  Bool-cases, length, All_of_mem,
}
use mathlib.Core.Path.{subst}
use isms_portal.Mailbox.{Directory, Settings, CachedAnswer, MailboxOutcome, unavailable, is_text}
use isms_portal.Mailbox.Cached.{
  request, belongs, verdict, checked, ask_cases, request_cases, request_off,
}
use isms_portal.Mailbox.Confirmed.{Reach, Reach-IsConfirmed, known_entry}

module _ (normal lower : String → String) (is_uuid : String → Bool)
    (domains_of : String → List String) (domain_of : String → Option String)
    (directory : Directory) where
  abbrev says : String → Option Bool
  says mail = checked normal lower is_uuid domains_of domain_of directory mail

  -- The policy as it is meant: the answer of the directory, asked each time.
  abbrev pub plain_policy : Settings → String → MailboxOutcome
  plain_policy settings username =
      if not (is_text settings.enabled "true")
      then MailboxOutcome.let_in
      else if length (domains_of settings.allowed_domains) == 0
      then unavailable
      else if not (belongs normal lower is_uuid domains_of domain_of settings username)
      then MailboxOutcome.forbidden
      else elim (says (normal username)) [
        | none ↦ unavailable
        | some allowed ↦ verdict normal lower is_uuid domains_of domain_of allowed
      ]

  -- As long as the directory says the same, every request, after any others, each not before the
  -- one before it, ends as the policy without a cache says.
  pub request-plain_policy :
      (cache : List CachedAnswer) (clock now : ℕ) (settings : Settings) (username : String)
      → Reach normal lower is_uuid domains_of domain_of (λ t. directory) cache clock
      → (request normal lower is_uuid domains_of domain_of now settings directory username cache).1
        ≡ plain_policy settings username
  request-plain_policy cache clock now settings username r =
      elim (Bool-cases (is_text settings.enabled "true")) [
        | inr off ↦
            rw
              (
                request_off normal lower is_uuid domains_of domain_of now settings directory
                    username cache off,
                off,
              )
              refl
        | inl on ↦
            elim (request_cases normal lower is_uuid domains_of domain_of now settings directory
              username cache on) [
                | inl (none_set, same) ↦ rw (same, on, none_set) refl
                | inr (inl (some_set, outside, same)) ↦ rw (same, on, some_set, outside) refl
                | inr (inr (some_set, inside, inl (b, known, same))) ↦
                    let (c, m, named, said, live) =
                      known_entry normal lower is_uuid domains_of domain_of (λ t. directory) now
                        (normal username) cache b known in
                    let (t, before, was, short) =
                      All_of_mem _ cache c
                        (Reach-IsConfirmed normal lower is_uuid domains_of domain_of
                          (λ t. directory) r)
                        m in
                    let told : says (normal username) ≡ some b =
                      subst (λ w. says w ≡ some b) named (was ∙ ap some said) in
                    rw (same, on, some_set, inside, told) refl
                | inr (inr (some_set, inside, inr (unknown, same))) ↦
                    elim (ask_cases normal lower is_uuid domains_of domain_of now directory
                      (normal username) cache) [
                        | inl (failed, asked) ↦ rw (same, asked, on, some_set, inside, failed) refl
                        | inr (b, answered, asked) ↦
                            rw (same, asked, on, some_set, inside, answered) refl
                      ]
              ]
      ]
