-- ===== src/Mailbox.antt =====
-- The policy of mailboxes of the single sign-on: `assertAllowed` and `check` of
-- apps/api/src/sso-mailbox-policy.ts, for requests one after the other, so that the map of the
-- requests under way is empty at each, and the error of more than 128 of them ("Mailbox policy is
-- busy") does not come up. The directory is a parameter: what it answers to the two
-- queries, where nothing stands for an exception or an answer that is not `ok`. `normal` is `trim`
-- and `toLowerCase`, `lower` is `toLowerCase`, `is_uuid` the regular expression for identifiers,
-- `domains_of` the list of the domains in the environment, and `domain_of` the domain of a name
-- that has the form of a mailbox.
pub mod Cached
pub mod Confirmed
pub mod Transparent
use isms_portal.Base.{
  ℕ, ◌+◌, String, Bool, true, false, not, ◌&&◌, Option, none, some, List, [], ◌∷◌, ◌++◌, map, ltb,
  leb, ◌==◌, str_eq, if◌then◌else◌, length, filter, find, includes,
}

-- A user in the answer of the directory.
pub record DirectoryUser : Type 0 where
  pub id : Option String
  pub mail : Option String
  pub account_enabled : Option Bool
  pub user_type : Option String

-- `value` and whether there is `@odata.nextLink`.
pub record UsersAnswer : Type 0 where
  pub value : Option (List DirectoryUser)
  pub has_next : Bool

pub data MailboxAnswer : Type 0 where
  missing failed : MailboxAnswer
  purpose : Option String → MailboxAnswer

pub record Directory : Type 0 where
  pub users : String → Option UsersAnswer
  pub mailbox : String → MailboxAnswer

pub record Settings : Type 0 where
  pub enabled : Option String
  pub allowed_domains : String

-- An entry of `cache`; the list has the order of the insertions.
pub record CachedAnswer : Type 0 where
  pub mail : String
  pub allowed : Bool
  pub until : ℕ

pub data MailboxOutcome : Type 0 where
  let_in forbidden unavailable : MailboxOutcome

abbrev pub is_text : Option String → String → Bool
is_text none text = false
is_text (some x) text = str_eq x text

abbrev pub is_on : Option Bool → Bool
is_on (some true) = true
is_on _ = false

abbrev pub only_user : UsersAnswer → Option DirectoryUser
only_user answer = if answer.has_next then none else elim answer.value [
  | none ↦ none
  | some users ↦ elim users [
    | [] ↦ none
    | user ∷ (rest → ih) ↦ if length rest == 0 then some user else none
  ]
]

abbrev pub purpose_of : MailboxAnswer → Option Bool
purpose_of missing = some false
purpose_of failed = none
purpose_of (purpose value) = some (is_text value "user")

module _ (normal lower : String → String) (is_uuid : String → Bool)
    (domains_of : String → List String) (domain_of : String → Option String) where
  abbrev pub is_member : String → DirectoryUser → Bool
  is_member mail user =
      (elim user.id [ none ↦ false | some id ↦ is_uuid id ])
      && ((elim user.mail [ none ↦ false | some x ↦ str_eq (lower x) mail ])
          && (is_on user.account_enabled && is_text user.user_type "Member"))

  abbrev pub check_user : Directory → String → Option DirectoryUser → Option Bool
  check_user directory mail none = some false
  check_user directory mail (some user) =
      if not (is_member mail user)
      then some false
      else elim user.id [ none ↦ some false | some id ↦ purpose_of (directory.mailbox id) ]

  -- `check`
  unfoldable pub check_mailbox : Directory → String → Option Bool
  check_mailbox directory mail = elim (directory.users mail) [
    | none ↦ none
    | some answer ↦ check_user directory mail (only_user answer)
  ]

  abbrev pub find_cached : String → List CachedAnswer → Option CachedAnswer
  find_cached mail cache = find (λ c. str_eq (CachedAnswer.mail c) mail) cache

  -- The loop that makes room for one more.
  abbrev pub evict : List CachedAnswer → List CachedAnswer
  evict [] = []
  evict (c ∷ cs) = let rest = evict cs in if leb 10000 (length (c ∷ cs)) then rest else c ∷ cs

  abbrev pub remember : ℕ → String → Bool → List CachedAnswer → List CachedAnswer
  remember now mail result cache =
      evict (filter (λ c. not (str_eq (CachedAnswer.mail c) mail)) cache)
      ++ record { mail = mail; allowed = result; until = now + (if result then 60000 else 15000) }
        ∷ []

  abbrev pub outcome_of : Bool → MailboxOutcome
  outcome_of allowed = if allowed then let_in else forbidden

  -- The answer of the cache that still holds.
  abbrev pub fresh_answer : ℕ → String → List CachedAnswer → Option Bool
  fresh_answer now mail cache = elim (find_cached mail cache) [
    | none ↦ none
    | some c ↦ if ltb now c.until then some c.allowed else none
  ]

  abbrev pub ask_directory :
      ℕ → Directory → String → List CachedAnswer → List CachedAnswer × MailboxOutcome
  ask_directory now directory mail cache = elim (check_mailbox directory mail) [
    | none ↦ (cache, unavailable)
    | some result ↦ (remember now mail result cache, outcome_of result)
  ]

  -- Whether the name has the form of a mailbox in one of the domains.
  abbrev pub in_domains : String → List String → Bool
  in_domains mail domains = elim (domain_of mail) [
    | none ↦ false
    | some domain ↦ includes domains domain
  ]

  -- `assertAllowed`
  unfoldable pub assert_allowed :
      ℕ → Settings → Directory → String → List CachedAnswer → List CachedAnswer × MailboxOutcome
  unfolding check_mailbox
  assert_allowed now settings directory username cache =
      if not (is_text settings.enabled "true")
      then (cache, let_in)
      else if length (domains_of settings.allowed_domains) == 0
      then (cache, unavailable)
      else if not (in_domains (normal username) (domains_of settings.allowed_domains))
      then (cache, forbidden)
      else elim (fresh_answer now (normal username) cache) [
        | some allowed ↦ (cache, outcome_of allowed)
        | none ↦ ask_directory now directory (normal username) cache
      ]
