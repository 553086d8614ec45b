-- ===== src/Examples/Mailbox.antt =====
-- A user with a mailbox, who comes twice within a minute, and a directory that is down.
use isms_portal.Base.{
  ℕ, ◌+◌, ◌≤◌, ◌<◌, String, ◌≡◌, refl, Bool, true, false, Option, none, some, List, [], ◌∷◌, arith,
  ltb, str_eq, if◌then◌else◌, length,
}
use isms_portal.Mailbox.{
  Directory, DirectoryUser, purpose, failed, Settings, CachedAnswer, check_mailbox, assert_allowed,
}
use isms_portal.Mailbox.Cached.{request, belongs, checked}
use isms_portal.Mailbox.Transparent.{plain_policy, request-plain_policy}
use isms_portal.Mailbox.Confirmed.{Reach, start, next, cache_bounded, let_in_confirmed}

abbrev same_text : String → String
same_text name = name

abbrev any_text : String → Bool
any_text s = true

abbrev one_domain : String → List String
one_domain s = s ∷ []

abbrev domain_of : String → Option String
domain_of mail = some "example.org"

abbrev settings : Settings
settings = record { enabled = some "true"; allowed_domains = "example.org" }

abbrev ada : DirectoryUser
ada = record {
  id = some "1";
  mail = some "ada@example.org";
  account_enabled = some true;
  user_type = some "Member";
}

abbrev up : Directory
up = record {
  users = λ mail. some (record { value = some (ada ∷ []); has_next = false });
  mailbox = λ id. purpose (some "user");
}

abbrev down : Directory
down = record { users = λ mail. none; mailbox = λ id. failed }

-- The directory is down from the second 10 on.
abbrev over_time : ℕ → Directory
over_time t = if ltb t 10000 then up else down

abbrev one : List CachedAnswer
one =
    (request same_text same_text any_text one_domain domain_of 5000 settings (over_time 5000)
      "ada@example.org" []).0

once : Reach same_text same_text any_text one_domain domain_of over_time one 5000
once = next 5000 settings "ada@example.org" (start 0) (omega arith)

cache_bounded_example : length one ≤ 10000
cache_bounded_example =
    cache_bounded same_text same_text any_text one_domain domain_of over_time one 5000 once

let_in_confirmed_example :
    (belongs same_text same_text any_text one_domain domain_of settings "ada@example.org" ≡ true)
    × ((t : ℕ) × (t ≤ 20000)
        × (20000 < t + 60000)
        × (checked same_text same_text any_text one_domain domain_of (over_time t) "ada@example.org"
            ≡ some true))
unfolding assert_allowed check_mailbox str_eq
let_in_confirmed_example =
    let_in_confirmed same_text same_text any_text one_domain domain_of over_time one 5000 20000
      settings "ada@example.org" once (omega arith) refl refl

calm : Reach same_text same_text any_text one_domain domain_of (λ t. up) one 5000
calm = next 5000 settings "ada@example.org" (start 0) (omega arith)

request-plain_policy_example :
    (request same_text same_text any_text one_domain domain_of 20000 settings up "ada@example.org"
      one).1
    ≡ plain_policy same_text same_text any_text one_domain domain_of up settings "ada@example.org"
request-plain_policy_example =
    request-plain_policy same_text same_text any_text one_domain domain_of up one 5000 20000
      settings "ada@example.org" calm
