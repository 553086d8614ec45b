-- ===== src/Examples/Sharing.antt =====
-- A depositor shares a document for a week with a person who has a share already.
use isms_portal.Base.{
  ◌+◌, ◌*◌, ◌≤◌, ◌<◌, String, ◌≡◌, refl, Bool, true, false, none, some, List, [], ◌∷◌, arith,
  str_eq, count_where,
}
use isms_portal.Access.Roles.{is_admin_identity, moderator_can}
use isms_portal.Access.Spaces.{can}
use isms_portal.Sharing.{
  Share, ShareStore, ShareBody, days_7, custom, day, max_custom_days, resolve_expiry, is_live,
  in_time, share, has_sensitive_share,
}
use isms_portal.Sharing.Expiry.{resolve_expiry_bounds}
use isms_portal.Sharing.Live.{share_single, shared_until}

resolve_expiry_bounds_example : (1000 < 2000) × (2000 ≤ 1000 + max_custom_days * day)
unfolding resolve_expiry
resolve_expiry_bounds_example = resolve_expiry_bounds 1000 custom (some 2000) 2000 refl

abbrev same_text : String → String
same_text name = name

abbrev same_name : String → String → Bool
same_name a b = str_eq a b

abbrev never : String → Bool
never text = false

abbrev admins : List String
admins = "ISMS-LOCAL-ADMINS" ∷ []

abbrev old_share : Share
old_share = record {
  id = "s1";
  document_id = "d";
  recipient = "bob";
  created_by = "ada";
  created_at = 1;
  expires_at = none;
  revoked_at = none;
  reminder_sent_at = none;
}

abbrev store : ShareStore
store = record {
  depositors =
      record {
        id = "p1";
        identity = "ada";
        display_name = none;
        added_by = "root";
        revoked_at = none;
      }
      ∷ [];
  shares = old_share ∷ [];
  documents =
      record {
        id = "d";
        slug = "plan";
        space_id = "quality";
        category_id = none;
        title = some "Plan";
        deleted_at = none;
        sensitive = true;
        published = true;
      }
      ∷ [];
  spaces = [];
  mails = [];
  trail = [];
}

abbrev week : ShareBody
week = record { recipient = "bob"; duration = days_7; expires_at = none }

share_single_example :
    count_where
      (is_live "d" "bob")
      (share same_text same_text same_name never never 1000 "s2" "ada" admins "d" week
        store).0.shares
    ≤ 1
unfolding str_eq
share_single_example =
    share_single same_text same_text same_name never never 1000 "s2" "ada" admins "d" week store "d"
      "bob" (omega arith)

shared_until_example :
    has_sensitive_share same_text 5000 "d" "bob"
      (share same_text same_text same_name never never 1000 "s2" "ada" admins "d" week store).0
    ≡ in_time 5000 (some (1000 + 7 * day))
unfolding str_eq share is_admin_identity moderator_can can
shared_until_example =
    shared_until same_text same_text same_name never never 1000 5000 "s2" "ada" admins "d" week
      store (record old_share { id = "s2"; created_at = 1000; expires_at = some (1000 + 7 * day) })
      refl
