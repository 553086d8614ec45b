-- ===== src/Sharing/Depositors.antt =====
-- The depositors of sensitive documents: `assertCanMarkSensitive`, `addDepositor` and
-- `removeDepositor` of apps/api/src/sensitive-sharing.ts.
use isms_portal.Base.{
  ℕ, String, Bool, true, ◌&&◌, ◌||◌, Option, none, some, List, ◌∷◌, ◌==◌, str_eq, if◌then◌else◌,
  is_some, is_none, find, update_where, count_where, ◌+++◌,
}
use isms_portal.Access.Roles.{is_admin_identity}
use isms_portal.Sharing.{
  audit_entry, is_sensitive_depositor, Depositor, ShareStore, Outcome, done, not_found,
  invalid_recipient,
}

-- `SensitiveAdminController.removeDepositor`
unfoldable pub remove_depositor : ℕ → String → String → ShareStore → ShareStore × Outcome Bool
remove_depositor now user id s =
    if count_where (λ d. str_eq (Depositor.id d) id && is_none d.revoked_at) s.depositors == 1
    then (
      record s {
        depositors =
            update_where (λ d. str_eq (Depositor.id d) id && is_none d.revoked_at)
              (λ d. record d { revoked_at = some now }) s.depositors;
        trail =
            audit_entry user "sensitive.depositor.remove" ("sensitive-depositor:" +++ id) ∷ s.trail;
      },
      done true,
    )
    else (s, not_found)

-- `normalize` is `normalizeIdentity`.
module _ (normalize : String → String) where
  -- `assertCanMarkSensitive`
  unfoldable pub can_mark_sensitive : String → List String → ShareStore → Bool
  unfolding is_sensitive_depositor
  can_mark_sensitive user groups s =
      is_admin_identity groups || is_sensitive_depositor normalize user s

  -- `SensitiveAdminController.addDepositor`, the display name trimmed and absent when empty.
  unfoldable pub add_depositor :
      (String → Bool)
      → (String → Bool)
      → String
      → String
      → String
      → Option String
      → ShareStore
      → ShareStore × Outcome Bool
  add_depositor has_space delivers fresh user identity display_name s =
      let name = normalize identity in
      let known = find (λ d. str_eq (Depositor.identity d) name) s.depositors in
      let depositor_id : String = elim known [ none ↦ fresh | some d ↦ Depositor.id d ] in
      if has_space name then (s, invalid_recipient) else (
        record s {
          depositors =
              if is_some known
              then update_where (λ d. str_eq (Depositor.identity d) name)
                  (λ d. record d {
                    revoked_at = none;
                    display_name = elim display_name [ none ↦ d.display_name | some n ↦ some n ];
                  })
                  s.depositors
              else record {
                id = fresh;
                identity = name;
                display_name = display_name;
                added_by = user;
                revoked_at = none;
              }
                ∷ s.depositors;
          mails = if delivers name then name ∷ s.mails else s.mails;
          trail =
              audit_entry user "sensitive.depositor.add" ("sensitive-depositor:" +++ depositor_id)
              ∷ s.trail;
        },
        done (delivers name),
      )
