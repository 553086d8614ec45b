-- ===== src/Sharing/Reminders.antt =====
-- `remindExpiringSensitiveShares` of apps/api/src/sensitive-sharing.ts.
use isms_portal.Base.{
  ℕ, ◌+◌, String, Bool, false, ◌&&◌, none, some, List, [], ◌∷◌, ltb, leb, ◌==◌, str_eq,
  if◌then◌else◌, is_none, filter, any, take, update_where, count_where,
}
use isms_portal.Sharing.{reminder_window, Share, SensitiveDocument, ShareStore}

abbrev is_due : ℕ → List SensitiveDocument → Share → Bool
is_due now documents x =
    is_none x.revoked_at
    && (is_none x.reminder_sent_at
        && ((elim x.expires_at [
          | none ↦ false
          | some t ↦ ltb now t && leb t (now + reminder_window)
        ])
            && any (λ d. str_eq (SensitiveDocument.id d) x.document_id && is_none d.deleted_at)
                documents))

-- The loop of `remindExpiringSensitiveShares`; the number counts the mails that were delivered.
unfoldable pub remind_each : (String → Bool) → ℕ → List Share → ShareStore → ShareStore × ℕ
remind_each delivers now [] s = (s, 0)
remind_each delivers now (x ∷ xs) s =
    let unclaimed : Share → Bool = λ y. str_eq y.id x.id && is_none y.reminder_sent_at in
    let claimed = count_where unclaimed s.shares == 1 in
    let (t, sent) = remind_each delivers now xs (record s {
      shares = update_where unclaimed (λ y. record y { reminder_sent_at = some now }) s.shares;
      mails = if claimed && delivers x.recipient then x.recipient ∷ s.mails else s.mails;
    }) in
    (t, (if claimed && delivers x.recipient then 1 else 0) + sent)

-- `remindExpiringSensitiveShares`
unfoldable pub remind_expiring : (String → Bool) → ℕ → ShareStore → ShareStore × ℕ
unfolding remind_each
remind_expiring delivers now s =
    remind_each delivers now (take 50 (filter (is_due now s.documents) s.shares)) s
