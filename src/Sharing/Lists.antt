-- ===== src/Sharing/Lists.antt =====
-- The lists of shares of apps/api/src/sensitive-sharing.ts: for a recipient, for a document, and for
-- administrators.
use isms_portal.Base.{
  ℕ, String, Bool, ◌&&◌, List, map, leb, str_eq, is_none, filter, any, take, order_by,
}
use isms_portal.Sharing.{
  in_time, share_state, active_where, sharable_document, Share, SensitiveDocument, ShareStore,
  ShareState, Outcome, done, forbidden, not_found, invalid_recipient, own_access, bad_expiry,
}

-- `SensitiveAdminController.shares`
unfoldable pub active_shares : ℕ → ShareStore → List Share
active_shares now s = take 500 (
    order_by (λ a b. leb (Share.created_at b) a.created_at)
      (filter (λ x. is_none (Share.revoked_at x) && in_time now x.expires_at) s.shares))

module _ (normalize : String → String) where
  -- `sharedWithMe`
  unfoldable pub shared_with_me : ℕ → String → ShareStore → List Share
  shared_with_me now user s = take 50 (
      order_by (λ a b. leb (Share.created_at b) a.created_at)
        (filter
          (λ x.
            active_where normalize now user x
            && any
                (λ d.
                  str_eq (SensitiveDocument.id d) x.document_id
                  && (is_none d.deleted_at && (d.published && d.sensitive)))
                s.documents)
          s.shares))

  module _ (lower : String → String) (insensitive : String → String → Bool)
      (has_space : String → Bool) (delivers : String → Bool) where
    -- `shares` of `SensitiveController`.
    unfoldable pub list_shares :
        ℕ → String → List String → String → ShareStore → Outcome (List (Share × ShareState))
    unfolding sharable_document share_state
    list_shares now user groups id s =
        elim (sharable_document normalize lower insensitive has_space delivers now user groups id
          s) [
            | done d ↦ done (
                map (λ x. (x, share_state now x))
                  (take 200 (
                    order_by (λ a b. leb (Share.created_at b) a.created_at)
                      (filter (λ x. str_eq (Share.document_id x) id) s.shares))))
            | forbidden ↦ forbidden
            | not_found ↦ not_found
            | invalid_recipient ↦ invalid_recipient
            | own_access ↦ own_access
            | bad_expiry ↦ bad_expiry
          ]
