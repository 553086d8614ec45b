-- ===== src/Ged/Public/Changes.antt =====
-- What the handlers of apps/api/src/ged-sign-share.controller.ts do to the table of the links.
use isms_portal.Base.{
  ℕ, String, ◌≡◌, refl, ◌⊎◌, inl, inr, Bool, true, false, not, ◌||◌, Option, none, some, List, ◌∷◌,
  map, arith, ltb, ◌==◌, str_eq, Bool-cases, Option-cases, is_none, find, update_where, count_where,
  includes,
}
use isms_portal.Ged.{GedDocument, GedVersion, not_found, may, visible_document, find_document}
use isms_portal.Access.Roles.{edit, download}
use isms_portal.Ged.Public.{
  ShareLink, PublicStore, LinkBody, sharing_settings, find_link, consumable, consume, live_link,
  end_link, may_serve, missing, answer, download_found, download_link, download_shared, share_link,
  revoke_link, clean_version, new_link,
}

pub data Change : List ShareLink → List ShareLink → Type 0 where
  unchanged : {ls : List ShareLink} → Change ls ls
  counted :
      (now : ℕ) (id : String) {ls : List ShareLink}
      → Change ls (update_where (consumable id) (consume now) ls)
  ended :
      (now : ℕ) (id document_id : String) {ls : List ShareLink}
      → Change ls (update_where (live_link id document_id) (end_link now) ls)
  added :
      (l : ShareLink) {ls : List ShareLink}
      → includes (map ShareLink.id ls) l.id ≡ false
      → includes (map ShareLink.token_hash ls) l.token_hash ≡ false
      → Change ls (l ∷ ls)

module _ (hash : String → String) (is_token is_mip : String → Bool) (lower : String → String)
    (insensitive : String → String → Bool) where
  -- The three handlers; a new link has a new identifier, and its token a new hash.
  pub data Step : PublicStore → PublicStore → Type 0 where
    downloads :
        (now : ℕ) (ip token : String) {s : PublicStore}
        → Step s (download_shared hash is_token is_mip now ip token s).0
    shares :
        (now : ℕ) (fresh token user : String) (groups : List String) (id : String) (body : LinkBody)
        {s : PublicStore}
        → includes (map ShareLink.id s.links) fresh ≡ false
        → includes (map ShareLink.token_hash s.links) (hash token) ≡ false
        → Step s
            (share_link hash is_token is_mip lower insensitive now fresh token user groups id body
              s).0
    revokes :
        (now : ℕ) (user : String) (groups : List String) (id share_id : String) {s : PublicStore}
        → Step s
            (revoke_link hash is_token is_mip lower insensitive now user groups id share_id s).0

  found_cases :
      (now : ℕ) (ip : String) (l : ShareLink) (d : GedDocument) (s : PublicStore)
      → ((download_found hash is_token is_mip now ip l d s).0.links ≡ s.links)
          × ((download_found hash is_token is_mip now ip l d s).1 ≡ missing)
        ⊎ (((download_found hash is_token is_mip now ip l d s).0.links
              ≡ update_where (consumable l.id) (consume now) s.links)
            × (l.revoked_at ≡ none)
            × (((download_found hash is_token is_mip now ip l d s).1 ≡ missing)
                ⊎ (count_where (consumable l.id) s.links ≡ 1)))
  found_cases now ip l d s =
      let version : Option GedVersion =
        find (λ v. str_eq (GedVersion.id v) l.version_id) s.ged.versions in
      elim (Bool-cases (may_serve hash is_token is_mip now l d version s)) [
        | inr w ↦ inl (rw w refl, rw w (none_served version))
        | inl w ↦ inr (
          rw w refl,
          live l.revoked_at (ground (arith, w)),
          elim (Bool-cases (count_where (consumable l.id) s.links == 1)) [
            | inl x ↦ inr (ground arith)
            | inr x ↦ inl (rw (w, x) (none_served version))
          ],
        )
      ]
    where
      none_served : (v : Option GedVersion) → answer false v ≡ missing
      none_served none = refl
      none_served (some v) = refl

      live : (o : Option ℕ) → is_none o ≡ true → o ≡ none
      live none h = refl
      live (some t) h = absurd (ground arith)

  link_cases :
      (now : ℕ) (ip : String) (l : ShareLink) (s : PublicStore)
      → (download_link hash is_token is_mip now ip l s ≡ (s, missing))
        ⊎ ((d : GedDocument) × (download_link hash is_token is_mip now ip l s
              ≡ download_found hash is_token is_mip now ip l d s))
  link_cases now ip l s = elim (Option-cases (find_document l.document_id s.ged.documents)) [
    | inl t ↦ inl (rw (download_link, t) refl)
    | inr (d, t) ↦ inr (d, rw (download_link, t) refl)
  ]

  token_cases :
      (now : ℕ) (ip token : String) (s : PublicStore)
      → (download_shared hash is_token is_mip now ip token s ≡ (s, missing))
        ⊎ ((l : ShareLink) × (find_link (hash token) s.links ≡ some l)
            × (download_shared hash is_token is_mip now ip token s
                ≡ download_link hash is_token is_mip now ip l s))
  unfolding download_shared
  token_cases now ip token s = elim (Bool-cases (is_token token)) [
    | inr t ↦ inl (rw (download_shared, t) refl)
    | inl t ↦ elim (Option-cases (find_link (hash token) s.links)) [
      | inl u ↦ inl (rw (download_shared, t, u) refl)
      | inr (l, u) ↦ inr (l, u, rw (download_shared, t, u) refl)
    ]
  ]

  -- A download leaves the links, and answers with nothing, or counts one for the link of the
  -- token; where it answers with a file, exactly one row was counted.
  pub served_cases :
      (now : ℕ) (ip token : String) (s : PublicStore)
      → ((download_shared hash is_token is_mip now ip token s).0.links ≡ s.links)
          × ((download_shared hash is_token is_mip now ip token s).1 ≡ missing)
        ⊎ ((l : ShareLink) × (find_link (hash token) s.links ≡ some l)
            × ((download_shared hash is_token is_mip now ip token s).0.links
                ≡ update_where (consumable l.id) (consume now) s.links)
            × (l.revoked_at ≡ none)
            × (((download_shared hash is_token is_mip now ip token s).1 ≡ missing)
                ⊎ (count_where (consumable l.id) s.links ≡ 1)))
  served_cases now ip token s = elim (token_cases now ip token s) [
    | inl same ↦ inl (rw same (refl, refl))
    | inr (l, found, same) ↦ elim (link_cases now ip l s) [
      | inl gone ↦ inl (rw (same, gone) (refl, refl))
      | inr (d, here) ↦ elim (found_cases now ip l d s) [
        | inl (left, none_sent) ↦ inl (rw (same, here) (left, none_sent))
        | inr (left, live, sent) ↦ inr (l, found, rw (same, here) left, live, rw (same, here) sent)
      ]
    ]
  ]

  share_cases :
      (now : ℕ) (fresh token user : String) (groups : List String) (id : String) (body : LinkBody)
      (s : PublicStore)
      → ((share_link hash is_token is_mip lower insensitive now fresh token user groups id body
            s).0.links
          ≡ s.links)
        ⊎ ((l : ShareLink) × (l.id ≡ fresh)
            × (l.token_hash ≡ hash token)
            × ((share_link hash is_token is_mip lower insensitive now fresh token user groups id
                  body s).0.links
                ≡ l ∷ s.links))
  unfolding share_link
  share_cases now fresh token user groups id body s =
      elim (Option-cases (visible_document lower insensitive now groups id s.ged)) [
        | inl t ↦ inl (rw (share_link, t) refl)
        | inr (d, t) ↦ elim (Bool-cases (sharing_settings s.sharing).enabled) [
          | inr u ↦ inl (rw (share_link, t, u) refl)
          | inl u ↦
              elim (Bool-cases (
                not (may lower insensitive now groups d edit s.ged)
                || not (may lower insensitive now groups d download s.ged))) [
                  | inl v ↦ inl (rw (share_link, t, u, v) refl)
                  | inr v ↦ elim (Bool-cases (not d.is_published || d.sensitive)) [
                    | inl w ↦ inl (rw (share_link, t, u, v, w) refl)
                    | inr w ↦
                        elim (Bool-cases
                          (ltb (sharing_settings s.sharing).max_days body.expires_in_days)) [
                            | inl x ↦ inl (rw (share_link, t, u, v, w, x) refl)
                            | inr x ↦
                                elim (Option-cases
                                  (clean_version hash is_token is_mip id body.version_id s.ged)) [
                                    | inl y ↦ inl (rw (share_link, t, u, v, w, x, y) refl)
                                    | inr (version, y) ↦
                                        elim (Bool-cases (is_mip version.object_key)) [
                                          | inl z ↦ inl (rw (share_link, t, u, v, w, x, y, z) refl)
                                          | inr z ↦ inr (
                                            new_link hash is_token is_mip now fresh token user id
                                                version body,
                                            refl,
                                            refl,
                                            rw (share_link, t, u, v, w, x, y, z) refl,
                                          )
                                        ]
                                  ]
                          ]
                  ]
                ]
        ]
      ]

  pub revoke_cases :
      (now : ℕ) (user : String) (groups : List String) (id share_id : String) (s : PublicStore)
      → ((revoke_link hash is_token is_mip lower insensitive now user groups id share_id s
          ≡ (s, not_found)))
        ⊎ (((revoke_link hash is_token is_mip lower insensitive now user groups id share_id
                s).0.links
              ≡ update_where (live_link share_id id) (end_link now) s.links)
            × (((revoke_link hash is_token is_mip lower insensitive now user groups id share_id s).1
                  ≡ not_found)
                ⊎ (count_where (live_link share_id id) s.links ≡ 1)))
  unfolding revoke_link
  revoke_cases now user groups id share_id s =
      elim (Option-cases (visible_document lower insensitive now groups id s.ged)) [
        | inl t ↦ inl (rw (revoke_link, t) refl)
        | inr (d, t) ↦ elim (Bool-cases (may lower insensitive now groups d edit s.ged)) [
          | inr u ↦ inl (rw (revoke_link, t, u) refl)
          | inl u ↦ elim (Bool-cases (count_where (live_link share_id id) s.links == 1)) [
            | inl v ↦ inr (rw (revoke_link, t, u, v) refl, inr (ground arith))
            | inr v ↦ inr (rw (revoke_link, t, u, v) refl, inl (rw (revoke_link, t, u, v) refl))
          ]
        ]
      ]

  -- Every handler changes the links in one of the four ways.
  pub Step-Change : {s t : PublicStore} → Step s t → Change s.links t.links
  Step-Change (downloads now ip token {s}) = elim (served_cases now ip token s) [
    | inl (same, none_sent) ↦ rw same Change.unchanged
    | inr (l, found, left, live, sent) ↦ rw left (counted now l.id)
  ]
  Step-Change (shares now fresh token user groups id body {s} new_id new_hash) =
      elim (share_cases now fresh token user groups id body s) [
        | inl same ↦ rw same Change.unchanged
        | inr (l, named, hashed, left) ↦ rw left (added l (rw named new_id) (rw hashed new_hash))
      ]
  Step-Change (revokes now user groups id share_id {s}) =
      elim (revoke_cases now user groups id share_id s) [
        | inl same ↦ rw same Change.unchanged
        | inr (left, how) ↦ rw left (ended now share_id id)
      ]
