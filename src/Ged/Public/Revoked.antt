-- ===== src/Ged/Public/Revoked.antt =====
-- A link that was revoked serves nothing any more: apps/api/src/ged-sign-share.controller.ts.
use isms_portal.Base.{
  ℕ, String, ◌≡◌, refl, sym, ap, ◌∙◌, inl, inr, Bool, true, false, false≢true, ◌&&◌, List, [], ◌∷◌,
  map, Memᴰ, arith, str_eq, is_none, str_eq_iff, str_eq_self, includes, All, find_sound, All_of_mem,
  All-mono, Distinct, All-update_where, map-update_where, mem_of_find, unique_of_mem,
  All-update_where_if, All-when_one,
}
use isms_portal.Ged.{done}
use isms_portal.Ged.Public.{
  ShareLink, PublicStore, consumable, consume, live_link, end_link, missing, download_shared,
  revoke_link,
}
use isms_portal.Ged.Public.Changes.{
  Change, unchanged, counted, ended, added, Step, Step-Change, served_cases, revoke_cases,
}

-- The token is in use, and every link with it is revoked.
record IsOver (token_hash : String) (ls : List ShareLink) : Type 0 where
  over :
      All (λ l. str_eq (ShareLink.token_hash l) token_hash ≡ true → is_none l.revoked_at ≡ false) ls
  known : includes (map ShareLink.token_hash ls) token_hash ≡ true

Change-IsOver :
    (token_hash : String) {ls ms : List ShareLink}
    → Change ls ms
    → IsOver token_hash ls
    → IsOver token_hash ms
Change-IsOver token_hash unchanged h = h
Change-IsOver token_hash (counted now x {ls}) h = record {
  over =
      All-update_where
        (λ l. str_eq (ShareLink.token_hash l) token_hash ≡ true → is_none l.revoked_at ≡ false)
        (consumable x) (consume now) ls (λ l k hit. k) h.over;
  known =
      rw (map-update_where ShareLink.token_hash (consumable x) (consume now) ls (λ l. refl))
        h.known;
}
Change-IsOver token_hash (ended now x document_id {ls}) h = record {
  over =
      All-update_where
        (λ l. str_eq (ShareLink.token_hash l) token_hash ≡ true → is_none l.revoked_at ≡ false)
        (live_link x document_id) (end_link now) ls (λ l k hit e. refl) h.over;
  known =
      rw
        (map-update_where ShareLink.token_hash (live_link x document_id) (end_link now) ls
          (λ l. refl))
        h.known;
}
Change-IsOver token_hash (added l {ls} new_id new_hash) h = record {
  over = (
    (λ e. absurd (
        clash l.token_hash (map ShareLink.token_hash ls) ((str_eq_iff l.token_hash token_hash).0 e)
          new_hash h.known)),
    h.over,
  );
  known = ground (arith, h.known);
}
  where
    clash :
        (k : String) (ks : List String)
        → k ≡ token_hash
        → includes ks k ≡ false
        → includes ks token_hash ≡ true
        → ⊥
    clash k ks e absent there = absurd (false≢true (sym (rw e at absent) ∙ there))

includes_hash :
    (ls : List ShareLink) (l : ShareLink)
    → Memᴰ l ls
    → includes (map ShareLink.token_hash ls) l.token_hash ≡ true
includes_hash [] l m = elim m [ ]
includes_hash (x ∷ ls) l (Memᴰ.head e) = rw (← e, str_eq_self) refl
includes_hash (x ∷ ls) l (Memᴰ.tail m) = ground (arith, includes_hash ls l m)

both_rows :
    (k share_id : String) (q : ShareLink → Bool) (xs : List ShareLink)
    → All (λ x. str_eq (ShareLink.token_hash x) k ≡ true → x.id ≡ share_id) xs
    → All (λ x. str_eq (ShareLink.id x) share_id ≡ true → q x ≡ true) xs
    → All
        (λ x.
          str_eq (ShareLink.token_hash x) k ≡ true
          → (str_eq (ShareLink.id x) share_id ≡ true) × (q x ≡ true))
        xs
both_rows k share_id q [] h g = tt
both_rows k share_id q (x ∷ xs) (h, hs) (g, gs) = (
  (λ e. let same : str_eq x.id share_id ≡ true = rw (h e) (str_eq_self share_id) in (same, g same)),
  both_rows k share_id q xs hs gs,
)

module _ (hash : String → String) (is_token is_mip : String → Bool) (lower : String → String)
    (insensitive : String → String → Bool) where
  pub data Reach (s : PublicStore) : PublicStore → Type 0 where
    here : Reach s s
    next :
        {t u : PublicStore}
        → Reach s t
        → Step hash is_token is_mip lower insensitive t u
        → Reach s u

  Reach-IsOver : (k : String) {s t : PublicStore} → Reach s t → IsOver k s.links → IsOver k t.links
  Reach-IsOver k here h = h
  Reach-IsOver k (next r st) h =
      Change-IsOver k (Step-Change hash is_token is_mip lower insensitive st) (Reach-IsOver k r h)

  revoke-IsOver :
      (now : ℕ) (user : String) (groups : List String) (id share_id k : String) (s : PublicStore)
      (l : ShareLink)
      → Distinct (map ShareLink.id s.links)
      → Distinct (map ShareLink.token_hash s.links)
      → Memᴰ l s.links
      → l.id ≡ share_id
      → l.token_hash ≡ k
      → (revoke_link hash is_token is_mip lower insensitive now user groups id share_id s).1
        ≡ done true
      → IsOver k
          (revoke_link hash is_token is_mip lower insensitive now user groups id share_id s).0.links
  revoke-IsOver now user groups id share_id k s l ids hashes m named hashed ok =
      elim (revoke_cases hash is_token is_mip lower insensitive now user groups id share_id s) [
        | inl same ↦ absurd (ground arith)
        | inr (left, inl failed) ↦ absurd (ground arith)
        | inr (left, inr one) ↦ rw left (record {
          over =
              All-update_where_if
                (λ x. str_eq (ShareLink.token_hash x) k ≡ true → is_none x.revoked_at ≡ false)
                (λ x.
                  str_eq (ShareLink.token_hash x) k ≡ true
                  → (str_eq (ShareLink.id x) share_id ≡ true)
                    × (str_eq x.document_id id && is_none x.revoked_at ≡ true))
                (live_link share_id id) (end_link now) s.links (λ x q hit e. refl)
                (λ x q miss e. let (same, live) = q e in absurd (ground arith))
                (both_rows k share_id _ s.links
                  (All-mono (λ x. str_eq (ShareLink.token_hash x) l.token_hash ≡ true → x ≡ l) _
                    s.links (λ x only e. ap ShareLink.id (only (rw hashed e)) ∙ named)
                    (unique_of_mem ShareLink.token_hash s.links l hashes m))
                  (All-when_one ShareLink.id share_id
                    (λ x. str_eq (ShareLink.document_id x) id && is_none x.revoked_at) s.links ids
                    one));
          known =
              rw
                (
                  map-update_where ShareLink.token_hash (live_link share_id id) (end_link now)
                      s.links (λ l. refl),
                  ← hashed,
                )
                (includes_hash s.links l m);
        })
      ]

  -- Once the link of a token is revoked, no later download with this token, at whatever time and
  -- from wherever, is answered with a file, whatever links are made, used and revoked in between;
  -- identifiers and hashes of tokens may occur once in the table, and a new link has a new
  -- identifier and a token with a new hash.
  pub revoked_for_good :
      (now later : ℕ) (user ip token : String) (groups : List String) (id : String)
      (s t : PublicStore) (l : ShareLink)
      → Distinct (map ShareLink.id s.links)
      → Distinct (map ShareLink.token_hash s.links)
      → Memᴰ l s.links
      → l.token_hash ≡ hash token
      → (revoke_link hash is_token is_mip lower insensitive now user groups id l.id s).1 ≡ done true
      → Reach (revoke_link hash is_token is_mip lower insensitive now user groups id l.id s).0 t
      → (download_shared hash is_token is_mip later ip token t).1 ≡ missing
  revoked_for_good now later user ip token groups id s t l ids hashes m hashed ok r =
      let over =
        Reach-IsOver (hash token) r
          (revoke-IsOver now user groups id l.id (hash token) s l ids hashes m refl hashed ok) in
      elim (served_cases hash is_token is_mip lower insensitive later ip token t) [
        | inl (same, none_sent) ↦ none_sent
        | inr (x, found, left, live, sent) ↦
            let gone =
              All_of_mem _ t.links x over.over (mem_of_find _ t.links x found)
                (find_sound _ t.links x found) in
            absurd (ground arith)
      ]
