-- ===== src/Ged/Public/Counted.antt =====
-- The limit on the downloads of a link: apps/api/src/ged-sign-share.controller.ts.
use isms_portal.Base.{
  ℕ, ◌+◌, ◌≤◌, max, String, ◌≡◌, refl, sym, ap, ◌∙◌, inl, inr, Bool, true, false, false≢true, ◌&&◌,
  Option, none, some, List, [], ◌∷◌, map, Memᴰ, arith, ltb, str_eq, Bool-cases, is_none, str_eq_iff,
  str_eq_self, update_where, count_where, includes, All, find_sound, All_of_mem, All-mono, Distinct,
  All-update_where, map-update_where, mem_of_find, unique_of_mem, All-update_where_if, All-when_one,
}
use isms_portal.Ged.Public.{
  ShareLink, PublicStore, below_limit, consumable, consume, live_link, end_link, served,
  download_shared,
}
use isms_portal.Ged.Public.Changes.{
  Change, unchanged, counted, ended, added, Step, Step-Change, served_cases,
}

-- The row has the limit, and counts at least `used` downloads but no more than the limit.
abbrev IsCounted : String → ℕ → ℕ → ShareLink → Type 0
IsCounted id limit used l =
    str_eq l.id id ≡ true
    → (used ≤ l.download_count) × (l.download_count ≤ limit) × (l.max_downloads ≡ some limit)

record IsWithin (id token_hash : String) (limit used : ℕ) (ls : List ShareLink) : Type 0 where
  ids : Distinct (map ShareLink.id ls)
  rows : All (IsCounted id limit used) ls
  owner : All (λ l. str_eq (ShareLink.token_hash l) token_hash ≡ true → l.id ≡ id) ls
  known : includes (map ShareLink.id ls) id ≡ true
  hashed : includes (map ShareLink.token_hash ls) token_hash ≡ true

clash : {k j : String} (ks : List String) → k ≡ j → includes ks k ≡ false → includes ks j ≡ true → ⊥
clash {k} {j} ks e absent there = absurd (false≢true (sym (rw e at absent) ∙ there))

one_more :
    (x id : String) (limit used : ℕ) (now : ℕ) (l : ShareLink)
    → IsCounted id limit used l
    → consumable x l ≡ true
    → IsCounted id limit used (consume now l)
one_more x id limit used now l k hit e =
    let (least, most, max) = k e in (ground arith, below l.max_downloads max (ground arith), max)
  where
    below :
        (o : Option ℕ)
        → o ≡ some limit
        → (elim o as (λ x. Bool) [ none ↦ true | some n ↦ ltb l.download_count n ]) ≡ true
        → l.download_count + 1 ≤ limit
    below none e h = absurd (ground arith)
    below (some n) e h = ground arith

module _ (id token_hash : String) (limit used : ℕ) where
  counted-IsWithin :
      (now : ℕ) (x : String) (ls : List ShareLink)
      → IsWithin id token_hash limit used ls
      → IsWithin id token_hash limit used (update_where (consumable x) (consume now) ls)
  counted-IsWithin now x ls h = record {
    ids = rw (map-update_where ShareLink.id (consumable x) (consume now) ls (λ l. refl)) h.ids;
    rows =
        All-update_where (IsCounted id limit used) (consumable x) (consume now) ls
          (λ l k hit. one_more x id limit used now l k hit) h.rows;
    owner =
        All-update_where (λ l. str_eq (ShareLink.token_hash l) token_hash ≡ true → l.id ≡ id)
          (consumable x) (consume now) ls (λ l k hit. k) h.owner;
    known = rw (map-update_where ShareLink.id (consumable x) (consume now) ls (λ l. refl)) h.known;
    hashed =
        rw (map-update_where ShareLink.token_hash (consumable x) (consume now) ls (λ l. refl))
          h.hashed;
  }

  Change-IsWithin :
      {ls ms : List ShareLink}
      → Change ls ms
      → IsWithin id token_hash limit used ls
      → IsWithin id token_hash limit used ms
  Change-IsWithin unchanged h = h
  Change-IsWithin (counted now x {ls}) h = counted-IsWithin now x ls h
  Change-IsWithin (ended now x document_id {ls}) h = record {
    ids =
        rw (map-update_where ShareLink.id (live_link x document_id) (end_link now) ls (λ l. refl))
          h.ids;
    rows =
        All-update_where (IsCounted id limit used) (live_link x document_id) (end_link now) ls
          (λ l k hit. k) h.rows;
    owner =
        All-update_where (λ l. str_eq (ShareLink.token_hash l) token_hash ≡ true → l.id ≡ id)
          (live_link x document_id) (end_link now) ls (λ l k hit. k) h.owner;
    known =
        rw (map-update_where ShareLink.id (live_link x document_id) (end_link now) ls (λ l. refl))
          h.known;
    hashed =
        rw
          (map-update_where ShareLink.token_hash (live_link x document_id) (end_link now) ls
            (λ l. refl))
          h.hashed;
  }
  Change-IsWithin (added l {ls} new_id new_hash) h = record {
    ids = (new_id, h.ids);
    rows = (
      (λ e. absurd (clash (map ShareLink.id ls) ((str_eq_iff l.id id).0 e) new_id h.known)),
      h.rows,
    );
    owner = (
      (λ e. absurd (
          clash (map ShareLink.token_hash ls) ((str_eq_iff l.token_hash token_hash).0 e) new_hash
            h.hashed)),
      h.owner,
    );
    known = ground (arith, h.known);
    hashed = ground (arith, h.hashed);
  }

-- Exactly one row was counted, and it is that of the identifier.
served-IsWithin :
    (id token_hash : String) (limit used now : ℕ) (ls : List ShareLink)
    → count_where (consumable id) ls ≡ 1
    → IsWithin id token_hash limit used ls
    → IsWithin id token_hash limit (used + 1) (update_where (consumable id) (consume now) ls)
served-IsWithin id token_hash limit used now ls one h =
    let before = counted-IsWithin id token_hash limit used now id ls h in
    record {
      ids = before.ids;
      rows =
          All-update_where_if (IsCounted id limit (used + 1))
            (λ l.
              IsCounted id limit used l
              × (str_eq (ShareLink.id l) id ≡ true → is_none l.revoked_at && below_limit l ≡ true))
            (consumable id) (consume now) ls
            (λ l (k, q) hit e.
              let (least, most, max) = one_more id id limit used now l k hit e in
              let (small, large, max_too) = k e in (ground arith, most, max))
            (λ l (k, q) miss e. let live = q e in absurd (ground arith))
            (both ls h.rows (
              All-when_one ShareLink.id id (λ l. is_none l.revoked_at && below_limit l) ls h.ids
                one));
      owner = before.owner;
      known = before.known;
      hashed = before.hashed;
    }
  where
    both :
        (xs : List ShareLink)
        → All (IsCounted id limit used) xs
        → All
            (λ l. str_eq (ShareLink.id l) id ≡ true → is_none l.revoked_at && below_limit l ≡ true)
            xs
        → All
            (λ l.
              IsCounted id limit used l
              × (str_eq (ShareLink.id l) id ≡ true → is_none l.revoked_at && below_limit l ≡ true))
            xs
    both [] k q = tt
    both (x ∷ xs) (k, ks) (q, qs) = ((k, q), both xs ks qs)

within_limit :
    (id : String) (limit used : ℕ) (ls : List ShareLink)
    → All (IsCounted id limit used) ls
    → includes (map ShareLink.id ls) id ≡ true
    → used ≤ limit
within_limit id limit used [] h there = absurd (ground arith)
within_limit id limit used (l ∷ ls) (k, ks) there = elim (Bool-cases (str_eq (ShareLink.id l) id)) [
  | inl t ↦ let (least, most, max) = k t in ground arith
  | inr t ↦ within_limit id limit used ls ks (ground arith)
]

module _ (hash : String → String) (is_token is_mip : String → Bool) (lower : String → String)
    (insensitive : String → String → Bool) where
  -- The handlers one after the other, with the number of the downloads with the token that were
  -- answered with a file.
  pub data Runs (token : String) (s : PublicStore) : PublicStore → ℕ → Type 0 where
    start : Runs token s s 0
    serves :
        (now : ℕ) (ip key : String) {t : PublicStore} {n : ℕ}
        → Runs token s t n
        → (download_shared hash is_token is_mip now ip token t).1 ≡ served key
        → Runs token s (download_shared hash is_token is_mip now ip token t).0 (n + 1)
    steps :
        {t u : PublicStore} {n : ℕ}
        → Runs token s t n
        → Step hash is_token is_mip lower insensitive t u
        → Runs token s u n

  serves-IsWithin :
      (id : String) (limit used now : ℕ) (ip token key : String) (t : PublicStore)
      → (download_shared hash is_token is_mip now ip token t).1 ≡ served key
      → IsWithin id (hash token) limit used t.links
      → IsWithin id
          (hash token)
          limit
          (used + 1)
          (download_shared hash is_token is_mip now ip token t).0.links
  serves-IsWithin id limit used now ip token key t ok h =
      elim (served_cases hash is_token is_mip lower insensitive now ip token t) [
        | inl (same, none_sent) ↦ absurd (ground arith)
        | inr (l, found, left, live, inl none_sent) ↦ absurd (ground arith)
        | inr (l, found, left, live, inr one) ↦
            let mine : l.id ≡ id =
              All_of_mem (λ l. str_eq (ShareLink.token_hash l) (hash token) ≡ true → l.id ≡ id)
                t.links l h.owner (mem_of_find _ t.links l found) (find_sound _ t.links l found) in
            rw (left, mine)
              (served-IsWithin id (hash token) limit used now t.links (rw mine at one) h)
      ]

  Runs-IsWithin :
      (id token : String) (limit used : ℕ) {s t : PublicStore} {n : ℕ}
      → Runs token s t n
      → IsWithin id (hash token) limit used s.links
      → IsWithin id (hash token) limit (used + n) t.links
  Runs-IsWithin id token limit used start h = let same : used + 0 ≡ used = omega arith in rw same h
  Runs-IsWithin id token limit used (serves now ip key {t} {n} r ok) h =
      let same : used + (n + 1) ≡ used + n + 1 = omega arith in
      rw same (
        serves-IsWithin id limit (used + n) now ip token key t ok
          (Runs-IsWithin id token limit used r h))
  Runs-IsWithin id token limit used (steps {t} {u} {n} r st) h =
      Change-IsWithin id (hash token) limit (used + n)
        (Step-Change hash is_token is_mip lower insensitive st)
        (Runs-IsWithin id token limit used r h)

  start_owner :
      (k : String) (l : ShareLink) (ls : List ShareLink)
      → Distinct (map ShareLink.token_hash ls)
      → Memᴰ l ls
      → l.token_hash ≡ k
      → All (λ x. str_eq (ShareLink.token_hash x) k ≡ true → x.id ≡ l.id) ls
  start_owner k l ls u m same =
      All-mono (λ x. str_eq (ShareLink.token_hash x) l.token_hash ≡ true → x ≡ l) _ ls
        (λ x only e. ap ShareLink.id (only (rw same e)))
        (unique_of_mem ShareLink.token_hash ls l u m)

  key_of_mem :
      (key : ShareLink → String) (ls : List ShareLink) (l : ShareLink)
      → Memᴰ l ls
      → includes (map key ls) (key l) ≡ true
  key_of_mem key [] l m = elim m [ ]
  key_of_mem key (x ∷ ls) l (Memᴰ.head e) = rw (← e, str_eq_self) refl
  key_of_mem key (x ∷ ls) l (Memᴰ.tail m) = ground (arith, key_of_mem key ls l m)

  -- However often and from wherever a token is used, whatever other links are made, used and
  -- revoked in between: the downloads that were answered with a file, together with those that
  -- its link counted before, are never more than the limit of the link, if they were not before.
  -- Identifiers and hashes of tokens may occur once in the table, and a new link has a new
  -- identifier and a token with a new hash.
  pub served_within_limit :
      (token : String) (s t : PublicStore) (l : ShareLink) (limit n : ℕ)
      → Distinct (map ShareLink.id s.links)
      → Distinct (map ShareLink.token_hash s.links)
      → Memᴰ l s.links
      → l.token_hash ≡ hash token
      → l.max_downloads ≡ some limit
      → l.download_count ≤ limit
      → Runs token s t n
      → l.download_count + n ≤ limit
  served_within_limit token s t l limit n ids hashes m hashed max few r =
      let begin : IsWithin l.id (hash token) limit l.download_count s.links = record {
        ids = ids;
        rows =
            All-mono (λ x. str_eq (ShareLink.id x) l.id ≡ true → x ≡ l)
              (IsCounted l.id limit l.download_count) s.links
              (λ x only e. let same = only e in rw same (ground arith, few, max))
              (unique_of_mem ShareLink.id s.links l ids m);
        owner = start_owner (hash token) l s.links hashes m hashed;
        known = key_of_mem ShareLink.id s.links l m;
        hashed = rw (← hashed) (key_of_mem ShareLink.token_hash s.links l m);
      } in
      let end = Runs-IsWithin l.id token limit l.download_count r begin in
      within_limit l.id limit (l.download_count + n) t.links end.rows end.known
