-- ===== src/Signatures/Settled.antt =====
-- The status of a signature request and those of its entries.
use isms_portal.Base.{
  ℕ, ◌<◌, String, ◌≡◌, refl, sym, inl, inr, Bool, true, false, not, ◌&&◌, some, List, [], ◌∷◌, map,
  arith, ◌==◌, str_eq, Bool-cases, Option-cases, any, find, update_where, count_where, All,
  Distinct, All-update_where₂, mem_of_find, unique_of_mem,
}
use mathlib.Core.Path.{subst}
use isms_portal.Signatures.{
  EntryStatus, pending, signed, declined, RequestStatus, opened, completed, refused, cancelled,
  Entry, Request, SignatureBody, is_pending, is_entry, settle_entry, remaining, settle_request,
  is_opened, SignatureStore, find_open, is_mine, same_request, decide_signature,
}

abbrev is_signed : EntryStatus → Bool
is_signed signed = true
is_signed _ = false

abbrev is_declined : EntryStatus → Bool
is_declined declined = true
is_declined _ = false

abbrev some_declined : List Entry → Bool
some_declined es = any (λ e. is_declined (Entry.status e)) es

-- An open request waits for somebody and nobody has refused; a completed one is signed by all; a
-- refused one has a refusal.
abbrev pub Fits : RequestStatus → List Entry → Type 0
Fits opened es = (0 < remaining es) × (some_declined es ≡ false)
Fits completed es = All (λ e. is_signed (Entry.status e) ≡ true) es
Fits refused es = some_declined es ≡ true
Fits cancelled es = Unit

-- A signature brings no refusal.
signs_no_refusal :
    (now : ℕ) (evidence id : String) (body : SignatureBody) (es : List Entry)
    → body.sign ≡ true
    → some_declined es ≡ false
    → some_declined (update_where (is_entry id) (settle_entry now evidence body) es) ≡ false
signs_no_refusal now evidence id body [] h k = refl
signs_no_refusal now evidence id body (e ∷ es) h k =
    let rest = signs_no_refusal now evidence id body es h (ground arith) in
    elim (Bool-cases (is_entry id e)) [
      | inl this ↦ rw (this, h) rest
      | inr other ↦ ground (arith, rest)
    ]

All-signed :
    (es : List Entry)
    → some_declined es ≡ false
    → remaining es ≡ 0
    → All (λ e. is_signed (Entry.status e) ≡ true) es
All-signed [] h k = tt
All-signed (e ∷ es) h k = (
  signed_left e.status (ground arith) (ground arith),
  All-signed es (ground arith) (ground arith),
)
  where
    signed_left :
        (s : EntryStatus) → is_declined s ≡ false → is_pending s ≡ false → is_signed s ≡ true
    signed_left signed h k = refl
    signed_left pending h k = cc
    signed_left declined h k = cc

refusal_told :
    (now : ℕ) (evidence id : String) (body : SignatureBody) (es : List Entry)
    → body.sign ≡ false
    → any (is_entry id) es ≡ true
    → some_declined (update_where (is_entry id) (settle_entry now evidence body) es) ≡ true
refusal_told now evidence id body [] h k = cc
refusal_told now evidence id body (e ∷ es) h k = elim (Bool-cases (is_entry id e)) [
  | inl this ↦ rw (this, h) refl
  | inr other ↦ ground (arith, refusal_told now evidence id body es h (ground arith))
]

-- The decision of a signer leads from an open request that fits its entries to a request that fits
-- its entries: it stays open as long as somebody has to sign, is completed by the last signature,
-- and refused by any refusal.
pub settle_request-Fits :
    (now : ℕ) (evidence id : String) (body : SignatureBody) (r : Request)
    → r.status ≡ opened
    → Fits r.status r.entries
    → any (is_entry id) r.entries ≡ true
    → let r' = settle_request now evidence body id r in Fits r'.status r'.entries
unfolding settle_request
settle_request-Fits now evidence id body r o k mine =
    let after = update_where (is_entry id) (settle_entry now evidence body) r.entries in
    let (waits, none_refused) = subst (λ s. Fits s r.entries) o k in
    elim (Bool-cases body.sign) [
      | inr refuses ↦
          let e : (settle_request now evidence body id r).status ≡ refused = ground arith in
          subst (λ s. Fits s after) (sym e)
            (refusal_told now evidence id body r.entries refuses mine)
      | inl signs ↦
          let clean = signs_no_refusal now evidence id body r.entries signs none_refused in
          elim (Bool-cases (remaining after == 0)) [
            | inl last ↦
                let e : (settle_request now evidence body id r).status ≡ completed = ground arith in
                subst (λ s. Fits s after) (sym e) (All-signed after clean (ground arith))
            | inr more ↦
                let e : (settle_request now evidence body id r).status ≡ opened = ground arith in
                subst (λ s. Fits s after) (sym e) (ground arith, clean)
          ]
    ]

any_of_count : (p : Entry → Bool) (es : List Entry) → count_where p es ≡ 1 → any p es ≡ true
any_of_count p [] h = absurd (omega (arith, h))
any_of_count p (e ∷ es) h = elim (Bool-cases (p e)) [
  | inl this ↦ ground arith
  | inr other ↦ ground (arith, any_of_count p es (ground arith))
]

-- The request fits its entries.
abbrev pub IsSettled : Request → Type 0
IsSettled r = Fits r.status r.entries

opened_of_found :
    (id document_id : String) (rs : List Request) (r : Request)
    → find
        (λ r. str_eq (Request.id r) id && (str_eq r.document_id document_id && is_opened r.status))
        rs
      ≡ some r
    → is_opened r.status ≡ true
opened_of_found id document_id [] r h = cc
opened_of_found id document_id (x ∷ xs) r h =
    elim (Bool-cases (str_eq x.id id && (str_eq x.document_id document_id && is_opened x.status))) [
      | inl this ↦ let e : x ≡ r = ground arith in rw (← e) (ground arith)
      | inr other ↦ opened_of_found id document_id xs r (ground arith)
    ]

status_opened : (s : RequestStatus) → is_opened s ≡ true → s ≡ opened
status_opened opened h = refl
status_opened completed h = cc
status_opened refused h = cc
status_opened cancelled h = cc

-- The decision of a signer, however it ends, keeps every request in accordance with its entries: an
-- open one waits for a signer and has no refusal, a completed one is signed by all, and a refused
-- one has a refusal. Each identifier of a request may occur once.
pub decide_signature-IsSettled :
    (lower : String → String) (now : ℕ) (evidence user document_id id : String)
    (body : SignatureBody) (s : SignatureStore)
    → Distinct (map Request.id s.requests)
    → All IsSettled s.requests
    → All IsSettled (decide_signature lower now evidence user document_id id body s).0.requests
unfolding decide_signature
decide_signature-IsSettled lower now evidence user document_id id body s distinct h =
    let answer = (decide_signature lower now evidence user document_id id body s).0 in
    elim (Bool-cases (body.sign && not body.consent)) [
      | inl no_consent ↦ let same : answer ≡ s = ground arith in rw same h
      | inr agreed ↦ elim (Option-cases (find_open id document_id s)) [
        | inl missing ↦ let same : answer ≡ s = ground arith in rw same h
        | inr (r, found) ↦ elim (Option-cases (find (is_mine (lower user)) r.entries)) [
          | inl nothing ↦ let same : answer ≡ s = ground arith in rw same h
          | inr (e, mine) ↦ elim (Bool-cases (count_where (is_entry e.id) r.entries == 1)) [
            | inr taken ↦ let same : answer ≡ s = ground arith in rw same h
            | inl free ↦
                let same : answer.requests
                    ≡ update_where (same_request r) (settle_request now evidence body e.id)
                        s.requests =
                  ground arith in
                let status =
                  status_opened r.status (opened_of_found id document_id s.requests r found) in
                let some_entry = any_of_count (is_entry e.id) r.entries (ground arith) in
                let mem = mem_of_find _ s.requests r found in
                rw same (
                  All-update_where₂ IsSettled (λ x. str_eq x.id r.id ≡ true → x ≡ r)
                    (same_request r) (settle_request now evidence body e.id) s.requests
                    (λ x same_id k this.
                      let x_is_r = same_id this in
                      rw x_is_r (
                        settle_request-Fits now evidence e.id body r status (rw (← x_is_r) k)
                          some_entry))
                    (unique_of_mem Request.id s.requests r distinct mem) h)
          ]
        ]
      ]
    ]
