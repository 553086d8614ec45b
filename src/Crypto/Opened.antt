-- ===== src/Crypto/Opened.antt =====
-- What `CryptoService` encrypts it decrypts: apps/api/src/crypto.service.ts.
use isms_portal.Base.{
  ℕ, String, ◌≡◌, refl, sym, ap, ◌∙◌, inl, inr, Bool, true, false, ◌||◌, Option, some, [], ◌∷◌,
  arith, str_eq, Bool-cases, str_eq_self, str_eq_of_ne, length, ◌+++◌,
}
use Prim.Native.Char.{char}
use Prim.Native.String.append
use isms_portal.Crypto.{is_dot, split_dots, has_key, encrypt, decrypt}

abbrev pub has_dot : String → Bool
has_dot String.[] = false
has_dot (String.◌∷◌ c s) = is_dot c || has_dot s

split_dots-single : (s : String) → has_dot s ≡ false → split_dots s ≡ s ∷ []
split_dots-single String.[] h = refl
split_dots-single (String.◌∷◌ c s) h = elim (Bool-cases (is_dot c)) [
  | inl dot ↦ absurd (ground arith)
  | inr plain ↦ let rest = split_dots-single s (ground arith) in rw (plain, rest) refl
]

split_dots-dot : (t : String) → split_dots ("." +++ t) ≡ "" ∷ split_dots t
unfolding str_eq
split_dots-dot t =
    ap split_dots (append.cons (char 46 tt) "" t ∙ ap (String.◌∷◌ (char 46 tt)) (append.nil t))

split_dots-part :
    (s t : String) → has_dot s ≡ false → split_dots (s +++ "." +++ t) ≡ s ∷ split_dots t
split_dots-part String.[] t h = ap split_dots (append.nil ("." +++ t)) ∙ split_dots-dot t
split_dots-part (String.◌∷◌ c s) t h = elim (Bool-cases (is_dot c)) [
  | inl dot ↦ absurd (ground arith)
  | inr plain ↦
      let rest = split_dots-part s t (ground arith) in
      ap split_dots (append.cons c s ("." +++ t)) ∙ rw (plain, rest) refl
]

module _ (key_length : ℕ) (seal : String → String → String × String)
    (open_sealed : String → String → String → Option String) where
  -- What the cipher promises for an initialisation vector: base64 has no dots, the tag is there,
  -- the ciphertext of a text that is not empty is not empty, and is opened to this text.
  pub record IsCipher (iv : String) : Type 0 where
    pub vector : (str_eq iv "" ≡ false) × (has_dot iv ≡ false)
    pub tags :
        (text : String) → (str_eq (seal iv text).0 "" ≡ false) × (has_dot (seal iv text).0 ≡ false)
    pub ciphertexts :
        (text : String)
        → str_eq text "" ≡ false
        → (str_eq (seal iv text).1 "" ≡ false) × (has_dot (seal iv text).1 ≡ false)
    pub opens : (text : String) → open_sealed iv (seal iv text).0 (seal iv text).1 ≡ some text

  no_dot-v1 : has_dot "v1" ≡ false
  unfolding str_eq
  no_dot-v1 = refl

  -- With a key of the right length, a text that is not empty is encrypted, to a text that is not
  -- empty, and decrypted to the same.
  pub decrypt-encrypt :
      (iv text : String)
      → has_key key_length ≡ true
      → IsCipher iv
      → str_eq text "" ≡ false
      → (t : String) × (encrypt key_length seal open_sealed iv text ≡ some t)
        × (str_eq t "" ≡ false)
        × (decrypt key_length seal open_sealed t ≡ some text)
  unfolding encrypt decrypt
  decrypt-encrypt iv text key c full =
      let (tag, ciphertext) = seal iv text in
      let (some_iv, plain_iv) = c.vector in
      let (some_tag, plain_tag) = c.tags text in
      let (some_text, plain_text) = c.ciphertexts text full in
      let stored = "v1" +++ "." +++ iv +++ "." +++ tag +++ "." +++ ciphertext in
      let parts : split_dots stored ≡ "v1" ∷ iv ∷ tag ∷ ciphertext ∷ [] =
        split_dots-part "v1" (iv +++ "." +++ tag +++ "." +++ ciphertext) no_dot-v1
        ∙ ap (λ ps. "v1" ∷ ps)
            (split_dots-part iv (tag +++ "." +++ ciphertext) plain_iv
              ∙ ap (λ ps. iv ∷ ps)
                  (split_dots-part tag ciphertext plain_tag
                    ∙ ap (λ ps. tag ∷ ps) (split_dots-single ciphertext plain_text))) in
      (
        stored,
        rw (encrypt, key) refl,
        str_eq_of_ne stored "" (λ e.
            let sizes = ap length (sym parts ∙ ap split_dots e) in absurd (omega (arith, sizes))),
        rw (decrypt, parts, str_eq_self "v1", some_iv, some_tag, some_text, key) (c.opens text),
      )
