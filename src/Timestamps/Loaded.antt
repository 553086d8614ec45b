-- ===== src/Timestamps/Loaded.antt =====
-- What is loaded after a save: apps/api/src/ged-settings.ts.
use isms_portal.Base.{
  ℕ, String, ◌≡◌, refl, inl, inr, Bool, true, false, not, ◌||◌, Option, none, some, arith, str_eq,
  if◌then◌else◌, Bool-cases, truthy,
}
use isms_portal.Crypto.{has_key}
use isms_portal.Crypto.Opened.{IsCipher, decrypt-encrypt}
use isms_portal.Timestamps.{
  TimestampView, timestamp_settings, StoredTimestamp, TimestampConfig, TimestampInput, decrypted,
  load_timestamp_config, trimmed, old_password, new_password, save_timestamp_settings,
}

truthy_idem : (o : Option String) → truthy (truthy o) ≡ truthy o
truthy_idem none = refl
truthy_idem (some s) = elim (Bool-cases (str_eq s "")) [
  | inl t ↦ rw t refl
  | inr t ↦ rw (t, t) refl
]

truthy_full : (o : Option String) (text : String) → truthy o ≡ some text → str_eq text "" ≡ false
truthy_full none text e = absurd (ground arith)
truthy_full (some s) text e = elim (Bool-cases (str_eq s "")) [
  | inl t ↦ absurd (ground arith)
  | inr t ↦ let same : s ≡ text = ground arith in rw same at t
]

module _ (environment : Option TimestampConfig) (trim : String → String) (key_length : ℕ)
    (seal : String → String → String × String)
    (open_sealed : String → String → String → Option String) where
  -- The password that a service is given from what is stored.
  abbrev pub known_password : Option StoredTimestamp → Option (Option String)
  known_password none = some none
  known_password (some stored) =
      decrypted environment trim key_length seal open_sealed (truthy stored.password)

  -- The password after a save: the new one, or none where it is to be cleared, or the one before.
  abbrev pub choose_password :
      Option String → Bool → Option (Option String) → Option (Option String)
  choose_password (some text) clear old = some (some text)
  choose_password none clear old = if clear then some none else old

  abbrev pub wanted_password : TimestampInput → Option StoredTimestamp → Option (Option String)
  wanted_password input previous =
      choose_password (truthy input.password) input.clear_password (known_password previous)

  abbrev pub cleaned : Option String → Option String
  cleaned o = trimmed environment trim key_length seal open_sealed o

  abbrev pub entered_with :
      TimestampInput → Option (Option String) → Option (Option TimestampConfig)
  entered_with input none = none
  entered_with input (some password) = some (
      some (record {
        url = trim input.url;
        username = cleaned input.username;
        password = password;
        policy_oid = cleaned input.policy_oid;
      }))

  -- What is loaded after what was entered is saved, with the password as it is known then.
  abbrev pub entered : TimestampInput → Option (Option String) → Option (Option TimestampConfig)
  entered input known =
      if not input.enabled || str_eq (trim input.url) ""
      then some none
      else entered_with input known

  abbrev pub stored_as : TimestampInput → Option String → StoredTimestamp
  stored_as input password = record {
    enabled = input.enabled;
    url = trim input.url;
    username = cleaned input.username;
    policy_oid = cleaned input.policy_oid;
    password = password;
  }

  cleaned_idem : (o : Option String) → truthy (cleaned o) ≡ cleaned o
  cleaned_idem none = refl
  cleaned_idem (some s) = truthy_idem (some (trim s))

  kept_password :
      (previous : Option StoredTimestamp)
      → decrypted environment trim key_length seal open_sealed
          (truthy (old_password environment trim key_length seal open_sealed previous))
        ≡ known_password previous
  kept_password none = refl
  kept_password (some p) = rw (truthy_idem p.password) refl

  load_stored :
      (input : TimestampInput) (password : Option String) (known : Option (Option String))
      → decrypted environment trim key_length seal open_sealed (truthy password) ≡ known
      → load_timestamp_config environment trim key_length seal open_sealed
          (some (stored_as input password))
        ≡ entered input known
  unfolding load_timestamp_config
  load_stored input password none h = rw (load_timestamp_config, h) refl
  load_stored input password (some known) h =
      rw (load_timestamp_config, h, cleaned_idem input.username, cleaned_idem input.policy_oid) refl

  module _ (iv : String) (key : has_key key_length ≡ true)
      (cipher : IsCipher key_length seal open_sealed iv) where
    chosen_password :
        (o : Option String) (clear : Bool) (previous : Option StoredTimestamp)
        → ((text : String) → o ≡ some text → str_eq text "" ≡ false)
        → (password : Option String) × (new_password environment trim key_length seal open_sealed iv
              o clear
              (old_password environment trim key_length seal open_sealed previous)
            ≡ some password)
          × (decrypted environment trim key_length seal open_sealed (truthy password)
              ≡ choose_password o clear (known_password previous))
    chosen_password (some text) clear previous h =
        let (t, e, full, d) =
          decrypt-encrypt key_length seal open_sealed iv text key cipher (h text refl) in
        (some t, rw (new_password, e) refl, rw (full, decrypted, d) refl)
    chosen_password none true previous h = (none, refl, refl)
    chosen_password none false previous h = (
      old_password environment trim key_length seal open_sealed previous,
      refl,
      kept_password previous,
    )

    -- With a key of 32 bytes, a save goes well, and loading then gives nothing where the option is
    -- off or the address is blank, and else exactly what was entered, without the spaces around
    -- it: the address, the name and the policy, an empty one being none, and the password that was
    -- entered, or none where it was to be cleared, or else what decrypting the one before gives,
    -- an exception included. The cipher opens what it sealed, and its base64 texts have no dots
    -- and are not empty, the ciphertext of an empty text aside.
    pub load-save :
        (input : TimestampInput) (previous : Option StoredTimestamp)
        → (stored : StoredTimestamp) × (view : TimestampView) × (save_timestamp_settings environment
              trim key_length seal open_sealed iv input previous
            ≡ some (stored, view))
          × (load_timestamp_config environment trim key_length seal open_sealed (some stored)
              ≡ entered input (wanted_password input previous))
    unfolding save_timestamp_settings
    load-save input previous =
        let (password, e, d) =
          chosen_password (truthy input.password) input.clear_password previous
            (λ text f. truthy_full input.password text f) in
        (
          stored_as input password,
          timestamp_settings environment (some (stored_as input password)),
          rw (save_timestamp_settings, e) refl,
          load_stored input password (wanted_password input previous) d,
        )
