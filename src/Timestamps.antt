-- ===== src/Timestamps.antt =====
-- The settings of the time stamps: `timestampSettings`, `loadTimestampConfig` and
-- `saveTimestampSettings` of apps/api/src/ged-settings.ts. `trim` is the function of that name,
-- and `environment` is what `environmentTimestampConfig` gives.
pub mod Loaded
use isms_portal.Base.{
  ℕ, String, Bool, true, false, not, ◌||◌, Option, none, some, str_eq, if◌then◌else◌, is_some,
  truthy,
}
use isms_portal.Crypto.{encrypt, decrypt}

-- `StoredTimestamp`
pub record StoredTimestamp : Type 0 where
  pub enabled : Bool
  pub url : String
  pub username : Option String
  pub policy_oid : Option String
  pub password : Option String

-- `TimestampConfig`
pub record TimestampConfig : Type 0 where
  pub url : String
  pub username : Option String
  pub password : Option String
  pub policy_oid : Option String

pub data Source : Type 0 where
  settings environment none_set : Source

-- What `timestampSettings` gives.
pub record TimestampView : Type 0 where
  pub source : Source
  pub enabled : Bool
  pub url : String
  pub username : String
  pub policy_oid : String
  pub has_password : Bool

-- The argument of `saveTimestampSettings`.
pub record TimestampInput : Type 0 where
  pub enabled : Bool
  pub url : String
  pub username : Option String
  pub policy_oid : Option String
  pub password : Option String
  pub clear_password : Bool

abbrev or_empty : Option String → String
or_empty none = ""
or_empty (some text) = text

module _ (environment : Option TimestampConfig) where
  abbrev environment_view : Option TimestampConfig → TimestampView
  environment_view none = record {
    source = none_set;
    enabled = false;
    url = "";
    username = "";
    policy_oid = "";
    has_password = false;
  }
  environment_view (some c) = record {
    source = Source.environment;
    enabled = true;
    url = c.url;
    username = or_empty c.username;
    policy_oid = or_empty c.policy_oid;
    has_password = is_some (truthy c.password);
  }

  -- `timestampSettings`
  unfoldable pub timestamp_settings : Option StoredTimestamp → TimestampView
  timestamp_settings none = environment_view environment
  timestamp_settings (some stored) = record {
    source = settings;
    enabled = stored.enabled;
    url = stored.url;
    username = or_empty stored.username;
    policy_oid = or_empty stored.policy_oid;
    has_password = is_some (truthy stored.password);
  }

  -- `iv` is the random vector of an encryption; `none` is an exception of `CryptoService`.
  module _ (trim : String → String) (key_length : ℕ) (seal : String → String → String × String)
      (open_sealed : String → String → String → Option String) where
    abbrev pub decrypted : Option String → Option (Option String)
    decrypted none = some none
    decrypted (some text) = elim (decrypt key_length seal open_sealed text) [
      | none ↦ none
      | some password ↦ some (some password)
    ]

    -- The configuration from what is stored, with its password.
    abbrev pub config_with :
        StoredTimestamp → Option (Option String) → Option (Option TimestampConfig)
    config_with stored none = none
    config_with stored (some password) = some (
        some (record {
          url = stored.url;
          username = truthy stored.username;
          password = password;
          policy_oid = truthy stored.policy_oid;
        }))

    -- `loadTimestampConfig`
    unfoldable pub load_timestamp_config : Option StoredTimestamp → Option (Option TimestampConfig)
    load_timestamp_config none = some environment
    load_timestamp_config (some stored) =
        if not stored.enabled || str_eq stored.url ""
        then some none
        else config_with stored (decrypted (truthy stored.password))

    abbrev pub trimmed : Option String → Option String
    trimmed none = none
    trimmed (some text) = truthy (some (trim text))

    abbrev pub old_password : Option StoredTimestamp → Option String
    old_password none = none
    old_password (some previous) = truthy previous.password

    abbrev pub new_password : String → Option String → Bool → Option String → Option (Option String)
    new_password iv (some text) clear old = elim (encrypt key_length seal open_sealed iv text) [
      | none ↦ none
      | some secret ↦ some (some secret)
    ]
    new_password iv none clear old = some (if clear then none else old)

    abbrev pub password_of :
        String → TimestampInput → Option StoredTimestamp → Option (Option String)
    password_of iv input previous =
        new_password iv (truthy input.password) input.clear_password (old_password previous)

    -- `saveTimestampSettings`: what it stores, and the view that it gives back.
    unfoldable pub save_timestamp_settings :
        String → TimestampInput → Option StoredTimestamp → Option (StoredTimestamp × TimestampView)
    unfolding timestamp_settings
    save_timestamp_settings iv input previous = elim (password_of iv input previous) [
      | none ↦ none
      | some password ↦
          let value : StoredTimestamp = record {
            enabled = input.enabled;
            url = trim input.url;
            username = trimmed input.username;
            policy_oid = trimmed input.policy_oid;
            password = password;
          } in
          some (value, timestamp_settings (some value))
    ]
