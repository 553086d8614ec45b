-- ===== src/Examples/Timestamps.antt =====
-- A save that enters a password, with a small cipher that writes "ed" for a dot and "ee" for an e.
use mathlib.Core.Path.{ap₂}
use isms_portal.Base.{
  String, ◌≡◌, refl, sym, ap, ◌∙◌, inl, inr, Bool, true, false, false≢true, Option, none, some,
  str_eq, if◌then◌else◌, Bool-cases, str_eq_iff,
}
use Prim.Native.Char.{Char, char, nul}
use isms_portal.Crypto.{is_dot, encrypt, decrypt}
use isms_portal.Crypto.Opened.{has_dot, IsCipher}
use isms_portal.Timestamps.{
  StoredTimestamp, TimestampConfig, TimestampView, TimestampInput, load_timestamp_config,
  save_timestamp_settings,
}
use isms_portal.Timestamps.Loaded.{load-save}

abbrev dot : Char
dot = char 46 tt

abbrev letter_d : Char
letter_d = char 100 tt

abbrev letter_e : Char
letter_e = char 101 tt

abbrev is_letter_e : Char → Bool
is_letter_e c = str_eq (String.◌∷◌ c String.[]) "e"

abbrev is_letter_d : Char → Bool
is_letter_d c = str_eq (String.◌∷◌ c String.[]) "d"

abbrev escape : String → String
escape String.[] = String.[]
escape (String.◌∷◌ c s) =
    let rest = escape s in
    if is_dot c
    then String.◌∷◌ letter_e (String.◌∷◌ letter_d rest)
    else if is_letter_e c
    then String.◌∷◌ letter_e (String.◌∷◌ letter_e rest)
    else String.◌∷◌ c rest

abbrev unescape : Bool → String → String
unescape escaped String.[] = String.[]
unescape false (String.◌∷◌ c s) =
    let inner = unescape true s in
    let rest = unescape false s in if is_letter_e c then inner else String.◌∷◌ c rest
unescape true (String.◌∷◌ c s) =
    let rest = unescape false s in String.◌∷◌ (if is_letter_d c then dot else letter_e) rest

abbrev first : String → Char
first String.[] = nul
first (String.◌∷◌ c s) = c

same_char : (c d : Char) → str_eq (String.◌∷◌ c String.[]) (String.◌∷◌ d String.[]) ≡ true → c ≡ d
same_char c d h = ap first ((str_eq_iff _ _).0 h)

unescape-escape : (s : String) → unescape false (escape s) ≡ s
unfolding str_eq
unescape-escape String.[] = refl
unescape-escape (String.◌∷◌ c s) = elim (Bool-cases (is_dot c)) [
  | inl t ↦ rw t (ap₂ String.◌∷◌ (sym (same_char c dot t)) (unescape-escape s))
  | inr t ↦ elim (Bool-cases (is_letter_e c)) [
    | inl u ↦ rw (t, u) (ap₂ String.◌∷◌ (sym (same_char c letter_e u)) (unescape-escape s))
    | inr u ↦ rw (t, u, u) (ap (String.◌∷◌ c) (unescape-escape s))
  ]
]

escape-no_dot : (s : String) → has_dot (escape s) ≡ false
unfolding str_eq
escape-no_dot String.[] = refl
escape-no_dot (String.◌∷◌ c s) = elim (Bool-cases (is_dot c)) [
  | inl t ↦ rw t (escape-no_dot s)
  | inr t ↦ elim (Bool-cases (is_letter_e c)) [
    | inl u ↦ rw (t, u) (escape-no_dot s)
    | inr u ↦ rw (t, u, t) (escape-no_dot s)
  ]
]

escape-full : (s : String) → str_eq s "" ≡ false → str_eq (escape s) "" ≡ false
escape-full s h = elim (Bool-cases (str_eq (escape s) "")) [
  | inr t ↦ t
  | inl t ↦
      let e : s ≡ "" =
        sym (unescape-escape s) ∙ ap (unescape false) ((str_eq_iff (escape s) "").0 t) in
      absurd (false≢true (sym h ∙ (str_eq_iff s "").1 e))
]

abbrev seal : String → String → String × String
seal iv text = ("dGFn", escape text)

abbrev open_sealed : String → String → String → Option String
open_sealed iv tag text = if str_eq tag "dGFn" then some (unescape false text) else none

small-IsCipher : IsCipher 32 seal open_sealed "aXY"
unfolding str_eq
small-IsCipher = record {
  vector = (refl, refl);
  tags = λ text. (refl, refl);
  ciphertexts = λ text full. (escape-full text full, escape-no_dot text);
  opens = λ text. ap some (unescape-escape text);
}

abbrev same_text : String → String
same_text text = text

abbrev input : TimestampInput
input = record {
  enabled = true;
  url = "https://stamp.example.org";
  username = some "portal";
  policy_oid = some "";
  password = some "secret.";
  clear_password = false;
}

abbrev entered_config : TimestampConfig
entered_config = record {
  url = "https://stamp.example.org";
  username = some "portal";
  password = some "secret.";
  policy_oid = none;
}

load-save_example :
    (stored : StoredTimestamp) × (view : TimestampView) × (save_timestamp_settings none same_text 32
        seal open_sealed "aXY" input none
      ≡ some (stored, view))
    × (load_timestamp_config none same_text 32 seal open_sealed (some stored)
        ≡ some (some entered_config))
unfolding str_eq
load-save_example =
    load-save none same_text 32 seal open_sealed "aXY" refl small-IsCipher input none

-- What stands in the table.
sealed : encrypt 32 seal open_sealed "aXY" "secret." ≡ some "v1.aXY.dGFn.seecreeted"
unfolding encrypt str_eq
sealed = refl

-- The ciphertext of an empty text is empty, and its decryption throws.
not_opened : decrypt 32 seal open_sealed "v1.aXY.dGFn." ≡ none
unfolding decrypt str_eq
not_opened = refl
