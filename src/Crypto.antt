-- ===== src/Crypto.antt =====
-- `CryptoService` of apps/api/src/crypto.service.ts: how a secret is encrypted for the database.
-- The functions of Node are parameters: `seal` gives, for the initialisation vector and the text,
-- the tag and the ciphertext, and `open_sealed` gives the text back or throws (`none`), all three
-- written in base64; `key_length` is the length of the key that the environment holds.
pub mod Opened
use isms_portal.Base.{
  ℕ, String, Bool, not, ◌||◌, Option, none, some, List, [], ◌∷◌, ◌==◌, str_eq, if◌then◌else◌, ◌+++◌,
}
use Prim.Native.Char.{Char}
use Prim.Native.String

abbrev pub is_dot : Char → Bool
is_dot c = str_eq (String.◌∷◌ c String.[]) "."

abbrev pub add_first : Char → List String → List String
add_first c [] = String.◌∷◌ c String.[] ∷ []
add_first c (part ∷ parts) = String.◌∷◌ c part ∷ parts

-- `split(".")`
abbrev pub split_dots : String → List String
split_dots String.[] = String.[] ∷ []
split_dots (String.◌∷◌ c s) =
    if is_dot c then String.[] ∷ split_dots s else add_first c (split_dots s)

-- The length that `key` asks for.
abbrev pub has_key : ℕ → Bool
has_key key_length = key_length == 32

module _ (key_length : ℕ) (seal : String → String → String × String)
    (open_sealed : String → String → String → Option String) where
  -- `encrypt`, with the random initialisation vector: `none` where it throws.
  unfoldable pub encrypt : String → String → Option String
  encrypt iv value =
      if has_key key_length
      then (let (tag, ciphertext) = seal iv value in
          some ("v1" +++ "." +++ iv +++ "." +++ tag +++ "." +++ ciphertext))
      else none

  abbrev pub open_parts : List String → Option String
  open_parts (version ∷ iv ∷ tag ∷ ciphertext ∷ rest) =
      if not (str_eq version "v1") || (str_eq iv "" || (str_eq tag "" || str_eq ciphertext ""))
      then none
      else if has_key key_length
      then open_sealed iv tag ciphertext
      else none
  open_parts _ = none

  -- `decrypt`: `none` where it throws.
  unfoldable pub decrypt : String → Option String
  decrypt value = open_parts (split_dots value)
