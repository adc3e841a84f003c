-- ===== src/Sync/Credentials.antt =====
-- api/internal/services/sync/orchestrator.go and services/clublog/client.go: the stored credentials
-- of a user, with the keyring of api/internal/crypto. A user has one row for a service. Reading
-- JSON (encoding/json) is a parameter of what uses it.
use radioledger.Base.{
  ℕ, ◌==◌, Bool, ◌&&◌, ◌||◌, Bytes, List, [], ◌∷◌, Option, none, some, equal, keep, map, member,
  if◌then◌else◌,
}
use radioledger.Base.Text.{codes, is_empty}
use radioledger.Crypto.Keyring.{Cipher, Keyring, decrypt}

-- A row of user_service_credentials.
pub record ServiceCredential : Type 0 where
  pub user_id : ℕ
  pub service : Bytes
  pub is_active : Bool
  pub ciphertext : Bytes
  pub key_version : ℕ

-- Why there is no plaintext: nothing is configured, or an error.
pub data Loaded : Type 0 where
  not_configured : Loaded
  load_error : Loaded
  plaintext : Bytes → Loaded

unfoldable pub find_credential : ℕ → Bytes → List ServiceCredential → Option ServiceCredential
find_credential user service [] = none
find_credential user service (c ∷ rows) =
    let rest = find_credential user service rows in
    if c.user_id == user && (equal c.service service && c.is_active) then some c else rest

abbrev decrypted : Option Bytes → Loaded
decrypted none = load_error
decrypted (some text) = plaintext text

abbrev decrypt_row : Cipher → Option Keyring → ℕ → Option ServiceCredential → Loaded
decrypt_row cipher keyring user none = not_configured
decrypt_row cipher none user (some c) = load_error
decrypt_row cipher (some kr) user (some c) =
    decrypted (decrypt cipher kr user c.key_version c.ciphertext)

unfoldable pub decrypt_service_credentials :
    Cipher → Bool → Option Keyring → ℕ → Bytes → List ServiceCredential → Loaded
unfolding find_credential
decrypt_service_credentials cipher fails keyring user service rows =
    if fails
    then load_error
    else decrypt_row cipher keyring user (find_credential user service rows)

abbrev pub synced_services : List Bytes
synced_services =
    codes "eqsl"
    ∷ codes "clublog"
    ∷ codes "qrz"
    ∷ codes "sota"
    ∷ codes "pota"
    ∷ codes "hamqth"
    ∷ codes "lotw"
    ∷ []

unfoldable pub enabled_services_for_user : Bool → ℕ → List ServiceCredential → Option (List Bytes)
enabled_services_for_user fails user rows =
    if fails
    then none
    else some (
        map (λ (c : ServiceCredential). c.service)
          (keep (λ c. c.user_id == user && (c.is_active && member c.service synced_services)) rows))

-- The credentials of Club Log.
pub record Credentials : Type 0 where
  pub email : Bytes
  pub password : Bytes
  pub callsign : Bytes

abbrev checked : Option Credentials → Option Credentials
checked none = none
checked (some c) =
    if is_empty c.email || (is_empty c.password || is_empty c.callsign) then none else some c

-- `unmarshal` is json.Unmarshal.
unfoldable pub decode_credentials : (Bytes → Option Credentials) → Bytes → Option Credentials
decode_credentials unmarshal text = checked (unmarshal text)
