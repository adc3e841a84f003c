-- ===== src/Crypto/Keyring.antt =====
-- api/internal/crypto/crypto.go: the keyring that encrypts the credentials of the users. HKDF with
-- SHA-256 and AES-GCM (golang.org/x/crypto/hkdf, crypto/aes, crypto/cipher) are a parameter. Key
-- versions are not negative; wiping a key in memory is left out.
pub mod Rotation
use radioledger.Base.{
  ℕ, ◌+◌, ◌==◌, ◌≡◌, Bool, true, false, not, Bytes, List, [], ◌∷◌, ◌++◌, Option, none, some, length,
  leb, ltb, take, drop, if◌then◌else◌,
}
use radioledger.Base.Text.{codes}
use radioledger.Base.Decimal.{decimal}

-- `hkdf.New` read for 32 bytes, and the Seal and Open of GCM with a key of 32 bytes, with no
-- additional data: what was sealed opens under the same key and nonce, and is 16 bytes longer.
pub record Cipher : Type 0 where
  pub derive : Bytes → Bytes → Bytes
  pub seal : Bytes → Bytes → Bytes → Bytes
  pub unseal : Bytes → Bytes → Bytes → Option Bytes
  pub unseal_seal : (key nonce text : Bytes) → unseal key nonce (seal key nonce text) ≡ some text
  pub length_seal : (key nonce text : Bytes) → length (seal key nonce text) ≡ length text + 16

abbrev pub key_size : ℕ
key_size = 32

abbrev pub nonce_size : ℕ
nonce_size = 12

pub record Keyring : Type 0 where
  pub keys : List (ℕ × Bytes)
  pub current_version : ℕ

unfoldable pub new_keyring : Bytes → Option Keyring
new_keyring master_key =
    if length master_key == key_size
    then some (record { keys = (1, master_key) ∷ []; current_version = 1 })
    else none

-- A read of the map `keys`.
unfoldable pub key_at : ℕ → List (ℕ × Bytes) → Option Bytes
key_at version [] = none
key_at version ((v, k) ∷ keys) =
    let rest = key_at version keys in if v == version then some k else rest

-- `none` for an error, which leaves the keyring as it was. A new key comes first.
unfoldable pub add_key : Keyring → ℕ → Bytes → Option Keyring
add_key kr new_version new_key =
    if leb new_version kr.current_version
    then none
    else if length new_key == key_size
    then some (record { keys = (new_version, new_key) ∷ kr.keys; current_version = new_version })
    else none

-- "user:%d:v%d"
abbrev pub key_info : ℕ → ℕ → Bytes
key_info user_id key_version =
    codes "user:" ++ (decimal user_id ++ (codes ":v" ++ decimal key_version))

abbrev pub on_master : Cipher → Bytes → Option Bytes → Option Bytes
on_master cipher info none = none
on_master cipher info (some master) = some (cipher.derive master info)

unfoldable pub derive_user_key : Cipher → Keyring → ℕ → ℕ → Option Bytes
unfolding key_at
derive_user_key cipher kr user_id key_version =
    on_master cipher (key_info user_id key_version) (key_at key_version kr.keys)

-- `random` is the nonce that the random source gives, unless it fails.
abbrev pub sealed_with : Cipher → Bytes → Option Bytes → Option Bytes → Option Bytes
sealed_with cipher text random none = none
sealed_with cipher text none (some key) = none
sealed_with cipher text (some iv) (some key) = some (iv ++ cipher.seal key iv text)

abbrev pub with_version : ℕ → Option Bytes → Option (Bytes × ℕ)
with_version version none = none
with_version version (some ciphertext) = some (ciphertext, version)

unfoldable pub encrypt : Cipher → Keyring → ℕ → Bytes → Option Bytes → Option (Bytes × ℕ)
unfolding derive_user_key
encrypt cipher kr user_id text random =
    with_version kr.current_version
      (sealed_with cipher text random (derive_user_key cipher kr user_id kr.current_version))

abbrev pub unsealed_with : Cipher → Bytes → Option Bytes → Option Bytes
unsealed_with cipher ciphertext none = none
unsealed_with cipher ciphertext (some key) =
    cipher.unseal key (take nonce_size ciphertext) (drop nonce_size ciphertext)

unfoldable pub decrypt : Cipher → Keyring → ℕ → ℕ → Bytes → Option Bytes
unfolding derive_user_key
decrypt cipher kr user_id key_version ciphertext =
    if ltb (length ciphertext) (nonce_size + 16)
    then none
    else unsealed_with cipher ciphertext (derive_user_key cipher kr user_id key_version)
