-- ===== src/Crypto/Keyring/Rotation.antt =====
-- The keyring of api/internal/crypto/crypto.go over the rotation of its keys.
use mathlib.Core.Path.{subst}
use radioledger.Base.{
  ℕ, ◌+◌, ◌<◌, ◌≤◌, ◌≡◌, refl, sym, ◌∙◌, false, Bytes, ◌∷◌, ◌++◌, Option, some, length,
  length-append, take, drop, take-append, drop-append, ltb, arith, Option-cases, inl, inr,
}
use radioledger.Crypto.Keyring.{
  Cipher, Keyring, nonce_size, key_at, add_key, key_info, derive_user_key, encrypt, decrypt,
  unsealed_with,
}

-- `kr'` comes from `kr` by rotations.
pub data Rotated (kr : Keyring) : Keyring → Type 0 where
  same : Rotated kr kr
  later :
      {kr' kr'' : Keyring} (version : ℕ) (key : Bytes)
      → Rotated kr kr'
      → add_key kr' version key ≡ some kr''
      → Rotated kr kr''

add_key-keeps :
    (kr : Keyring) (version : ℕ) (key : Bytes) {kr' : Keyring} (v : ℕ)
    → add_key kr version key ≡ some kr'
    → v ≤ kr.current_version
    → (key_at v kr'.keys ≡ key_at v kr.keys) × (v ≤ kr'.current_version)
unfolding add_key key_at
add_key-keeps kr version key {kr'} v h le =
    let added : kr'.keys ≡ (version, key) ∷ kr.keys = ground arith in
    let newer : kr.current_version < version = ground arith in
    (rw added (ground arith), ground arith)

Rotated-keeps :
    {kr kr' : Keyring}
    → Rotated kr kr'
    → (key_at kr.current_version kr'.keys ≡ key_at kr.current_version kr.keys)
      × (kr.current_version ≤ kr'.current_version)
Rotated-keeps same = (refl, omega arith)
Rotated-keeps {kr} (later {kr'} version key r h) =
    let (kept, le) = Rotated-keeps r in
    let (kept', le') = add_key-keeps kr' version key kr.current_version h le in (kept' ∙ kept, le')

-- What opens under one keyring opens under any with the same key for the version.
decrypt-key_at :
    (cipher : Cipher) (kr kr' : Keyring) (user_id version : ℕ) (ciphertext : Bytes)
    → key_at version kr'.keys ≡ key_at version kr.keys
    → decrypt cipher kr' user_id version ciphertext ≡ decrypt cipher kr user_id version ciphertext
unfolding decrypt derive_user_key
decrypt-key_at cipher kr kr' user_id version ciphertext h = rw h refl

unsealed_with-sealed :
    (cipher : Cipher) (text iv key : Bytes)
    → length iv ≡ nonce_size
    → unsealed_with cipher (iv ++ cipher.seal key iv text) (some key) ≡ some text
unsealed_with-sealed cipher text iv key l =
    let sealed = cipher.seal key iv text in
    subst (λ n. cipher.unseal key (take n (iv ++ sealed)) (drop n (iv ++ sealed)) ≡ some text) l
      (rw (take-append iv sealed, drop-append iv sealed) (cipher.unseal_seal key iv text))

decrypt-encrypt :
    (cipher : Cipher) (kr : Keyring) (user_id : ℕ) (text iv : Bytes) {ciphertext : Bytes}
    {version : ℕ}
    → length iv ≡ nonce_size
    → encrypt cipher kr user_id text (some iv) ≡ some (ciphertext, version)
    → (version ≡ kr.current_version) × (decrypt cipher kr user_id version ciphertext ≡ some text)
unfolding encrypt decrypt
decrypt-encrypt cipher kr user_id text iv {ciphertext} {version} l h =
    elim (Option-cases (key_at kr.current_version kr.keys)) [
      | inl missing ↦ absurd (ground (arith, missing))
      | inr (master, found) ↦
          let key = cipher.derive master (key_info user_id kr.current_version) in
          let sealed = iv ++ cipher.seal key iv text in
          let made : ◌≡◌ {A = Option (Bytes × ℕ)} (some (sealed, kr.current_version))
              (some (ciphertext, version)) =
            rw (found, encrypt) at h in
          let text_is : sealed ≡ ciphertext = ground arith in
          let version_is : kr.current_version ≡ version = ground arith in
          let long : ltb (length sealed) (nonce_size + 16) ≡ false =
            ground
              (arith, length-append iv (cipher.seal key iv text), cipher.length_seal key iv text) in
          (
            sym version_is,
            rw (sym text_is, sym version_is)
                (rw (decrypt, long, found) (unsealed_with-sealed cipher text iv key l)),
          )
    ]

-- What Encrypt gives for a user, with the version that it returns, is decrypted for that user to the
-- same text by the keyring behind any rotations of its keys, as long as the random source gives 12
-- bytes.
pub decrypt-Rotated :
    (cipher : Cipher) {kr kr' : Keyring} (user_id : ℕ) (text iv : Bytes) {ciphertext : Bytes}
    {version : ℕ}
    → length iv ≡ nonce_size
    → encrypt cipher kr user_id text (some iv) ≡ some (ciphertext, version)
    → Rotated kr kr'
    → decrypt cipher kr' user_id version ciphertext ≡ some text
decrypt-Rotated cipher {kr} {kr'} user_id text iv {ciphertext} {version} l h r =
    let (current, opens) = decrypt-encrypt cipher kr user_id text iv l h in
    let kept : key_at version kr'.keys ≡ key_at version kr.keys = rw current (Rotated-keeps r).0 in
    decrypt-key_at cipher kr kr' user_id version ciphertext kept ∙ opens
