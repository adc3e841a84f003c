-- ===== src/Crypto/Examples.antt =====
-- A run of api/internal/crypto: a text that is sealed before a rotation is opened behind it.
use radioledger.Base.{◌≡◌, refl, Bytes, [], ◌∷◌, ◌++◌, some, drop, arith}
use radioledger.Base.Text.{codes}
use radioledger.Crypto.Keyring.{Cipher, Keyring, new_keyring, add_key, encrypt, decrypt}
use radioledger.Crypto.Keyring.Rotation.{Rotated, same, later, decrypt-Rotated}

-- A cipher that puts a tag of 16 bytes in front.
abbrev tag : Bytes
tag = codes "0123456789abcdef"

abbrev open_cipher : Cipher
open_cipher = record {
  derive = λ master info. master;
  seal = λ key nonce text. tag ++ text;
  unseal = λ key nonce sealed. some (drop 16 sealed);
  unseal_seal = λ key nonce text. refl;
  length_seal = λ key nonce text. omega arith;
}

abbrev key_of_32 : Bytes
key_of_32 = tag ++ tag

abbrev ring : Keyring
ring = record { keys = (1, key_of_32) ∷ []; current_version = 1 }

abbrev rotated_ring : Keyring
rotated_ring = record { keys = (2, key_of_32) ∷ (1, key_of_32) ∷ []; current_version = 2 }

ring_is_new : new_keyring key_of_32 ≡ some ring
unfolding new_keyring
ring_is_new = refl

rotated : Rotated ring rotated_ring
unfolding add_key
rotated = later 2 key_of_32 same refl

decrypt-Rotated_example :
    decrypt open_cipher rotated_ring 7 1 (codes "abcdefghijkl" ++ (tag ++ codes "secret"))
    ≡ some (codes "secret")
unfolding encrypt
decrypt-Rotated_example =
    decrypt-Rotated open_cipher 7 (codes "secret") (codes "abcdefghijkl") refl refl rotated
