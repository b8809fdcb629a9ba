-- ===== src/Privacy/Encryption.antt =====
-- packages/privacy/src/encryption.ts. AES-256-GCM, UTF-8 and the random bytes are Node's: the record
-- `Cipher` holds what the code uses of them. Initialisation vectors, tags and ciphertexts stand by their hexadecimal form.
use clawback.Prelude.{
  ℕ, ◌+◌, ◌*◌, ◌≡◌, Text, Option, none, some, List, [], ◌∷◌, ◌==◌, if◌then◌else◌, length, is_empty,
}
use clawback.Json.Quote.{hex_value}
use clawback.Json.Quote.WellFormed.{WellFormed}
use clawback.Shared.Errors.{
  Error, Result, ok, err, ◌>>=◌, key_not_set, key_not_32_bytes, decryption_failed,
}

pub record EncryptedPayload : Type 0 where
  pub iv : Text
  pub auth_tag : Text
  pub ciphertext : Text

-- `createCipheriv` and `createDecipheriv` for "aes-256-gcm": a key and an initialisation vector
-- give a ciphertext and its tag; decryption answers `none` when the tag does not fit. Encryption under the same
-- key and vector is undone by decryption. `utf8` is the encoding of a string as bytes and `from_utf8` that of `toString("utf8")`: it
-- gives back the strings without a lone surrogate, for which UTF-8 has a replacement character.
pub record Cipher : Type 0 where
  pub utf8 : Text → List ℕ
  pub from_utf8 : List ℕ → Text
  pub seal : List ℕ → Text → List ℕ → Text × Text
  pub unseal : List ℕ → Text → Text → Text → Option (List ℕ)
  pub from_utf8-utf8 : (t : Text) → WellFormed t → from_utf8 (utf8 t) ≡ t
  pub unseal_seal :
      (key : List ℕ) (iv : Text) (plaintext : List ℕ)
      → unseal key iv (seal key iv plaintext).0 (seal key iv plaintext).1 ≡ some plaintext

byte : Option ℕ → Option ℕ → Option ℕ
byte (some a) (some b) = some (a * 16 + b)
byte _ _ = none

-- `Buffer.from(hex, "hex")` stops at the first pair of characters that is no byte.
unfoldable pub from_hex : Text → List ℕ
unfolding byte hex_value
from_hex (a ∷ b ∷ s) = elim (byte (hex_value a) (hex_value b)) [
  | none ↦ []
  | some n ↦ n ∷ from_hex s
]
from_hex _ = []

-- The argument is `none` when the environment variable is not set.
unfoldable pub load_key : Option Text → Result (List ℕ)
load_key none = err key_not_set
load_key (some key_hex) =
    if is_empty key_hex
    then err key_not_set
    else if length (from_hex key_hex) == 32
    then ok (from_hex key_hex)
    else err key_not_32_bytes

module _ (cipher : Cipher) where
  -- `iv` is the hexadecimal form of the twelve random bytes of this call.
  unfoldable pub encrypt_at_rest : Text → Text → Option Text → Result EncryptedPayload
  encrypt_at_rest iv plaintext key_hex = do
    key ← load_key key_hex
    ok (record {
      iv = iv;
      auth_tag = (cipher.seal key iv (cipher.utf8 plaintext)).1;
      ciphertext = (cipher.seal key iv (cipher.utf8 plaintext)).0;
    })

  or_failed : Option (List ℕ) → Result Text
  or_failed none = err decryption_failed
  or_failed (some plaintext) = ok (cipher.from_utf8 plaintext)

  unfoldable pub decrypt_at_rest : EncryptedPayload → Option Text → Result Text
  unfolding or_failed
  decrypt_at_rest payload key_hex = do
    key ← load_key key_hex
    or_failed (cipher.unseal key payload.iv payload.ciphertext payload.auth_tag)

  -- What was encrypted under a key that is accepted.
  abbrev pub sealed : List ℕ → Text → Text → EncryptedPayload
  sealed key iv t = record {
    iv = iv;
    auth_tag = (cipher.seal key iv (cipher.utf8 t)).1;
    ciphertext = (cipher.seal key iv (cipher.utf8 t)).0;
  }

  pub encrypt-sealed :
      (key_hex : Option Text) (key : List ℕ) (iv t : Text)
      → load_key key_hex ≡ ok key
      → encrypt_at_rest iv t key_hex ≡ ok (sealed key iv t)
  unfolding encrypt_at_rest
  encrypt-sealed key_hex key iv t accepted = rw (accepted, ◌>>=◌)

  pub decrypt-sealed :
      (key_hex : Option Text) (key : List ℕ) (iv t : Text)
      → load_key key_hex ≡ ok key
      → WellFormed t
      → decrypt_at_rest (sealed key iv t) key_hex ≡ ok t
  unfolding decrypt_at_rest
  decrypt-sealed key_hex key iv t accepted whole =
      rw (accepted, ◌>>=◌, cipher.unseal_seal key iv (cipher.utf8 t), cipher.from_utf8-utf8 t whole)

  -- A key that encryption refuses is refused by decryption with the same error.
  pub key_refused :
      (key_hex : Option Text) (e : Error)
      → load_key key_hex ≡ err e
      → ((iv t : Text) → encrypt_at_rest iv t key_hex ≡ err e)
        × ((payload : EncryptedPayload) → decrypt_at_rest payload key_hex ≡ err e)
  unfolding encrypt_at_rest decrypt_at_rest
  key_refused key_hex e refused = (λ iv t. rw (refused, ◌>>=◌), λ payload. rw (refused, ◌>>=◌))
