-- ===== src/Crypto.antt =====
-- core/src/general.hpp: `aes256Encrypt` and `aes256Decrypt`, over the cipher of OpenSSL.
pub mod RoundTrip
use nipovpn.Base.{
  ℕ, Bool, true, false, not, Option, none, some, ◌++◌, Bytes, codes, length, take, drop, ltb,
  if◌then◌else◌,
}
use nipovpn.Env.{Env, Except, ok, throw}

-- BoolStr, with its constructor functions: a failure with its message, and a success.
pub record BoolStr : Type 0 where
  pub good : Bool
  pub text : Bytes

abbrev pub failure : Bytes → BoolStr
failure text = record { good = false; text = text }

abbrev pub success : Bytes → BoolStr
success text = record { good = true; text = text }

-- `EVP_CIPHER_iv_length(EVP_aes_256_cbc())`, and `EVP_MAX_IV_LENGTH`.
abbrev pub iv_length : ℕ
iv_length = 16

module _ (e : Env) where
  open e use {
    World, rand_bytes, ctx_new, encrypt_init, encrypt_update, encrypt_final, decrypt_init,
    decrypt_update, decrypt_final,
  }

  abbrev pub encrypt_last : Bytes → Bytes → Option Bytes → BoolStr
  encrypt_last iv head none = failure (codes "Encryption finalization failed")
  encrypt_last iv head (some last) = success (iv ++ (head ++ last))

  abbrev pub encrypt_rest : Bytes → Bytes → Bytes → Option Bytes → BoolStr
  encrypt_rest key iv plain none = failure (codes "Encryption update failed")
  encrypt_rest key iv plain (some head) = encrypt_last iv head (encrypt_final key iv plain)

  abbrev pub encrypt_under : Bytes → Bytes → Bytes → BoolStr
  encrypt_under key iv plain =
      if not (encrypt_init key iv)
      then failure (codes "Encryption initialization failed")
      else encrypt_rest key iv plain (encrypt_update key iv plain)

  abbrev pub with_ctx : Bool × World → Bytes → BoolStr → BoolStr × World
  with_ctx (made, w) message result = if not made then (failure message, w) else (result, w)

  abbrev pub encrypt_with : Option Bytes × World → Bytes → Bytes → BoolStr × World
  encrypt_with (none, w) plain key = (failure (codes "IV generation failed"), w)
  encrypt_with (some iv, w) plain key =
      with_ctx (ctx_new w) (codes "Context initialization failed") (encrypt_under key iv plain)

  -- aes256Encrypt: the vector, and the cipher text behind it.
  unfoldable pub aes256_encrypt : Bytes → Bytes → World → BoolStr × World
  aes256_encrypt plain key w = encrypt_with (rand_bytes w) plain key

  abbrev pub decrypt_last : Bytes → Option Bytes → BoolStr
  decrypt_last head none = failure (codes "Decryption finalization failed")
  decrypt_last head (some last) = success (head ++ last)

  abbrev pub decrypt_rest : Bytes → Bytes → Bytes → Option Bytes → BoolStr
  decrypt_rest key iv cipher none = failure (codes "Decryption update failed")
  decrypt_rest key iv cipher (some head) = decrypt_last head (decrypt_final key iv cipher)

  abbrev pub decrypt_under : Bytes → Bytes → Bytes → BoolStr
  decrypt_under key iv cipher =
      if not (decrypt_init key iv)
      then failure (codes "Decryption initialization failed")
      else decrypt_rest key iv cipher (decrypt_update key iv cipher)

  abbrev pub returned : BoolStr × World → Except BoolStr × World
  returned (r, w) = (ok r, w)

  -- aes256Decrypt. A text shorter than a vector throws in `substr`; the source copies the 16 bytes
  -- of the vector before that.
  unfoldable pub aes256_decrypt : Bytes → Bytes → World → Except BoolStr × World
  aes256_decrypt text key w =
      if ltb (length text) iv_length
      then (throw, w)
      else returned (
          with_ctx (ctx_new w) (codes "Context initialization failed")
            (decrypt_under key (take iv_length text) (drop iv_length text)))
