-- ===== src/Env/Laws.antt =====
-- Documented behaviour of the outside components, each law a hypothesis of the theorems that rest
-- on it.
use nipovpn.Base.{ℕ, ◌≤◌, ◌<◌, ◌≡◌, true, some, ◌++◌, Bytes, IsByte, All, length}
use nipovpn.Env.{Env, got, Stream}

-- The cipher: a vector has 16 bytes, and what was encrypted decrypts under the same key and vector.
pub record IsCipher (e : Env) : Type 0 where
  pub iv_size : (w : e.World) (iv : Bytes) → (e.rand_bytes w).0 ≡ some iv → length iv ≡ 16
  pub iv_bytes : (w : e.World) (iv : Bytes) → (e.rand_bytes w).0 ≡ some iv → All IsByte iv
  pub cipher_bytes :
      (key iv plain head last : Bytes)
      → e.encrypt_update key iv plain ≡ some head
      → e.encrypt_final key iv plain ≡ some last
      → All IsByte (head ++ last)
  -- The context may be refused memory; the cipher itself accepts what it made.
  pub inverts :
      (key iv plain head last : Bytes)
      → e.encrypt_update key iv plain ≡ some head
      → e.encrypt_final key iv plain ≡ some last
      → (e.decrypt_init key iv ≡ true)
        × (head' : Bytes) × (last' : Bytes) × (e.decrypt_update key iv (head ++ last) ≡ some head')
        × (e.decrypt_final key iv (head ++ last) ≡ some last')
        × (head' ++ last' ≡ plain)

-- A read that returns gives at least one byte and no more than the buffer holds.
pub record IsReader (e : Env) : Type 0 where
  pub reads_some :
      (s : Stream) (n : ℕ) (w : e.World) (bytes : Bytes)
      → 0 < n
      → (e.read_some s n w).0 ≡ got bytes
      → (0 < length bytes) × (length bytes ≤ n)
