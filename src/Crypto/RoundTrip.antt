-- ===== src/Crypto/RoundTrip.antt =====
-- `aes256Decrypt` undoes `aes256Encrypt`.
use nipovpn.Base.{
  ◌≤◌, ◌≡◌, sym, ap, ◌∙◌, true, some, ◌++◌, Bytes, IsByte, All, All-append, length, length-append,
  take, drop, take_at, drop_at, arith, Option-cases, inl, inr, ge→ltb,
}
use nipovpn.Env.{Env, ok}
use nipovpn.Env.Laws.{IsCipher}
use nipovpn.Crypto.{success, iv_length, aes256_encrypt, aes256_decrypt}

-- How a successful encryption came about.
pub record Encrypts (e : Env) (plain key : Bytes) (w : e.World) (text : Bytes) : Type 0 where
  pub iv : Bytes
  pub head : Bytes
  pub last : Bytes
  pub drawn : (e.rand_bytes w).0 ≡ some iv
  pub updated : e.encrypt_update key iv plain ≡ some head
  pub finished : e.encrypt_final key iv plain ≡ some last
  pub layout : text ≡ iv ++ (head ++ last)

module _ (e : Env) where
  pub aes256_encrypt-Encrypts :
      (plain key : Bytes) (w : e.World) (text : Bytes)
      → (aes256_encrypt e plain key w).0 ≡ success text
      → Encrypts e plain key w text
  unfolding aes256_encrypt
  aes256_encrypt-Encrypts plain key w text h = elim (Option-cases (e.rand_bytes w).0) [
    | inl no_iv ↦ ground arith
    | inr (iv, drawn) ↦ elim (Option-cases (e.encrypt_update key iv plain)) [
      | inl f ↦ ground arith
      | inr (head, updated) ↦ elim (Option-cases (e.encrypt_final key iv plain)) [
        | inl f ↦ ground arith
        | inr (last, finished) ↦ record {
          iv = iv;
          head = head;
          last = last;
          drawn = drawn;
          updated = updated;
          finished = finished;
          layout = ground arith;
        }
      ]
    ]
  ]

  -- Decrypting what was encrypted under the same key gives the text back, for a cipher as in
  -- `IsCipher` and if a cipher context can be made.
  pub aes256_decrypt-encrypt :
      (plain key : Bytes) (w w' : e.World) (text : Bytes)
      → IsCipher e
      → (aes256_encrypt e plain key w).0 ≡ success text
      → (e.ctx_new w').0 ≡ true
      → (aes256_decrypt e text key w').0 ≡ ok (success plain)
  unfolding aes256_decrypt
  aes256_decrypt-encrypt plain key w w' text law h made =
      let p = aes256_encrypt-Encrypts plain key w text h in
      let size = law.iv_size w p.iv p.drawn in
      let (ready, head', last', updated, finished, whole) =
        law.inverts key p.iv plain p.head p.last p.updated p.finished in
      let long : iv_length ≤ length text =
        omega (arith, ap length p.layout, length-append p.iv (p.head ++ p.last)) in
      let vector : take iv_length text ≡ p.iv =
        ap (take iv_length) p.layout ∙ take_at iv_length p.iv (p.head ++ p.last) (sym size) in
      let cipher : drop iv_length text ≡ p.head ++ p.last =
        ap (drop iv_length) p.layout ∙ drop_at iv_length p.iv (p.head ++ p.last) (sym size) in
      rw (ge→ltb (length text) iv_length long, made, vector, cipher, ready, updated)
        (rw finished (ap (λ t. ok (success t)) whole))

  -- What is sent is a vector and the cipher text, all of it bytes.
  pub aes256_encrypt-IsByte :
      (plain key : Bytes) (w : e.World) (text : Bytes)
      → IsCipher e
      → (aes256_encrypt e plain key w).0 ≡ success text
      → All IsByte text × (iv_length ≤ length text)
  aes256_encrypt-IsByte plain key w text law h =
      let p = aes256_encrypt-Encrypts plain key w text h in
      (
        rw p.layout (
            All-append IsByte p.iv (p.head ++ p.last) (law.iv_bytes w p.iv p.drawn)
              (law.cipher_bytes key p.iv plain p.head p.last p.updated p.finished)),
        omega (
          arith,
          ap length p.layout,
          length-append p.iv (p.head ++ p.last),
          law.iv_size w p.iv p.drawn,
        ),
      )

  -- Of a text with a vector in it, decryption uses up a context and changes nothing else.
  aes256_decrypt-world :
      (text key : Bytes) (w : e.World)
      → iv_length ≤ length text
      → (aes256_decrypt e text key w).1 ≡ (e.ctx_new w).1
  unfolding aes256_decrypt
  aes256_decrypt-world text key w long = rw (ge→ltb (length text) iv_length long) (ground arith)

  pub aes256_decrypt-encrypt_run :
      (plain key : Bytes) (w w' : e.World) (text : Bytes)
      → IsCipher e
      → (aes256_encrypt e plain key w).0 ≡ success text
      → (e.ctx_new w').0 ≡ true
      → aes256_decrypt e text key w' ≡ (ok (success plain), (e.ctx_new w').1)
  aes256_decrypt-encrypt_run plain key w w' text law h made =
      let result = aes256_decrypt-encrypt plain key w w' text law h made in
      let world =
        aes256_decrypt-world text key w' (aes256_encrypt-IsByte plain key w text law h).1 in
      λ i. (result i, world i)
