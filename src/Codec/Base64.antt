-- ===== src/Codec/Base64.antt =====
-- `decode64` undoes `encode64`, over iterators that are inverse to one another.
use nipovpn.Base.{
  ℕ, zero, suc, ◌≡◌, refl, ap, ◌∙◌, some, [], ◌∷◌, ◌++◌, Bytes, IsByte, Lacks, All, replicate,
  ==_ne,
}
use nipovpn.Codec.{Base64Iterators, trim_padding, decode64, encode64}

-- What Boost documents of its iterators: `base64_from_binary` writes the 64 symbols, of which `=`
-- is none, and `binary_from_base64` inverts it on whole bytes.
pub record IsBase64 (b : Base64Iterators) : Type 0 where
  pub inverts : (s : Bytes) → All IsByte s → b.bytes_of (b.symbols_of s) ≡ some s
  pub no_padding : (s : Bytes) → All IsByte s → Lacks b'=' (b.symbols_of s)

trim_padding-replicate : (n : ℕ) → trim_padding (replicate n b'=') ≡ []
unfolding trim_padding
trim_padding-replicate zero = refl
trim_padding-replicate (suc n) = rw (trim_padding-replicate n)

trim_padding-append : (s : Bytes) (n : ℕ) → Lacks b'=' s → trim_padding (s ++ replicate n b'=') ≡ s
unfolding trim_padding
trim_padding-append [] n h = trim_padding-replicate n
trim_padding-append (c ∷ []) n h = rw (trim_padding-replicate n, ==_ne c b'=' h.0)
trim_padding-append (c ∷ d ∷ s) n h = rw (trim_padding-append (d ∷ s) n h.1)

-- For bytes below 256, and iterators of Boost as in `IsBase64`, `decode64` gives back what
-- `encode64` wrote, padding included.
pub decode64-encode64 :
    (b : Base64Iterators) (s : Bytes)
    → IsBase64 b
    → All IsByte s
    → decode64 b (encode64 b s) ≡ some s
unfolding decode64 encode64
decode64-encode64 b s law h =
    ap b.bytes_of (trim_padding-append (b.symbols_of s) _ (law.no_padding s h)) ∙ law.inverts s h
