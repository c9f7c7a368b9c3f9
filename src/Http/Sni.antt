-- ===== src/Http/Sni.antt =====
-- `parseTls` on a ClientHello whose first extension is the server name: the name that was sent is
-- the name that is read, as long as every position fits an `unsigned short`.
use nipovpn.Base.{
  ℕ, ◌+◌, ◌*◌, ◌^◌, ◌≤◌, ◌<◌, ◌≡◌, refl, ap, ◌∙◌, some, [], ◌∷◌, ◌++◌, Bytes, length, length-append,
  arith, append_assoc,
}
use nipovpn.Codec.{hex_arr_to_str, hex_to_int}
use nipovpn.Codec.Hex.{
  length-hex_arr_to_str, hex_to_ascii-hex_arr_to_str, u16_bytes, hex_to_int-byte,
  hex_to_int-u16_bytes,
}
use nipovpn.Env.{ok}
use nipovpn.Http.{client_hello_sni, substr, u16, server_name}
use nipovpn.Http.ClientHello.{substr-hex, substr-fits, ClientHello, encode, IsClientHello, lengths}

module _ (m : ClientHello) (v : IsClientHello m) where
  digits : Bytes
  digits = hex_arr_to_str (encode m)

  length-digits : length digits ≡ 2 * length (encode m)
  unfolding digits
  length-digits = length-hex_arr_to_str (encode m)

  -- The part of the digits that stands for the bytes `b` behind the bytes `a`.
  cut :
      (a b c : Bytes) (at n : ℕ)
      → encode m ≡ a ++ (b ++ c)
      → at ≡ 2 * length a
      → n ≡ 2 * length b
      → substr digits at n ≡ ok (hex_arr_to_str b)
  unfolding digits
  cut a b c at n e ea eb = ap (λ t. substr (hex_arr_to_str t) at n) e ∙ substr-hex a b c at n ea eb

  -- What stands before the sizes of the cipher suites, the compression methods and the extensions.
  before_suites : Bytes
  before_suites = m.intro ++ ((length m.session ∷ []) ++ m.session)

  before_methods : Bytes
  before_methods = before_suites ++ (u16_bytes (length m.suites) ++ m.suites)

  before_extensions : Bytes
  before_extensions = before_methods ++ ((length m.methods ∷ []) ++ m.methods)

  before_name : Bytes
  before_name = before_extensions ++ (u16_bytes m.extensions_size ++ (u16_bytes 0 ++ m.kinds))

  length-before_suites : length before_suites ≡ 44 + length m.session
  unfolding before_suites
  length-before_suites =
      omega (arith, length-append m.intro ((length m.session ∷ []) ++ m.session), v.intro_size)

  length-before_methods : length before_methods ≡ 46 + length m.session + length m.suites
  unfolding before_methods
  length-before_methods = omega (
    arith,
    length-append before_suites (u16_bytes (length m.suites) ++ m.suites),
    length-before_suites,
  )

  length-before_extensions :
      length before_extensions ≡ 47 + length m.session + length m.suites + length m.methods
  unfolding before_extensions
  length-before_extensions = omega (
    arith,
    length-append before_methods ((length m.methods ∷ []) ++ m.methods),
    length-before_methods,
  )

  length-before_name :
      length before_name ≡ 56 + length m.session + length m.suites + length m.methods
  unfolding before_name
  length-before_name = omega (
    arith,
    length-append before_extensions (u16_bytes m.extensions_size ++ (u16_bytes 0 ++ m.kinds)),
    length-before_extensions,
    v.kinds_size,
  )

  abbrev from_name : Bytes
  from_name = m.kinds ++ (u16_bytes (length m.name) ++ (m.name ++ m.rest))

  abbrev from_extensions : Bytes
  from_extensions = u16_bytes m.extensions_size ++ (u16_bytes 0 ++ from_name)

  abbrev from_methods : Bytes
  from_methods = (length m.methods ∷ []) ++ (m.methods ++ from_extensions)

  session_read : substr digits 86 2 ≡ ok (hex_arr_to_str (length m.session ∷ []))
  session_read =
      cut m.intro (length m.session ∷ [])
        (m.session ++ (u16_bytes (length m.suites) ++ (m.suites ++ from_methods))) 86 2 refl
        (omega (arith, v.intro_size)) refl

  suites_read :
      (at : ℕ)
      → at ≡ 88 + 2 * length m.session
      → substr digits at 4 ≡ ok (hex_arr_to_str (u16_bytes (length m.suites)))
  suites_read at e =
      cut before_suites (u16_bytes (length m.suites)) (m.suites ++ from_methods) at 4
        (unfold before_suites in simp append_assoc) (omega (arith, length-before_suites)) refl

  methods_read :
      (at : ℕ)
      → at ≡ 92 + 2 * length m.session + 2 * length m.suites
      → substr digits at 2 ≡ ok (hex_arr_to_str (length m.methods ∷ []))
  methods_read at e =
      cut before_methods (length m.methods ∷ []) (m.methods ++ from_extensions) at 2
        (unfold before_methods before_suites in simp append_assoc)
        (omega (arith, length-before_methods)) refl

  type_read :
      (at : ℕ)
      → at ≡ 98 + 2 * length m.session + 2 * length m.suites + 2 * length m.methods
      → substr digits at 4 ≡ ok (hex_arr_to_str (u16_bytes 0))
  type_read at e =
      cut (before_extensions ++ u16_bytes m.extensions_size) (u16_bytes 0) from_name at 4
        (unfold before_extensions before_methods before_suites in simp append_assoc)
        (omega (
          arith,
          length-before_extensions,
          length-append before_extensions (u16_bytes m.extensions_size),
        ))
        refl

  name_size_read :
      (at : ℕ)
      → at ≡ 112 + 2 * length m.session + 2 * length m.suites + 2 * length m.methods
      → substr digits at 4 ≡ ok (hex_arr_to_str (u16_bytes (length m.name)))
  name_size_read at e =
      cut before_name (u16_bytes (length m.name)) (m.name ++ m.rest) at 4
        (unfold before_name before_extensions before_methods before_suites in simp append_assoc)
        (omega (arith, length-before_name)) refl

  name_text_read :
      (at n : ℕ)
      → at ≡ 116 + 2 * length m.session + 2 * length m.suites + 2 * length m.methods
      → n ≡ 2 * length m.name
      → substr digits at n ≡ ok (hex_arr_to_str m.name)
  name_text_read at n e en =
      cut (before_name ++ u16_bytes (length m.name)) m.name m.rest at n
        (unfold before_name before_extensions before_methods before_suites in simp append_assoc)
        (omega (arith, length-before_name, length-append before_name (u16_bytes (length m.name))))
        en

  name_read :
      (at : ℕ)
      → at ≡ 112 + 2 * length m.session + 2 * length m.suites + 2 * length m.methods
      → server_name digits at ≡ ok (some m.name)
  name_read at e =
      let sized = hex_to_int (hex_arr_to_str (u16_bytes (length m.name))) in
      let size : sized ≡ length m.name =
        hex_to_int-u16_bytes (length m.name) (omega (arith, lengths m, v.fits)) in
      rw (name_size_read at e) (
        rw
          (name_text_read (u16 (at + 4)) (u16 sized * 2)
            (omega (arith, lengths m, v.fits, v.intro_size, v.kinds_size))
            (omega (arith, size, lengths m, v.fits)))
          (rw (hex_to_ascii-hex_arr_to_str m.name v.name_bytes)))

  sni_read : client_hello_sni digits ≡ ok (some m.name)
  unfolding client_hello_sni
  sni_read =
      let session = u16 (hex_to_int (hex_arr_to_str (length m.session ∷ []))) in
      let suites = u16 (hex_to_int (hex_arr_to_str (u16_bytes (length m.suites)))) in
      let methods = u16 (hex_to_int (hex_arr_to_str (length m.methods ∷ []))) in
      let suites_at = u16 (88 + session * 2) in
      let methods_at = u16 (u16 (suites_at + 4) + suites * 2) in
      let extensions_at = u16 (u16 (methods_at + 2) + methods * 2) in
      let type_at = u16 (extensions_at + 4) in
      let size : length (encode m) < 2 ^ 15 = v.fits in
      let all = lengths m in
      let s : session ≡ length m.session =
        omega (arith, hex_to_int-byte (length m.session) v.session_fits, v.session_fits) in
      let c : suites ≡ length m.suites =
        omega (arith, hex_to_int-u16_bytes (length m.suites) (omega arith)) in
      let t : methods ≡ length m.methods =
        omega (arith, hex_to_int-byte (length m.methods) v.methods_fits, v.methods_fits) in
      let whole : length digits ≡ 2 * length (encode m) = length-digits in
      let long : 43 ≤ length m.intro = omega (arith, v.intro_size) in
      let at₁ : suites_at ≡ 88 + 2 * length m.session = omega (arith, v.intro_size, v.kinds_size) in
      let at₂ : methods_at ≡ 92 + 2 * length m.session + 2 * length m.suites =
        omega (arith, v.intro_size, v.kinds_size) in
      let at₃ : extensions_at
          ≡ 94 + 2 * length m.session + 2 * length m.suites + 2 * length m.methods =
        omega (arith, v.intro_size, v.kinds_size) in
      rw session_read (
        rw (substr-fits digits 88 session (omega (arith, v.intro_size, v.kinds_size))) (
          rw (suites_read suites_at at₁) (
            rw (methods_read methods_at at₂) (
              rw (substr-fits digits extensions_at 4 (omega (arith, v.intro_size, v.kinds_size))) (
                rw (type_read type_at (omega (arith, v.intro_size, v.kinds_size))) (
                  rw (hex_to_int-u16_bytes 0 (omega arith)) (
                    name_read (u16 (type_at + 14))
                      (omega (arith, v.intro_size, v.kinds_size)))))))))

  -- Of a ClientHello whose first extension is the server name, the name that is read is the name
  -- that was sent. The message has fewer than 2^15 bytes, so that every position in its digits fits
  -- an `unsigned short`, its fields have the sizes of the protocol, and the name is made of bytes.
  pub client_hello_sni-encode : client_hello_sni (hex_arr_to_str (encode m)) ≡ ok (some m.name)
  unfolding digits
  client_hello_sni-encode = sni_read
