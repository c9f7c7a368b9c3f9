-- ===== src/Http/ClientHello.antt =====
-- A ClientHello as a record of its fields and as the text that `parseTls` of core/src/http.cpp reads.
use nipovpn.Base.{
  ℕ, ◌+◌, ◌*◌, ◌/◌, ◌%◌, ◌^◌, ◌≤◌, ◌<◌, ◌≡◌, refl, ap, ◌∙◌, [], ◌∷◌, ◌++◌, Bytes, IsByte, All,
  length, length-append, take, drop, take_at, drop_at, arith, ge→ltb,
}
use nipovpn.Codec.{hex_arr_to_str, hex_digit}
use nipovpn.Codec.Hex.{length-hex_arr_to_str, u16_bytes}
use nipovpn.Env.{ok}
use nipovpn.Http.{substr}

hex-append : (a b : Bytes) → hex_arr_to_str (a ++ b) ≡ hex_arr_to_str a ++ hex_arr_to_str b
unfolding hex_arr_to_str
hex-append [] b = refl
hex-append (c ∷ a) b = ap (λ t. hex_digit (c / 16) ∷ hex_digit (c % 16) ∷ t) (hex-append a b)

-- Cutting the digits of a middle part out of the digits of the whole.
pub substr-hex :
    (a b c : Bytes) (at n : ℕ)
    → at ≡ 2 * length a
    → n ≡ 2 * length b
    → substr (hex_arr_to_str (a ++ (b ++ c))) at n ≡ ok (hex_arr_to_str b)
unfolding substr
substr-hex a b c at n ea eb =
    let digits : hex_arr_to_str (a ++ (b ++ c))
        ≡ hex_arr_to_str a ++ (hex_arr_to_str b ++ hex_arr_to_str c) =
      hex-append a (b ++ c) ∙ ap (λ t. hex_arr_to_str a ++ t) (hex-append b c) in
    let fits : at ≤ length (hex_arr_to_str (a ++ (b ++ c))) =
      omega (arith, length-hex_arr_to_str (a ++ (b ++ c)), length-append a (b ++ c)) in
    rw (ge→ltb _ at fits) (
      ap ok (
        ap (λ t. take n (drop at t)) digits
        ∙ ap (take n) (drop_at at (hex_arr_to_str a) _ (omega (arith, length-hex_arr_to_str a)))
        ∙ take_at n (hex_arr_to_str b) _ (omega (arith, length-hex_arr_to_str b))))

pub substr-fits : (s : Bytes) (at n : ℕ) → at ≤ length s → substr s at n ≡ ok (take n (drop at s))
unfolding substr
substr-fits s at n h = rw (ge→ltb (length s) at h)

-- A ClientHello in the fields that the program walks over. `intro` ends with the random bytes, and
-- `kinds` stands for the three fields between the type of the extension and the size of the name.
pub record ClientHello : Type 0 where
  pub intro : Bytes
  pub session : Bytes
  pub suites : Bytes
  pub methods : Bytes
  pub extensions_size : ℕ
  pub kinds : Bytes
  pub name : Bytes
  pub rest : Bytes

-- The fields in order, each with its size in front.
abbrev pub encode : ClientHello → Bytes
encode m =
    m.intro
    ++ ((length m.session ∷ [])
        ++ (m.session
            ++ (u16_bytes (length m.suites)
                ++ (m.suites
                    ++ ((length m.methods ∷ [])
                        ++ (m.methods
                            ++ (u16_bytes m.extensions_size
                                ++ (u16_bytes 0
                                    ++ (m.kinds
                                        ++ (u16_bytes (length m.name)
                                            ++ (m.name ++ m.rest)))))))))))

pub record IsClientHello (m : ClientHello) : Type 0 where
  pub intro_size : length m.intro ≡ 43
  pub kinds_size : length m.kinds ≡ 5
  pub session_fits : length m.session < 256
  pub methods_fits : length m.methods < 256
  pub fits : length (encode m) < 2 ^ 15
  pub name_bytes : All IsByte m.name

-- The lengths before each field.
pub lengths :
    (m : ClientHello)
    → length (encode m)
      ≡ length m.intro
        + 1
        + length m.session
        + 2
        + length m.suites
        + 1
        + length m.methods
        + 4
        + length m.kinds
        + 2
        + length m.name
        + length m.rest
lengths m = omega (
  arith,
  length-append m.intro (
      (length m.session ∷ [])
      ++ (m.session
          ++ (u16_bytes (length m.suites)
              ++ (m.suites
                  ++ ((length m.methods ∷ [])
                      ++ (m.methods
                          ++ (u16_bytes m.extensions_size
                              ++ (u16_bytes 0
                                  ++ (m.kinds
                                      ++ (u16_bytes (length m.name) ++ (m.name ++ m.rest))))))))))),
  length-append m.session (
      u16_bytes (length m.suites)
      ++ (m.suites
          ++ ((length m.methods ∷ [])
              ++ (m.methods
                  ++ (u16_bytes m.extensions_size
                      ++ (u16_bytes 0
                          ++ (m.kinds ++ (u16_bytes (length m.name) ++ (m.name ++ m.rest))))))))),
  length-append m.suites (
      (length m.methods ∷ [])
      ++ (m.methods
          ++ (u16_bytes m.extensions_size
              ++ (u16_bytes 0 ++ (m.kinds ++ (u16_bytes (length m.name) ++ (m.name ++ m.rest))))))),
  length-append m.methods (
      u16_bytes m.extensions_size
      ++ (u16_bytes 0 ++ (m.kinds ++ (u16_bytes (length m.name) ++ (m.name ++ m.rest))))),
  length-append m.kinds (u16_bytes (length m.name) ++ (m.name ++ m.rest)),
  length-append m.name m.rest,
)
