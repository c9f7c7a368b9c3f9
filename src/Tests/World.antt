-- ===== src/Tests/World.antt =====
-- An example of the outside components: a cipher that leaves a text as it is behind a vector of
-- zeros, a Base64 of hexadecimal digits, and a network that delivers a list of texts. It meets the
-- laws of `Env.Laws`.
use nipovpn.Base.{
  ℕ, ◌/◌, ◌%◌, ◌≤◌, ◌<◌, ◌≡◌, refl, Bool, true, false, Option, none, some, List, [], ◌∷◌, ◌++◌,
  append-nil, Bytes, codes, Lacks, IsByte, All, arith, length, take, replicate, length-take,
  if◌then◌else◌, ltb, ◌&&◌, inl, inr, Bool-cases,
}
use nipovpn.Text.{starts_with}
use nipovpn.Codec.{Base64Iterators, hex_digit, hex_arr_to_str, hex_to_ascii}
use nipovpn.Codec.Hex.{hex_to_ascii-hex_arr_to_str}
use nipovpn.Codec.Base64.{IsBase64}
use nipovpn.Env.{Env, ok, Request, NetError, eof, connected, Read, got, failed, sent}
use nipovpn.Env.Laws.{IsCipher, IsReader}
use nipovpn.Config.{Config, server}

abbrev pub base64 : Base64Iterators
base64 = record { symbols_of = hex_arr_to_str; bytes_of = hex_to_ascii }

hex_arr_to_str-Lacks : (s : Bytes) → All IsByte s → Lacks b'=' (hex_arr_to_str s)
unfolding hex_arr_to_str
hex_arr_to_str-Lacks [] h = tt
hex_arr_to_str-Lacks (c ∷ s) h = (
  (λ e. digit (c / 16) (omega arith) e),
  ((λ e. digit (c % 16) (omega arith) e), hex_arr_to_str-Lacks s h.1),
)
  where
    digit : (d : ℕ) → d < 16 → hex_digit d ≡ b'=' → ⊥
    digit d k = ground arith

pub base64-IsBase64 : IsBase64 base64
base64-IsBase64 = record {
  inverts = hex_to_ascii-hex_arr_to_str;
  no_padding = hex_arr_to_str-Lacks;
}

abbrev pub vector : Bytes
vector = replicate 16 0

-- A read takes the next text, as far as it fits.
abbrev pub read_next : ℕ → List Bytes → Read × List Bytes
read_next n [] = (failed eof, [])
read_next n ([] ∷ w) = (failed eof, w)
read_next n ((c ∷ t) ∷ w) = (got (take n (c ∷ t)), w)

abbrev pub read_head : List Bytes → (Bytes × Option NetError) × List Bytes
read_head [] = (([], some eof), [])
read_head (t ∷ w) = ((t, none), w)

abbrev pub request_of : Bytes → Option Request
request_of raw = some (record {
  is_connect = starts_with (codes "CONNECT ") raw;
  target = codes "example.org:443";
  host = none;
  body = [];
})

-- Only a text of bytes can be encrypted.
abbrev pub all_bytes : Bytes → Bool
all_bytes [] = true
all_bytes (c ∷ s) = ltb c 256 && all_bytes s

abbrev pub env : Env
env = record {
  World = List Bytes;
  rand_bytes = λ w. (some vector, w);
  ctx_new = λ w. (true, w);
  encrypt_init = λ key iv. true;
  encrypt_update = λ key iv plain. if all_bytes plain then some plain else none;
  encrypt_final = λ key iv plain. some [];
  decrypt_init = λ key iv. true;
  decrypt_update = λ key iv cipher. some cipher;
  decrypt_final = λ key iv cipher. some [];
  base64 = base64;
  pick = λ n w. (0, w);
  parse_request = request_of;
  resolve = λ host port w. (true, w);
  connect = λ host port w. (connected 7, w);
  init_tls = λ w. (true, w);
  set_host_name = λ name w. (true, w);
  set_alpn = λ w. (true, w);
  handshake = λ fd w. (true, w);
  new_server_context = λ w. (ok tt, w);
  use_certificate = λ path w. (ok tt, w);
  use_private_key = λ path w. (ok tt, w);
  check_private_key = λ w. (true, w);
  set_ciphers = λ w. (true, w);
  handshake_server = λ fd w. (true, w);
  write = λ s bytes w. (sent, w);
  read_some = λ s n w. read_next n w;
  read_until = λ s w. read_head w;
  read_more = λ s text w. ((text, some eof), w);
  read_exact = λ s n w. read_head w;
  ipv6_text = hex_arr_to_str;
  available = λ fd w. (some 4, w);
  has_peer = λ fd w. (true, w);
  close = λ fd w. w;
}

all_bytes-IsByte : (s : Bytes) → all_bytes s ≡ true → All IsByte s
all_bytes-IsByte [] h = tt
all_bytes-IsByte (c ∷ s) h = ground (arith, all_bytes-IsByte s)

pub env-IsCipher : IsCipher env
env-IsCipher = record {
  iv_size = λ w iv h. ground arith;
  iv_bytes = λ w iv h. zeros iv h;
  cipher_bytes = λ key iv plain head last h k. bytes plain head last h k;
  inverts = λ key iv plain head last h k. back plain head last h k;
}
  where
    zeros : (iv : Bytes) → some vector ≡ some iv → All IsByte iv
    zeros iv h = let e : vector ≡ iv = cc in rw (← e) (omega arith)

    bytes :
        (plain head last : Bytes)
        → (if all_bytes plain then some plain else none) ≡ some head
        → some [] ≡ some last
        → All IsByte (head ++ last)
    bytes plain head last h k = elim (Bool-cases (all_bytes plain)) [
      | inl all ↦
          let e : plain ≡ head = ground arith in
          let e' : [] ≡ last = cc in rw (← e, ← e', append-nil) (all_bytes-IsByte plain all)
      | inr some_not ↦ ground arith
    ]

    back :
        (plain head last : Bytes)
        → (if all_bytes plain then some plain else none) ≡ some head
        → some [] ≡ some last
        → (true ≡ true)
          × (head' : Bytes) × (last' : Bytes) × (some (head ++ last) ≡ some head')
          × (some [] ≡ some last')
          × (head' ++ last' ≡ plain)
    back plain head last h k = elim (Bool-cases (all_bytes plain)) [
      | inl all ↦
          let e : plain ≡ head = ground arith in
          let e' : [] ≡ last = cc in
          (refl, head ++ last, [], refl, refl, rw (← e, ← e') (simp append-nil))
      | inr some_not ↦ ground arith
    ]

pub env-IsReader : IsReader env
env-IsReader = record { reads_some = λ s n w bytes h k. next n w bytes h k }
  where
    next :
        (n : ℕ) (w : List Bytes) (bytes : Bytes)
        → 0 < n
        → (read_next n w).0 ≡ got bytes
        → (0 < length bytes) × (length bytes ≤ n)
    next n [] bytes h k = ground arith
    next n ([] ∷ w) bytes h k = ground arith
    next n ((c ∷ t) ∷ w) bytes h k =
        let e : take n (c ∷ t) ≡ bytes = cc in rw (← e) (omega (arith, length-take n (c ∷ t)))

abbrev pub config : Config
config = record {
  run_mode = server;
  file_path = codes "nipovpn.yaml";
  threads = 2;
  listen_ip = codes "127.0.0.1";
  listen_port = 8080;
  general = record {
    token = codes "0123456789abcdef0123456789abcdef";
    protocol = codes "http";
    buffer_size = 65536;
    fake_urls = codes "http://fake.example/index.html" ∷ [];
    methods = codes "GET" ∷ [];
    end_points = codes "api" ∷ [];
    timeout = 10;
    pull_timeout = 1;
    tunnel_enable = false;
    connection_reuse = true;
    tls_enable = false;
    tls_verify_peer = false;
    tls_cert_file = [];
    tls_key_file = [];
    tls_ca_file = [];
  };
  log = record { level = codes "INFO"; file = codes "/var/log/nipovpn.log" };
  server = record { threads = 2; listen_ip = codes "127.0.0.1"; listen_port = 8080 };
  agent = record {
    threads = 2;
    listen_ip = codes "127.0.0.1";
    listen_port = 8080;
    server_ip = codes "192.0.2.1";
    server_port = 8080;
    http_version = codes "1.1";
    user_agent = codes "NipoAgent";
  };
}
