-- ===== src/Env.antt =====
-- What the program calls and does not implement: OpenSSL, Boost.Beast, Boost.Asio and the random
-- numbers, as one interface over a `World` that each effect reads and changes.
pub mod Laws
use nipovpn.Base.{ℕ, Bool, Option, none, some, Bytes}
use nipovpn.Codec.{Base64Iterators}

-- A call that returns, or throws a `std::exception`.
pub data Except {ℓ} (A : Type ℓ) : Type ℓ where
  ok : A → Except A
  throw : Except A

-- A method of an object returned, or threw; what it had done to the object before stays done.
pub data Outcome (S : Type 0) : Type 0 where
  returned : S → Outcome S
  threw : S → Outcome S

-- What the program reads of a parsed `beast::http::request`.
pub record Request : Type 0 where
  pub is_connect : Bool
  pub target : Bytes
  pub host : Option Bytes
  pub body : Bytes

-- `boost::system::error_code`, as far as the program tells errors apart.
pub data NetError : Type 0 where
  eof aborted other : NetError

-- A descriptor, written in clear or through TLS.
pub data Stream : Type 0 where
  tcp tls : ℕ → Stream

-- `boost::asio::connect`: a failed call may leave the socket open.
pub data Connected : Type 0 where
  connected : ℕ → Connected
  refused : Option ℕ → Connected

pub data Read : Type 0 where
  got : Bytes → Read
  failed : NetError → Read

-- A write of a whole buffer, or of so many bytes before an error.
pub data Written : Type 0 where
  sent : Written
  stopped : ℕ → Written

pub record Env : Type 1 where
  pub World : Type 0
  -- `RAND_bytes` of 16 bytes, and `EVP_CIPHER_CTX_new`.
  pub rand_bytes : World → Option Bytes × World
  pub ctx_new : World → Bool × World
  -- AES-256-CBC by key, initialisation vector and text; `none` is an error.
  pub encrypt_init : Bytes → Bytes → Bool
  pub encrypt_update : Bytes → Bytes → Bytes → Option Bytes
  pub encrypt_final : Bytes → Bytes → Bytes → Option Bytes
  pub decrypt_init : Bytes → Bytes → Bool
  pub decrypt_update : Bytes → Bytes → Bytes → Option Bytes
  pub decrypt_final : Bytes → Bytes → Bytes → Option Bytes
  pub base64 : Base64Iterators
  -- `uniform_int_distribution(0, n - 1)`
  pub pick : ℕ → World → ℕ × World
  -- `request_parser::put` with `eager(true)`; `none` is an error.
  pub parse_request : Bytes → Option Request
  -- `resolver::resolve` of a host and a port: whether it succeeds.
  pub resolve : Bytes → ℕ → World → Bool × World
  pub connect : Bytes → ℕ → World → Connected × World
  -- The TLS context of a client: whether it can be set up.
  pub init_tls : World → Bool × World
  -- `SSL_set_tlsext_host_name`, `SSL_set_alpn_protos` and the handshake: whether each succeeds.
  pub set_host_name : Bytes → World → Bool × World
  pub set_alpn : World → Bool × World
  pub handshake : ℕ → World → Bool × World
  -- The TLS context of a server: its construction with its options, the loads of the two files, which
  -- throw where they fail, and the two calls whose results are tested.
  pub new_server_context : World → Except {0} Unit × World
  pub use_certificate : Bytes → World → Except {0} Unit × World
  pub use_private_key : Bytes → World → Except {0} Unit × World
  pub check_private_key : World → Bool × World
  pub set_ciphers : World → Bool × World
  -- The handshake of an accepted connection.
  pub handshake_server : ℕ → World → Bool × World
  -- `boost::asio::write` of a whole buffer.
  pub write : Stream → Bytes → World → Written × World
  -- `read_some` into a buffer of the given size.
  pub read_some : Stream → ℕ → World → Read × World
  -- `read_until("\r\n\r\n")` into an empty buffer: what the buffer holds then, and the error.
  pub read_until : Stream → World → (Bytes × Option NetError) × World
  -- The same into a buffer that holds a text already.
  pub read_more : Stream → Bytes → World → (Bytes × Option NetError) × World
  -- `read` of so many bytes: what was read, and the error with which it stopped before.
  pub read_exact : Stream → ℕ → World → (Bytes × Option NetError) × World
  -- `address_v6::to_string` of 16 bytes.
  pub ipv6_text : Bytes → Bytes
  -- `socket::available`; `none` is an error.
  pub available : ℕ → World → Option ℕ × World
  -- Whether `remote_endpoint()` returns, rather than throws.
  pub has_peer : ℕ → World → Bool × World
  pub close : ℕ → World → World

infixl 5 ◌>>=◌ ◌>>◌
abbrev pub ◌>>=◌ {ℓ κ} : {A : Type ℓ} {B : Type κ} → Except A → (A → Except B) → Except B
ok a >>= f = f a
throw >>= f = throw

abbrev pub ◌>>◌ {ℓ κ} : {A : Type ℓ} {B : Type κ} → Except A → Except B → Except B
m >> k = m >>= λ _. k

abbrev pub from_option {ℓ} : {A : Type ℓ} → Option A → Except A
from_option none = throw
from_option (some a) = ok a
