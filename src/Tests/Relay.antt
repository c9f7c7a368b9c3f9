-- ===== src/Tests/Relay.antt =====
-- A request from the agent to the server, and an answer back.
use nipovpn.Base.{
  none, equal, ◌≡◌, refl, true, false, inl, inr, Option, some, [], ◌∷◌, Bytes, codes, arith,
  if◌then◌else◌,
}
use nipovpn.HttpUtils.{trim_copy}
use nipovpn.Env.{ok}
use nipovpn.Client.Defs.{Client, new_client}
use nipovpn.Crypto.{aes256_encrypt}
use nipovpn.Relay.{relay_request, relay_answer}
use nipovpn.Relay.Texts.{IsClean}
use nipovpn.Relay.Handling.{Arrives, opened}
use nipovpn.Relay.Delivery.{SessionWrites, handle-relayed, handle-sent}
use nipovpn.Relay.Answer.{relay_answer-make_encrypted}
use nipovpn.Server.Sessions.{lookup}
use nipovpn.Codec.{hex_arr_to_str}
use nipovpn.Server.Defs
use nipovpn.Tests.World.{env, config, base64-IsBase64, env-IsCipher}

abbrev pub session : Bytes
session = codes "s-1"

abbrev pub payload : Bytes
payload = codes "GET / HTTP/1.1\r\nHost: example.org\r\n\r\n"

config-IsClean : IsClean config
config-IsClean = omega arith

abbrev pub raw_of : Bytes → Bytes
raw_of action = raw (relay_request env config session action true payload []).0
  where
    raw : Option Bytes → Bytes
    raw (some r) = r
    raw _ = []

abbrev pub target : Client
target = record new_client { socket = some 7 }

abbrev pub server : Defs.Server (env.World)
server = record {
  read_buffer = [];
  write_buffer = [];
  client = new_client;
  sessions = (session, target) ∷ [];
  end_flag = false;
  connect_flag = false;
  world = [];
}

raw_of-Arrives : (action : Bytes) → Arrives env config config (codes "u-1") (raw_of action) server
raw_of-Arrives action = record {
  cipher = env-IsCipher;
  base64 = base64-IsBase64;
  shared = refl;
  accepted = record { request = _; parsed = refl; reported = inl refl };
  context = refl;
}

handle-relayed_example :
    Defs.handle env config (codes "u-1") (record server { read_buffer = raw_of (codes "request") })
    ≡ Defs.handle_inner env config
        (codes "u-1")
        session
        payload
        (opened env config config (codes "u-1") server (raw_of (codes "request")))
unfolding relay_request aes256_encrypt hex_arr_to_str trim_copy
handle-relayed_example =
    handle-relayed env config config (codes "u-1") session (codes "request") true payload []
      (raw_of (codes "request")) server config-IsClean (omega arith) refl (inr refl) (omega arith)
      refl (raw_of-Arrives (codes "request"))

handle-sent_example :
    SessionWrites env config config
      (codes "u-1")
      7
      session
      payload
      (opened env config config (codes "u-1") server (raw_of (codes "send")))
      (Defs.handle env config (codes "u-1") (record server { read_buffer = raw_of (codes "send") }))
unfolding relay_request aes256_encrypt hex_arr_to_str trim_copy lookup equal
handle-sent_example =
    handle-sent env config config (codes "u-1") session true payload [] (raw_of (codes "send"))
      server target 7 config-IsClean (omega arith) refl (omega arith) refl
      (raw_of-Arrives (codes "send")) refl
      (record { socket = refl; stream = refl; tls = refl; is_up = refl })

relay_answer-make_encrypted_example :
    (relay_answer env config
      (Defs.make_encrypted_http_response env config
        (codes "u-1")
        payload
        (codes "200 OK")
        (codes "close")
        server).write_buffer
      []).0
    ≡ ok
        (if (aes256_encrypt env payload config.general.token []).0.good then some payload else none)
relay_answer-make_encrypted_example =
    relay_answer-make_encrypted env config config (codes "u-1") payload (codes "200 OK")
      (codes "close") server [] env-IsCipher refl (omega arith) (omega arith) refl
