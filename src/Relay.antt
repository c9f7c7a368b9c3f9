-- ===== src/Relay.antt =====
-- core/src/agenthandler.cpp and tcpconnection.cpp: the request that the agent sends to the server,
-- and the answer that it reads.
-- `AgentHandler::handle` and the `sendOnce` of `postTunnelAction` build it in the same words; they
-- differ in the action and in the `Connection` header. The values are drawn in the order in which
-- they stand in the text.
pub mod Texts
pub mod Lines
pub mod Arrival
pub mod Handling
pub mod Delivery
pub mod Answer
use nipovpn.Base.{
  Bool, true, false, not, Option, none, some, List, [], ◌∷◌, ◌++◌, Bytes, codes, length, drop, ◌+◌,
  if◌then◌else◌,
}
use nipovpn.Text.Lines.{crlf, with_crlf}
use nipovpn.Text.Numbers.{to_string}
use nipovpn.Codec.{hex_arr_to_str, encode64}
use nipovpn.Env.{Env, Except, ok, throw}
use nipovpn.HttpUtils.{header_end}
use nipovpn.Text.{find}
use nipovpn.Crypto.{BoolStr, aes256_encrypt, aes256_decrypt}
use nipovpn.Config.{Config, random_fake_url, random_method, random_end_point, relay_host_header}

-- The values of one request.
pub record Fields : Type 0 where
  pub method : Bytes
  pub end_point : Bytes
  pub host : Bytes
  pub session : Bytes
  pub action : Bytes
  pub keep_alive : Bool
  pub body : Bytes

abbrev pub connection_value : Bool → Bytes
connection_value true = codes "keep-alive"
connection_value false = codes "close"

module _ (e : Env) (config : Config) where
  abbrev pub request_line : Fields → Bytes
  request_line f =
      f.method ++ (codes " /" ++ (f.end_point ++ (codes " HTTP/" ++ config.agent.http_version)))

  -- The lines up to the session, and those behind the action.
  abbrev pub lines_before : Fields → List Bytes
  lines_before f =
      request_line f
      ∷ (codes "Host: " ++ f.host)
      ∷ (codes "User-Agent: " ++ config.agent.user_agent)
      ∷ codes "Accept: */*"
      ∷ codes "Content-Type: application/text"
      ∷ []

  abbrev pub lines_after : Fields → List Bytes
  lines_after f =
      (codes "Content-Length: " ++ to_string (length f.body))
      ∷ (codes "Connection: " ++ connection_value f.keep_alive)
      ∷ []

  abbrev pub request_lines : Fields → List Bytes
  request_lines f =
      lines_before f
      ++ (codes "X-Nipo-Session: " ++ f.session)
        ∷ (codes "X-Nipo-Action: " ++ f.action)
        ∷ lines_after f

  -- The text of the request.
  unfoldable pub request_text : Fields → Bytes
  request_text f = with_crlf (request_lines f) ++ (crlf ++ f.body)

  abbrev pub with_host :
      Bytes → Bytes → Bool → Bytes → Bytes → Bytes → Bytes × e.World → Fields × e.World
  with_host session action keep_alive body method end_point (url, w) = (
    record {
      method = method;
      end_point = end_point;
      host = relay_host_header url;
      session = session;
      action = action;
      keep_alive = keep_alive;
      body = body;
    },
    w,
  )

  abbrev pub with_end_point :
      Bytes → Bytes → Bool → Bytes → Bytes → Bytes × e.World → Fields × e.World
  with_end_point session action keep_alive body method (end_point, w) =
      with_host session action keep_alive body method end_point (random_fake_url e config w)

  abbrev pub with_method : Bytes → Bytes → Bool → Bytes → Bytes × e.World → Fields × e.World
  with_method session action keep_alive body (method, w) =
      with_end_point session action keep_alive body method (random_end_point e config w)

  abbrev pub written : Fields × e.World → Option Bytes × e.World
  written (f, w) = (some (request_text f), w)

  abbrev pub enclose : Bytes → Bytes → Bool → BoolStr × e.World → Option Bytes × e.World
  enclose session action keep_alive (r, w) =
      if not r.good
      then (none, w)
      else written (
          with_method session action keep_alive (encode64 e.base64 r.text)
            (random_method e config w))

  -- The request that carries the bytes: in hexadecimal digits, encrypted, in Base64. `none` is a
  -- failed encryption.
  unfoldable pub relay_request : Bytes → Bytes → Bool → Bytes → e.World → Option Bytes × e.World
  unfolding request_text
  relay_request session action keep_alive bytes w =
      enclose session action keep_alive
        (aes256_encrypt e (hex_arr_to_str bytes) config.general.token w)

  abbrev pub deciphered : Except BoolStr × e.World → Except (Option Bytes) × e.World
  deciphered (throw, w) = (throw, w)
  deciphered (ok r, w) = (ok (if not r.good then none else some r.text), w)

  abbrev pub body_of_reply : Bytes → e.World → Except (Option Bytes) × e.World
  body_of_reply [] w = (ok none, w)
  body_of_reply (c ∷ body) w = deciphered (aes256_decrypt e (c ∷ body) config.general.token w)

  -- What the server answered, from the text of its response; `none` if there is no body, or one that
  -- does not decrypt, and an exception if the body is shorter than a vector.
  unfoldable pub relay_answer : Bytes → e.World → Except (Option Bytes) × e.World
  relay_answer response w = elim (find header_end response) [
    | none ↦ (ok none, w)
    | some i ↦ body_of_reply (drop (i + 4) response) w
  ]
