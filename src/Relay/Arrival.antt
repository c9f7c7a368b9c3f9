-- ===== src/Relay/Arrival.antt =====
-- How a request of the agent looks to the parsers of the server.
use nipovpn.Base.{
  ℕ, ◌+◌, ◌≤◌, ◌≡◌, ap, ◌∙◌, ◌⊎◌, inl, inr, Option, some, [], ◌∷◌, ◌++◌, Bytes, equal, arith,
  length, take, take_at,
}
use nipovpn.Text.{find}
use nipovpn.HttpUtils.{header_end, extract_body}
use nipovpn.Codec.{hex_arr_to_str}
use nipovpn.Env.{Env, ok, Request}
use nipovpn.Config.{Config}
use nipovpn.Http.{Http, HttpType, https, http, connect, detect_type, parse_http, set_ip_port_as}
use nipovpn.Relay.Texts.{IsMethod}
use nipovpn.Server.Defs

-- Beast accepts the text as a request, and reports its body, or none.
pub record IsAccepted (e : Env) (raw body : Bytes) : Type 0 where
  pub request : Request
  pub parsed : e.parse_request raw ≡ some request
  pub reported : (request.body ≡ []) ⊎ (request.body ≡ body)

-- A text that begins with a letter is no TLS record.
detect_type-letter :
    (parse : Bytes → Option Request) (c : ℕ) (s : Bytes) (h : Http)
    → b'A' ≤ c
    → detect_type parse (c ∷ s) h ≡ ok (parse_http (parse (c ∷ s)) h)
unfolding detect_type hex_arr_to_str equal
detect_type-letter parse c s h p = ground arith

pub set_ip_port-request : (t : HttpType) (h : Http) → (set_ip_port_as t h).request ≡ h.request
unfolding set_ip_port_as
set_ip_port-request https h = ground arith
set_ip_port-request http h = ground arith
set_ip_port-request connect h = ground arith

abbrev pub BeginsWithLetter : Bytes → Type 0
BeginsWithLetter [] = ⊥
BeginsWithLetter (c ∷ s) = b'A' ≤ c

pub BeginsWithLetter-append : (s t : Bytes) → BeginsWithLetter s → BeginsWithLetter (s ++ t)
BeginsWithLetter-append [] t h = absurd h
BeginsWithLetter-append (c ∷ s) t h = h

pub IsMethod-letter : (m : Bytes) → IsMethod m → BeginsWithLetter m
IsMethod-letter [] h = absurd h
IsMethod-letter (c ∷ m) h = h.0

pub detect_type-method :
    (parse : Bytes → Option Request) (s : Bytes) (h : Http)
    → BeginsWithLetter s
    → detect_type parse s h ≡ ok (parse_http (parse s) h)
detect_type-method parse [] h p = absurd p
detect_type-method parse (c ∷ s) h p = detect_type-letter parse c s h p

pub body_or-reported :
    (e : Env) (config : Config) (uuid raw reported body : Bytes)
    → extract_body raw ≡ body
    → (reported ≡ []) ⊎ (reported ≡ body)
    → Defs.body_or e config uuid raw reported ≡ body
body_or-reported e config uuid raw [] body h r = h
body_or-reported e config uuid raw (c ∷ s) body h (inl r) = cc
body_or-reported e config uuid raw (c ∷ s) body h (inr r) = r

pub outer_headers-cut :
    (e : Env) (config : Config) (uuid raw headers : Bytes) (i : ℕ) (rest : Bytes)
    → find header_end raw ≡ some i
    → raw ≡ headers ++ rest
    → i + 2 ≡ length headers
    → Defs.outer_headers e config uuid raw ≡ headers
unfolding Defs.outer_headers
outer_headers-cut e config uuid raw headers i rest found whole size =
    rw (found, Defs.outer_headers) (ap (take (i + 2)) whole ∙ take_at (i + 2) headers rest size)
