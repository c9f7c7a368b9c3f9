-- ===== src/Client/Message/Ends.antt =====
-- Reading a message whose body is not chunked needs no fuel.
use nipovpn.Base.{
  ℕ, suc, ◌-◌, ◌≡◌, ◌≢◌, Bool, false, Option, none, some, Bytes, length, if_split, arith,
  Option-cases, inl, inr,
}
use nipovpn.HttpUtils.{extract_headers, extract_body, parse_content_length, is_chunked}
use nipovpn.Env.{Env, NetError, Stream}
use nipovpn.Config.{Config}
use nipovpn.Client.Defs
use nipovpn.Client.Defs.{Client, do_read_agent, stream_of}
use nipovpn.Client.Message
use nipovpn.Client.Message.{Reading, read_http_message}
use nipovpn.Client.Message.Complete.{read_sized-ne-none}

-- The peer announces the lengths of its bodies: no header that is read says that its body is chunked.
pub record IsUnchunked (e : Env) : Type 0 where
  pub unchunked :
      (s : Stream) (w : e.World) → is_chunked (extract_headers (e.read_until s w).0.0) ≡ false

module _ (e : Env) where
  read_body-ne-none :
      (stream : Stream) (fuel : ℕ) (size : Option ℕ) (out body : Bytes) (w : e.World)
      → Message.read_body e stream fuel size false out body w ≢ none
  read_body-ne-none stream fuel none out body w = λ x. cc
  read_body-ne-none stream fuel (some size) out body w =
      read_sized-ne-none e stream (suc (size - length body)) size out body w (omega arith)

  read_rest-ne-none :
      (stream : Stream) (fuel : ℕ) (until : (Bytes × Option NetError) × e.World)
      → is_chunked (extract_headers until.0.0) ≡ false
      → Message.read_rest e stream fuel until ≢ none
  read_rest-ne-none stream fuel ((out, some error), w) h = λ x. cc
  read_rest-ne-none stream fuel ((out, none), w) h = rw h (
      read_body-ne-none stream fuel (parse_content_length (extract_headers out)) out
        (extract_body out) w)

  read_http_message-ne-none :
      (stream : Stream) (fuel : ℕ) (w : e.World)
      → IsUnchunked e
      → read_http_message e stream fuel w ≢ none
  unfolding read_http_message
  read_http_message-ne-none stream fuel w law =
      read_rest-ne-none stream fuel (e.read_until stream w) (law.unchunked stream w)

  module _ (config : Config) where
    read_message_from-ne-none :
        (fuel : ℕ) (stream : Option Stream) (c : Client) (w : e.World)
        → IsUnchunked e
        → Defs.read_message_from e config fuel stream c w ≢ none
    read_message_from-ne-none fuel none c w law = λ x. cc
    read_message_from-ne-none fuel (some s) c w law =
        elim (Option-cases (read_http_message e s fuel w)) [
          | inl stuck ↦ absurd (read_http_message-ne-none s fuel w law stuck)
          | inr (r, ran) ↦ rw (ran, Defs.read_message_from) (λ x. cc)
        ]

    pub do_read_agent-ne-none :
        (fuel : ℕ) (c : Client) (w : e.World)
        → IsUnchunked e
        → do_read_agent e config fuel c w ≢ none
    unfolding do_read_agent
    do_read_agent-ne-none fuel c w law =
        if_split {A = Option (Bool × Client × e.World)} (λ o. o ≢ none) (Defs.is_torn e config c)
          (λ x. cc) (read_message_from-ne-none fuel (stream_of e config c) _ w law)
