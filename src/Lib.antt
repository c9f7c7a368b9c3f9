-- ===== src/Lib.antt =====
-- nipovpn: an agent that takes HTTP and TLS requests of local clients, encrypts them and sends them
-- inside ordinary HTTP requests, and a server that takes them out, goes to their destinations and
-- answers the same way.
--
-- The parts, and how they interact. Every source is in core/src.
--   * Text codings, encryption (general.hpp): hexadecimal digits, Base64, `splitString` in Codec;
--     `aes256Encrypt` and `aes256Decrypt` in Crypto, over the cipher of OpenSSL.
--   * HTTP texts (http_utils.hpp): where a message is cut, and its header readers, in HttpUtils.
--   * Requests (http.cpp, http.hpp): `detectType`, `parseHttp`, `parseTls`, `parseHostPort` and
--     `setIPPort` in Http; which request a buffer holds, and where it is to go. The texts that it
--     writes are in Http.Texts.
--   * Settings (config.cpp, config.hpp): the settings that the other parts read, and the random choices
--     among them, in Config; the constructor in Config.Loading, `toString` in Config.Printing, and
--     `validateConfig` of general.hpp in Config.Validation.
--   * The start (main.cpp, runner.cpp, log.cpp): `main` and `Runner::run` in Program, the log in Log.
--     What they call of yaml-cpp, the files, the clock and the console is a record in Host.
--   * The outgoing connection (tcpclient.cpp, tcpclient.hpp): `TCPClient` in Client.Defs, the reading of
--     an HTTP message in Client.Message. Each method is a function of the client and the world, and
--     returns both with its result.
--   * The server's side (serverhandler.cpp, serverhandler.hpp): `ServerHandler::handle` in Server.Defs,
--     over the map of sessions in Server.Sessions. A handler reads a request from its buffer, changes
--     the sessions or its own client, and leaves a response in its other buffer.
--   * The agent's side (agenthandler.cpp, agenthandler.hpp): `AgentHandler::handle` in Agent. It turns
--     the request in its buffer into a request to the server, sends it over its client, and leaves the
--     decrypted answer in its other buffer. The text of that request, which `postTunnelAction` of
--     tcpconnection.cpp writes too, and the reading of the answer are in Relay.
--   * The incoming connection (tcpconnection.cpp, tcpconnection.hpp): the state of a `TCPConnection`, its
--     timer and its shutdown in Connection, `handleSocks5Handshake` in Connection.Socks, whose parts
--     go on, return `false` or throw, and `postTunnelAction` in Connection.Tunnel, with which a tunnel
--     exchanges bytes with the server. Each callback is a function that returns the operations which it
--     starts: those at the server, from `doReadServer` to the direct tunnel, in Connection.Serving, and
--     those at the agent, from `doReadAgent` to both kinds of tunnel, in Connection.Asking. The part of
--     a request's body that did not come with its headers is read in Connection.Body. How a connection
--     is accepted, by `handleAccept` of tcpserver.cpp, with TLS or without, is in Connection.Accepting.
--
-- A text is a list of byte values; Base has the operations on lists and texts, and Text those of
-- `std::string`, `std::getline`, `std::to_string` and the `std::stoul` family. What the program calls
-- and does not contain is in Env, and for its start in Host: OpenSSL, Boost and the network are fields of a record over a world
-- that each effect reads and changes, and what is known of them are the hypotheses of Env.Laws and
-- Codec.Base64. A method that throws keeps what it had done: `Outcome` has the state in both cases.
--
-- Bounds and fuel. `unsigned short`, `unsigned int` and `size_t` results are cut to 16, 32 and 64 bits
-- where the source does. `splitString` has fuel for each byte of the text, which is enough for a
-- delimiter that is not empty; on an empty one the source does not end. A body of announced length has
-- fuel for each byte that is missing, which is enough as a read gives at least one. How many reads the
-- end of a chunked body takes is up to the peer, so its fuel is an argument, and `none` means that it
-- ran out.
--
-- Not modelled: the locks, since one callback runs at a time; the log lines of the parts behind the
-- start, but for those whose argument can throw, which name a peer; exceptions of the allocator, of
-- the resolver and of the logger; the order in which the random choices of one expression are made;
-- closing the replaced connection when a session's name is taken again; `parseHttpResp`, and the
-- functions of HTTP that print what Boost.Beast parsed; the acceptor, and the threads that run the
-- callbacks, which are calls of Boost.
pub mod Base
pub mod Text
pub mod HttpUtils
pub mod Codec
pub mod Env
pub mod Crypto
pub mod Host
pub mod Http
pub mod Config
pub mod Log
pub mod Program
pub mod Client
pub mod Server
pub mod Relay
pub mod Agent
pub mod Connection
pub mod Tests
