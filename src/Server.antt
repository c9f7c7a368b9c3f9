-- ===== src/Server.antt =====
-- core/src/serverhandler.cpp and serverhandler.hpp: the server's side of the relay.
pub mod Sessions
pub mod Defs
pub mod Responses
pub mod Actions
pub mod Requests
pub mod Isolation
pub mod View
pub mod Refinement
pub mod Lifetimes
