-- ===== src/Client.antt =====
-- core/src/tcpclient.cpp and tcpclient.hpp: the connection to the server, or to a target. Log lines
-- and the mutex are left out; an exception of the allocator is not modelled.
pub mod Message
pub mod Defs
pub mod Invariant
pub mod Results
pub mod Written
pub mod Runs
