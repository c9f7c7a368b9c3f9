-- ===== src/Tests.antt =====
-- The theorems at concrete inputs, over an example of the outside components.
pub mod World
pub mod Program
pub mod Text
pub mod Relay
pub mod Server
pub mod Sessions
pub mod Client
pub mod Connection
pub mod Serving
pub mod Asking
pub mod Agent
