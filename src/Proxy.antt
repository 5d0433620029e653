-- ===== src/Proxy.antt =====
-- The package proxy: one session between a client and an upstream server.
pub mod Frame
pub mod Params
pub mod Verifier
pub mod Handshake
pub mod Enumeration
pub mod Page
pub mod State
pub mod Requests
pub mod Core
