-- ===== src/Client.antt =====
-- client/fetch.go and client/client.go: one fresh session to a server, the answers to its calls, and
-- the fetch of its surface.
pub mod Session
pub mod Messages
pub mod Pages
pub mod Fetch
