-- ===== src/Agent.antt =====
-- internal/agent: the wire format, the server and its process, the client and the proxy driver.
pub mod Wire
pub mod Server
pub mod Client
pub mod Proxy
pub mod Process
pub mod Starting
