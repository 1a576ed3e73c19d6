-- ===== src/Proxy.antt =====
-- The requests in the guest program https-proxy/https-proxy.cpp: how a browser's request is passed to
-- the host, and its response back, and the connections that bring them.
pub mod Fill
pub mod Expected
pub mod Filled
pub mod Handler
pub mod Answers
pub mod Carried
pub mod Session
pub mod Served
pub mod Listener
mod Tests
