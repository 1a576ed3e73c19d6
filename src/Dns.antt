-- ===== src/Dns.antt =====
-- The DNS server of https-proxy/https-proxy.cpp.
pub mod Response
pub mod Safety
pub mod Query
pub mod Exact
pub mod Agree
pub mod Pointers
pub mod Compressed
pub mod Server
mod Tests
